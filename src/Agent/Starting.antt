-- ===== src/Agent/Starting.antt =====
-- src/node/agent.rs: `reconcile_pod` on a node whose engine is the one of src/node/runtime/mock.rs.
use superkube.Base.{
  ℕ, String, Option, none, some, List, [], ◌∷◌, ◌≡◌, refl, sym, ◌∙◌, ap, subst, All, get, ◌==◌,
  Bool-cases, Option-cases, inl, inr, ◌⊎◌, eq_refl, arith,
}
use superkube.Anyhow.{Anyhow, done, ok_or_else}
use superkube.Models.Meta.{Uuid, DateTime, name_of}
use superkube.Models.Pod.{Pod, Container}
use superkube.Runtime.{Engines, ContainerInfo}
use superkube.Runtime as Node
use superkube.Runtime.Mock.{Mock, find_container, create_and_start_container, mock}
use superkube.Runtime.Memory.{started, next_id, create_and_start_container_lem}
use superkube.Runtime.Routing.{find_container-default, find_container-only}
use superkube.Agent.{Agent, Outside, continue, looked}
use superkube.Agent.Statuses.{key_of, Tally, container_name, first_tally}
use superkube.Agent.Pods.{
  start_missing, visit_observed, visit, visit_all, reconcile_containers, reconcile_pod, report,
}
use superkube.Agent.Settled.{report-host, visit_found, after_look}

-- A container with the name is there.
abbrev pub IsThere : Mock → String → Type 0
IsThere m name = (info : ContainerInfo) × (find_container name m ≡ done (some info))

found_or_not :
    (o : Option ContainerInfo)
    → (done o ≡ done none) ⊎ ((info : ContainerInfo) × (done o ≡ done (some info)))
found_or_not none = inl refl
found_or_not (some info) = inr (info, refl)

mock_cases : (name : String) (m : Mock) → (find_container name m ≡ done none) ⊎ IsThere m name
unfolding find_container
mock_cases name m = found_or_not _

done_none-ne-done_some :
    {A : Type 0} {o : Anyhow (Option A)} {a : A} → o ≡ done none → o ≡ done (some a) → ⊥
done_none-ne-done_some h k = cc

module _ (random : ℕ → String) (clock : ℕ → DateTime) where
  created_found :
      (name : String) (container : Container) (m : Mock)
      → IsThere (create_and_start_container random clock name container m).1 name
  created_found name container m =
      (started random clock m, create_and_start_container_lem random clock name container m)

  created_keeps :
      (name other : String) (container : Container) (m : Mock)
      → IsThere m other
      → IsThere (create_and_start_container random clock name container m).1 other
  unfolding create_and_start_container find_container
  created_keeps name other container m (info, h) = elim (Option-cases (get other m.by_name)) [
    | inl e ↦ absurd (done_none-ne-done_some (ground (arith, e)) h)
    | inr (id, e) ↦ elim (Bool-cases (name == other)) [
      | inl same ↦
          (started random clock m, ground (arith, e, same, eq_refl (next_id random clock m)))
      | inr differ ↦ elim (Bool-cases (next_id random clock m == id)) [
        | inl again ↦ (started random clock m, ground (arith, e, differ, again))
        | inr fresh ↦ (info, ground (arith, e, differ, fresh, h))
      ]
    ]
  ]

  module _ (outside : Outside Mock) (format_time : DateTime → String) where
    -- The node has the mock alone, and nothing else changes its containers.
    abbrev pub mocked : Outside Mock
    mocked = record outside {
      engines = record { default = "mock"; engines = ("mock", mock random clock format_time) ∷ [] };
      drift = λ n h. h;
    }

    module _ (pod : Pod) (uid : Uuid) where
      abbrev name_in_pod : Container → String
      name_in_pod c = container_name (name_of pod.metadata) c

      -- A step that gave a tally and left the host so.
      abbrev Leaves : Mock → Anyhow Tally × Agent Mock → Type 0
      Leaves m p = (t : Tally) × (p.0 ≡ done t) × (p.1.host ≡ m)

      start_missing_done :
          (c : Container) (t : Tally) (w : Agent Mock)
          → pod.spec.runtime_class_name ≡ none
          → Leaves
              (create_and_start_container random clock (name_in_pod c) c w.host).1
              (start_missing mocked pod uid c t w)
      unfolding start_missing mock Node.start Node.for_class
      start_missing_done c t w no_class =
          let found =
            find_container-default (name_in_pod c)
              (create_and_start_container random clock (name_in_pod c) c w.host).1 "mock" "mock"
              (mock random clock format_time) [] _ (created_found (name_in_pod c) c w.host).1 in
          rw (no_class, found) (_, refl, refl)

      -- A visit succeeds; the container is there then, and those that were there before still are.
      abbrev Visits : Container → Agent Mock → Anyhow Tally × Agent Mock → Type 0
      Visits c w p =
          (m : Mock) × Leaves m p
          × IsThere m (name_in_pod c)
          × ((other : String) → IsThere w.host other → IsThere m other)

      visit_done :
          (c : Container) (t : Tally) (w : Agent Mock)
          → pod.spec.runtime_class_name ≡ none
          → Visits c w (visit mocked pod uid c t w)
      unfolding visit after_look mock
      visit_done c t w no_class = elim (mock_cases (name_in_pod c) w.host) [
        | inr (info, e) ↦
            let there =
              find_container-default (name_in_pod c) w.host "mock" "mock"
                (mock random clock format_time) [] info e in
            subst (Visits c w)
              (sym (visit_found mocked w.host pod uid (λ c. info) c t w refl there))
              (w.host, (_, refl, refl), (info, e), λ other h. h)
        | inl e ↦
            subst (Visits c w)
              (sym (
                ap
                  (λ r.
                    continue r (λ observed. visit_observed mocked pod uid c t observed)
                      (looked mocked w))
                  (find_container-only (name_in_pod c) w.host "mock" "mock"
                    (mock random clock format_time) e)))
              (
                _,
                start_missing_done c t (looked mocked w) no_class,
                created_found (name_in_pod c) c w.host,
                λ other h. created_keeps (name_in_pod c) other c w.host h,
              )
      ]

      visit_all_done :
          (cs : List Container) (t : Tally) (w : Agent Mock)
          → pod.spec.runtime_class_name ≡ none
          → (m : Mock) × Leaves m (visit_all mocked pod uid cs t w)
            × All (λ c. IsThere m (name_in_pod c)) cs
            × ((other : String) → IsThere w.host other → IsThere m other)
      unfolding visit_all
      visit_all_done [] t w no_class = (w.host, (t, refl, refl), tt, λ other h. h)
      visit_all_done (c ∷ cs) t w no_class =
          let (m1, (t1, gave, left), there, kept) = visit_done c t w no_class in
          let w1 = (visit mocked pod uid c t w).1 in
          let (m, (t2, gave2, left2), all, kept2) = visit_all_done cs t1 w1 no_class in
          let after : (other : String) → IsThere m1 other → IsThere w1.host other =
            λ other h. subst (λ n. IsThere n other) (sym left) h in
          (
            m,
            subst (Leaves m)
                (sym (ap (λ r. continue r (λ u. visit_all mocked pod uid cs u) w1) gave))
                (t2, gave2, left2),
            (kept2 (name_in_pod c) (after (name_in_pod c) there), all),
            λ other h. kept2 other (after other (kept other h)),
          )

      containers_start :
          (cs : List Container) (w : Agent Mock)
          → pod.spec.runtime_class_name ≡ none
          → All (λ c. IsThere (reconcile_containers mocked pod uid cs w).1.host (name_in_pod c)) cs
      unfolding reconcile_containers
      containers_start [] w no_class = tt
      containers_start (c ∷ cs) w no_class =
          let (m, (t, gave, left), all, kept) = visit_all_done (c ∷ cs) first_tally w no_class in
          let w1 = (visit_all mocked pod uid (c ∷ cs) first_tally w).1 in
          let host =
            ap (λ r. (continue r (λ u. report mocked (key_of pod) uid u) w1).1.host) gave
            ∙ report-host mocked w1.host pod uid (λ c. started random clock m) t w1
            ∙ left in
          subst (λ n. All (λ c. IsThere n (name_in_pod c)) (c ∷ cs)) (sym host) all

  module _ (outside : Outside Mock) (format_time : DateTime → String) where
    -- On a node whose only engine is the mock, where nothing else changes its containers,
    -- `reconcile_pod` leaves no container of a pod that names no engine missing, whatever the
    -- server answers: afterwards the engine finds each by its name.
    pub reconcile_pod_starts :
        (pod : Pod) (uid : Uuid) (w : Agent Mock)
        → pod.metadata.uid ≡ some uid
        → pod.spec.runtime_class_name ≡ none
        → All
            (λ c.
              IsThere
                (reconcile_pod (mocked outside format_time) pod w).1.host
                (container_name (name_of pod.metadata) c))
            pod.spec.containers
    unfolding reconcile_pod
    reconcile_pod_starts pod uid w has_uid no_class =
        let o = mocked outside format_time in
        let named : Container → String = container_name (name_of pod.metadata) in
        let step =
          ap
            (λ u.
              continue (ok_or_else u "Pod has no UID")
                (λ i. reconcile_containers o pod i pod.spec.containers) w)
            has_uid in
        subst
          (λ (p : Anyhow (Unit {0}) × Agent Mock).
            All (λ c. IsThere p.1.host (named c)) pod.spec.containers)
          (sym step) (containers_start outside format_time pod uid pod.spec.containers w no_class)
