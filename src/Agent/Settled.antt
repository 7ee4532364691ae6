-- ===== src/Agent/Settled.antt =====
-- src/node/agent.rs: `reconcile_pod` of a pod whose containers the engines have.
use mathlib.Core.List.{append-nil, append_assoc}
use superkube.Base.{
  ℕ, String, Bool, true, false, ◌&&◌, ◌||◌, Option, none, some, List, [], ◌∷◌, ◌++◌, ◌≡◌, refl, sym,
  ◌∙◌, ap, All, all, any, map, unwrap_or, if◌then◌else◌, arith,
}
use superkube.Anyhow.{Anyhow, done, ok_or_else}
use superkube.Models.Meta.{Uuid, DateTime, name_of, namespace_of}
use superkube.Models.Pod.{Pod, PodPhase, Container, ContainerStatus, pending, running, failed}
use superkube.Runtime.{ContainerInfo, find_container}
use superkube.Runtime.Routing.{first_some}
use superkube.Agent.{Agent, Outside, put_pod_status, looked, continue}
use superkube.Agent.Statuses.{
  Tally, first_tally, tallied, status_of, has_failed, container_name, key_of, phase_of, status_pod,
  fallback_ip, indexed, or_ip,
}
use superkube.Agent.Pods.{visit, visit_all, report, reconcile_containers, reconcile_pod}
use superkube.Agent.Publishing.{report_by}

-- The phase that the containers make together.
abbrev pub phase_by : Bool → Bool → PodPhase
phase_by any_failed all_running =
    if any_failed then failed else if all_running then running else pending

or_assoc : (a b c : Bool) → ((a || b) || c) ≡ (a || (b || c))
or_assoc true b c = refl
or_assoc false b c = refl

and_assoc : (a b c : Bool) → ((a && b) && c) ≡ (a && (b && c))
and_assoc true b c = refl
and_assoc false b c = refl

or_ip_assoc :
    (a b : Option String) (os : List (Option String))
    → or_ip (or_ip a b) (first_some os) ≡ or_ip a (first_some (b ∷ os))
or_ip_assoc (some a) b os = refl
or_ip_assoc none (some b) os = refl
or_ip_assoc none none os = refl

or_ip-none : (a : Option String) → a ≡ or_ip a none
or_ip-none none = refl
or_ip-none (some a) = refl

phase_of_lem :
    (t : Tally) (f r : Bool) (s : ContainerStatus) (ss : List ContainerStatus)
    → t.any_failed ≡ f
    → t.all_running ≡ r
    → t.container_statuses ≡ s ∷ ss
    → phase_of t ≡ phase_by f r
phase_of_lem t f r s ss hf hr hs = rw (hf, hr, hs) (ground arith)

module _ {H : Type 0} (o : Outside H) (h : H) (pod : Pod) (uid : Uuid)
    (answers : Container → ContainerInfo) where
  -- The engines have the container, as `answers` says.
  abbrev pub IsFound : Container → Type 0
  IsFound c =
      find_container o.engines (container_name (name_of pod.metadata) c) h ≡ done (some (answers c))

  pub tally_all : List Container → Tally → Tally
  tally_all [] t = t
  tally_all (c ∷ cs) t = tally_all cs (tallied c (answers c) (answers c).started_at t)

  -- The agent after a look at a container that is there.
  unfoldable pub after_look : Container → Agent H → Agent H
  after_look c w = record (looked o w) { state = indexed uid (key_of pod) c (answers c) w.state }

  pub visit_found :
      (c : Container) (t : Tally) (w : Agent H)
      → (looked o w).host ≡ h
      → IsFound c
      → visit o pod uid c t w
        ≡ (done (tallied c (answers c) (answers c).started_at t), after_look c w)
  unfolding visit after_look
  visit_found c t w at_host found =
      let there =
        ap (λ x. find_container o.engines (container_name (name_of pod.metadata) c) x) at_host
        ∙ found in
      rw there

  unfoldable pub after_all : List Container → Agent H → Agent H
  after_all [] w = w
  after_all (c ∷ cs) w = after_all cs (after_look c w)

  visit_all_found :
      ((n : ℕ) → o.drift n h ≡ h)
      → (cs : List Container) (t : Tally) (w : Agent H) → w.host ≡ h
      → All IsFound cs
      → visit_all o pod uid cs t w ≡ (done (tally_all cs t), after_all cs w)
  unfolding visit_all after_all tally_all after_look
  visit_all_found calm [] t w at_host found = refl
  visit_all_found calm (c ∷ cs) t w at_host found =
      let at_look = ap (o.drift w.looks) at_host ∙ calm w.looks in
      rw (visit_found c t w at_look found.0) (
        visit_all_found calm cs (tallied c (answers c) (answers c).started_at t) (after_look c w)
          at_look found.1)

  after_all-host :
      ((n : ℕ) → o.drift n h ≡ h)
      → (cs : List Container) (w : Agent H) → w.host ≡ h
      → (after_all cs w).host ≡ h
  unfolding after_all after_look
  after_all-host calm [] w at_host = at_host
  after_all-host calm (c ∷ cs) w at_host =
      after_all-host calm cs (after_look c w) (ap (o.drift w.looks) at_host ∙ calm w.looks)

  after_all-sent : (cs : List Container) (w : Agent H) → (after_all cs w).sent ≡ w.sent
  unfolding after_all after_look
  after_all-sent [] w = refl
  after_all-sent (c ∷ cs) w = after_all-sent cs (after_look c w)

  abbrev pub statuses : List Container → List ContainerStatus
  statuses cs = map (λ c. status_of c (answers c)) cs

  tally_all-statuses :
      (cs : List Container) (t : Tally)
      → (tally_all cs t).container_statuses ≡ t.container_statuses ++ statuses cs
  unfolding tally_all tallied
  tally_all-statuses [] t = sym (append-nil t.container_statuses)
  tally_all-statuses (c ∷ cs) t =
      tally_all-statuses cs _
      ∙ append_assoc t.container_statuses (status_of c (answers c) ∷ []) (statuses cs)

  tally_all-failed :
      (cs : List Container) (t : Tally)
      → (tally_all cs t).any_failed ≡ (t.any_failed || any (λ c. has_failed (answers c)) cs)
  unfolding tally_all tallied
  tally_all-failed [] t = ground arith
  tally_all-failed (c ∷ cs) t =
      tally_all-failed cs _ ∙ or_assoc t.any_failed (has_failed (answers c)) _

  tally_all-running :
      (cs : List Container) (t : Tally)
      → (tally_all cs t).all_running ≡ (t.all_running && all (λ c. (answers c).running) cs)
  unfolding tally_all tallied
  tally_all-running [] t = ground arith
  tally_all-running (c ∷ cs) t =
      tally_all-running cs _ ∙ and_assoc t.all_running (answers c).running _

  tally_all-ip :
      (cs : List Container) (t : Tally)
      → (tally_all cs t).runtime_ip ≡ or_ip t.runtime_ip (first_some (map (λ c. (answers c).ip) cs))
  unfolding tally_all tallied
  tally_all-ip [] t = or_ip-none t.runtime_ip
  tally_all-ip (c ∷ cs) t =
      tally_all-ip cs _ ∙ or_ip_assoc t.runtime_ip (answers c).ip (map (λ c. (answers c).ip) cs)

  after_all-prefix :
      (cs : List Container) (w : Agent H)
      → (after_all cs w).state.pod_cidr_prefix ≡ w.state.pod_cidr_prefix
  unfolding after_all after_look indexed
  after_all-prefix [] w = refl
  after_all-prefix (c ∷ cs) w = after_all-prefix cs (after_look c w)

  -- The address of the first container that has one, or the pod's own in the node's range.
  abbrev pub address_of : List Container → Agent H → String
  address_of cs w =
      unwrap_or (first_some (map (λ c. (answers c).ip) cs))
        (fallback_ip w.state.pod_cidr_prefix uid)

  -- What `reconcile_pod` sends of a pod whose containers the engines have.
  abbrev pub SendsStatus : List Container → Agent H → Agent H → Type 0
  SendsStatus cs w w' =
      (start : DateTime) × (w'.sent
        ≡ w.sent
          ++ put_pod_status (namespace_of pod.metadata) (name_of pod.metadata) (
              status_pod (key_of pod)
                (phase_by (any (λ c. has_failed (answers c)) cs)
                  (all (λ c. (answers c).running) cs))
                (some (address_of cs w)) (statuses cs) start)
            ∷ [])

  pub reconcile_pod-report :
      ((n : ℕ) → o.drift n h ≡ h)
      → (c : Container) (cs : List Container) (w : Agent H) → pod.metadata.uid ≡ some uid
      → pod.spec.containers ≡ c ∷ cs
      → All IsFound (c ∷ cs)
      → w.host ≡ h
      → reconcile_pod o pod w
        ≡ report o (key_of pod) uid (tally_all (c ∷ cs) first_tally) (after_all (c ∷ cs) w)
  unfolding reconcile_pod
  reconcile_pod-report calm c cs w has_uid has_containers found at_host =
      ap
        (λ u.
          continue (ok_or_else u "Pod has no UID")
            (λ i. reconcile_containers o pod i pod.spec.containers) w)
        has_uid
      ∙ ap (λ l. reconcile_containers o pod uid l w) has_containers
      ∙ ap (λ (p : Anyhow Tally × Agent H). continue p.0 (λ t. report o (key_of pod) uid t) p.1)
          (visit_all_found calm (c ∷ cs) first_tally w at_host found)

  pub report-host : (t : Tally) (w : Agent H) → (report o (key_of pod) uid t w).1.host ≡ w.host
  unfolding report
  report-host t w =
      (report_by o (key_of pod) uid (phase_of t) t.container_statuses t.earliest_start t.runtime_ip
        w).0

  reported :
      (c : Container) (cs : List Container) (w : Agent H)
      → SendsStatus
          (c ∷ cs)
          w
          (report o (key_of pod) uid (tally_all (c ∷ cs) first_tally) (after_all (c ∷ cs) w)).1
  unfolding report
  reported c cs w =
      let t = tally_all (c ∷ cs) first_tally in
      let all = c ∷ cs in
      let (host, (at, sent)) =
        report_by o (key_of pod) uid (phase_of t) t.container_statuses t.earliest_start t.runtime_ip
          (after_all all w) in
      let phase =
        phase_of_lem t _ _ _ _ (tally_all-failed all first_tally)
          (tally_all-running all first_tally) (tally_all-statuses all first_tally) in
      (
        at,
        cc (
          sent,
          phase,
          tally_all-statuses all first_tally,
          tally_all-ip all first_tally,
          after_all-prefix all w,
          after_all-sent all w,
        ),
      )

  -- Where the engines have every container of a pod and nothing changes by itself,
  -- `reconcile_pod` starts nothing and sends one request, the status: a container's status each,
  -- Failed where one ended with another code than 0, else Running where all run, else Pending,
  -- and the first address that an engine reports, or the fallback.
  pub reconcile_pod_settled :
      ((n : ℕ) → o.drift n h ≡ h)
      → (c : Container) (cs : List Container) (w : Agent H) → pod.metadata.uid ≡ some uid
      → pod.spec.containers ≡ c ∷ cs
      → All IsFound (c ∷ cs)
      → w.host ≡ h
      → let w' = (reconcile_pod o pod w).1 in (w'.host ≡ h) × SendsStatus (c ∷ cs) w w'
  reconcile_pod_settled calm c cs w has_uid has_containers found at_host =
      rw (reconcile_pod-report calm c cs w has_uid has_containers found at_host) (
        report-host (tally_all (c ∷ cs) first_tally) (after_all (c ∷ cs) w)
            ∙ after_all-host calm (c ∷ cs) w at_host,
        reported c cs w,
      )
