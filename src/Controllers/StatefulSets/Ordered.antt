-- ===== src/Controllers/StatefulSets/Ordered.antt =====
-- What a pass does to the pods of a stateful set that is not parallel.
use superkube.Base.{
  ℕ, zero, suc, ◌+◌, ◌<◌, ◌≡◌, refl, ap, ◌∙◌, String, append, true, false, ◌&&◌, some, List, find,
  ◌==◌, pos, ◌⊎◌, inl, inr, Bool-cases, arith,
}
use superkube.Models.Meta.{Uuid, name_of, namespace_of}
use superkube.Models.Event.{normal}
use superkube.Store.Bus.{added}
use superkube.Models.Pod.{Pod}
use superkube.Models.StatefulSet.{StatefulSet, is_parallel}
use superkube.Store.{Env, World, Result, ok, err, new_v4}
use superkube.Store.Rows.{Json, PodRow}
use superkube.Store.Frame.{Keeps}
use superkube.PodRepository.{has_key, get_pod, create}
use superkube.PodRepository.Conversions.{row_to_pod}
use superkube.PodRepository.Keyed.{row_at, create-Keeps}
use superkube.PodRepository.Reading.{pods_of, get_pod-Keeps, get_pod-found}
use superkube.Controllers.Frame.{emit_event-Keeps}
use superkube.Controllers.Owned.{is_running, publish, workload_ref}
use superkube.Controllers.StatefulSets.{
  Visit, up, waiting, created, failed, pod_name, pod_for_statefulset, announce, after_create,
  after_get, visit, walk,
}

module _ (e : Env) (j : Json) (ss : StatefulSet) where
  -- The pod of an index is in the table, and runs.
  unfoldable pub RunsIn : List PodRow → ℕ → Type 0
  RunsIn rows i =
      (row : PodRow) × (find (has_key (namespace_of ss.metadata) (pod_name ss (pos i))) rows
        ≡ some row)
      × (is_running (row_to_pod j row) ≡ true)

  -- The `n` indices from `i` on run.
  unfoldable pub RunFrom : List PodRow → ℕ → ℕ → Type 0
  RunFrom rows i zero = Unit
  RunFrom rows i (suc n) = RunsIn rows i × RunFrom rows (i + 1) n

  -- Every key but that of the index has the row that it had.
  pub OnlyAt : ℕ → World → World → Type 0
  OnlyAt i w w' =
      (n k : String)
      → ((namespace_of ss.metadata == n && pod_name ss (pos i) == k) ≡ true)
        ⊎ (row_at n k w' ≡ row_at n k w)

  OnlyAt-before : (i : ℕ) (w w1 w2 : World) → w1.pods ≡ w.pods → OnlyAt i w1 w2 → OnlyAt i w w2
  unfolding OnlyAt
  OnlyAt-before i w w1 w2 same only n k = elim (only n k) [
    | inl key ↦ inl key
    | inr kept ↦ inr (kept ∙ ap (find (has_key n k)) same)
  ]

  OnlyAt-after : (i : ℕ) (w w1 w2 : World) → w2.pods ≡ w1.pods → OnlyAt i w w1 → OnlyAt i w w2
  unfolding OnlyAt
  OnlyAt-after i w w1 w2 same only n k = elim (only n k) [
    | inl key ↦ inl key
    | inr kept ↦ inr (ap (find (has_key n k)) same ∙ kept)
  ]

  Visited : ℕ → World → Visit × World → Type 0
  Visited i w (v, w') =
      ((v ≡ up) × (w'.pods ≡ w.pods) × RunsIn w.pods i)
      ⊎ (((v ≡ waiting) × (w'.pods ≡ w.pods)) ⊎ (((v ≡ created) ⊎ (v ≡ failed)) × OnlyAt i w w'))

  pub announce-Keeps : (pod : Pod) (name : String) → Keeps pods_of (announce e j ss pod name)
  unfolding announce publish
  announce-Keeps pod name w =
      emit_event-Keeps e (workload_ref "StatefulSet" ss.metadata) (namespace_of ss.metadata) normal
        "SuccessfulCreate"
        (append "create Pod "
          (append name (append " in StatefulSet " (append (name_of ss.metadata) " successful"))))
        "statefulset-controller" (publish added (namespace_of ss.metadata) name pod w).1

  after_create_lem :
      (i : ℕ) (pod : Pod) (made : Result Pod) (w w' : World)
      → OnlyAt i w w'
      → Visited i w (after_create e j ss pod (pod_name ss (pos i)) made w')
  unfolding Visited after_create
  after_create_lem i pod (err x) w w' only = inr (inr (inr refl, only))
  after_create_lem i pod (ok _) w w' only =
      let told = announce e j ss pod (pod_name ss (pos i)) w' in
      inr (
        inr
          (inl refl, OnlyAt-after i w w' told.1 (announce-Keeps pod (pod_name ss (pos i)) w') only))

  after_get_lem :
      (owner : Uuid) (i : ℕ) (found : Result Pod) (w w' : World)
      → (w'.pods ≡ w.pods)
      → ((pod : Pod) → found ≡ ok pod → is_running pod ≡ true → RunsIn w.pods i)
      → Visited i w (after_get e j ss owner (pos i) found w')
  unfolding Visited OnlyAt after_get
  after_get_lem owner i (ok pod) w w' same runs = elim (Bool-cases (is_running pod)) [
    | inl r ↦ rw r (inl (refl, same, runs pod refl r))
    | inr r ↦ rw r (inr (inl (refl, same)))
  ]
  after_get_lem owner i (err x) w w' same runs =
      let uid = e.random w'.drawn in
      let pod = pod_for_statefulset ss owner (pod_name ss (pos i)) uid in
      let drawn = (new_v4 e w').1 in
      let (made, w2) = create e j pod drawn in
      after_create_lem i pod made w w2 (
        OnlyAt-before i w w' w2 same (λ n k.
          elim (Bool-cases (namespace_of ss.metadata == n && pod_name ss (pos i) == k)) [
            | inl key ↦ inl key
            | inr other ↦ inr (create-Keeps e j n k pod other drawn)
          ]))

  visit_lem : (owner : Uuid) (i : ℕ) (w : World) → Visited i w (visit e j ss owner (pos i) w)
  unfolding visit RunsIn
  visit_lem owner i w =
      let name = pod_name ss (pos i) in
      let got = get_pod e j (namespace_of ss.metadata) name w in
      after_get_lem owner i got.0 w got.1 (get_pod-Keeps e j (namespace_of ss.metadata) name w)
        (λ pod h r.
          let (row, found, read) = get_pod-found e j (namespace_of ss.metadata) name w pod h in
          (row, found, ap is_running read ∙ r))

  -- The pods are as they were, or the row of one index may have changed, and all indices before it,
  -- from `i` on, run.
  pub Sequential : ℕ → ℕ → World → World → Type 0
  Sequential rounds i w w' =
      (w'.pods ≡ w.pods) ⊎ ((n : ℕ) × (n < rounds) × RunFrom w.pods i n × OnlyAt (i + n) w w')

  after_up :
      (rounds i : ℕ) (w w1 w2 : World)
      → w1.pods ≡ w.pods
      → RunsIn w.pods i
      → Sequential rounds (i + 1) w1 w2
      → Sequential (suc rounds) i w w2
  unfolding Sequential RunFrom
  after_up rounds i w w1 w2 same runs (inl done) = inl (done ∙ same)
  after_up rounds i w w1 w2 same runs (inr (n, high, before, only)) =
      let index : i + 1 + n ≡ i + suc n = omega arith in
      inr (
        suc n,
        omega (arith, high),
        (runs, rw same at before),
        OnlyAt-before (i + suc n) w w1 w2 same (rw index at only),
      )

  stopped : (rounds i : ℕ) (w w1 : World) → OnlyAt i w w1 → Sequential (suc rounds) i w w1
  unfolding Sequential RunFrom
  stopped rounds i w w1 only =
      let index : i ≡ i + 0 = omega arith in inr (0, omega arith, tt, rw index at only)

  -- A pass over a stateful set that is not parallel, whatever the database refuses: either no row
  -- of a pod changes, or only rows of one index may, and the pods of all indices before it are in
  -- the table and run.
  pub walk-Sequential :
      (owner : Uuid) (rounds i current ready : ℕ) (w : World)
      → is_parallel ss.spec ≡ false
      → Sequential rounds i w (walk e j ss owner rounds i current ready w).1
  unfolding Sequential walk Visited
  walk-Sequential owner zero i current ready w ordered = inl refl
  walk-Sequential owner (suc rounds) i current ready w ordered =
      let next = (visit e j ss owner (pos i) w).1 in
      elim (visit_lem owner i w) [
        | inl (is_up, same, runs) ↦
            rw (walk, is_up)
              (after_up rounds i w next
                (walk e j ss owner rounds (i + 1) (current + 1) (ready + 1) next).1 same runs
                (walk-Sequential owner rounds (i + 1) (current + 1) (ready + 1) next ordered))
        | inr (inl (waits, same)) ↦ rw (walk, waits, ordered) (inl same)
        | inr (inr (inl made, only)) ↦ rw (walk, made, ordered) (stopped rounds i w next only)
        | inr (inr (inr fails, only)) ↦ rw (walk, fails) (stopped rounds i w next only)
      ]
