-- ===== src/Controllers/StatefulSets/Progress.antt =====
-- How a stateful set that is not parallel gets its next pod.
use superkube.Base.{
  ℕ, zero, suc, ◌+◌, ◌<◌, ◌≡◌, refl, ap, ◌∙◌, String, false, ◌⊎◌, inl, inr, none, some, find, any,
  eqb, pos, arith,
}
use superkube.Models.Meta.{Uuid, DateTime, namespace_of}
use superkube.Models.Pod.{Pod}
use superkube.Models.StatefulSet.{StatefulSet, is_parallel}
use superkube.Store.{Env, World, Result, ok, err, new_v4}
use superkube.Store.Rows.{Json, PodRow}
use superkube.PodRepository.{has_key, create}
use superkube.PodRepository.Conversions.{to_row}
use superkube.PodRepository.Keyed.{row_at, create-row, to_row-columns}
use superkube.PodRepository.Reading.{get_pod-some, get_pod-none}
use superkube.Controllers.StatefulSets.{
  up, created, failed, pod_name, pod_for_statefulset, after_create, after_get, visit, walk,
}
use superkube.Controllers.StatefulSets.Ordered.{RunsIn, RunFrom, announce-Keeps}

module _ (e : Env) (j : Json) (ss : StatefulSet) (calm : (m : ℕ) → e.faults m ≡ false) where
  visit-RunsIn :
      (owner : Uuid) (i : ℕ) (w : World)
      → RunsIn e j ss w.pods i
      → visit e j ss owner (pos i) w ≡ (up, record w { statements = w.statements + 1 })
  unfolding visit after_get RunsIn
  visit-RunsIn owner i w (row, found, runs) =
      rw (get_pod-some e j (namespace_of ss.metadata) (pod_name ss (pos i)) w row (calm _) found)
        (rw runs refl)

  after_create_kind :
      (pod : Pod) (name : String) (made : Result Pod) (w : World)
      → (((after_create e j ss pod name made w).0 ≡ created)
          ⊎ ((after_create e j ss pod name made w).0 ≡ failed))
        × ((after_create e j ss pod name made w).1.pods ≡ w.pods)
  unfolding after_create
  after_create_kind pod name (ok _) w = (inl refl, announce-Keeps e j ss pod name w)
  after_create_kind pod name (err x) w = (inr refl, refl)

  visit_missing :
      (owner : Uuid) (i : ℕ) (w : World) (row : PodRow)
      → row_at (namespace_of ss.metadata) (pod_name ss (pos i)) w ≡ none
      → to_row j
          (pod_for_statefulset ss owner (pod_name ss (pos i)) (e.random w.drawn))
          (e.random w.drawn)
          (e.clock (w.statements + 1))
        ≡ some row
      → any (λ r. eqb r.uid (e.random w.drawn)) w.pods ≡ false
      → (((visit e j ss owner (pos i) w).0 ≡ created) ⊎ ((visit e j ss owner (pos i) w).0 ≡ failed))
        × (row_at (namespace_of ss.metadata) (pod_name ss (pos i)) (visit e j ss owner (pos i) w).1
            ≡ some row)
  unfolding visit after_get new_v4 pod_for_statefulset
  visit_missing owner i w row gone h free =
      let name = pod_name ss (pos i) in
      let uid = e.random w.drawn in
      let pod = pod_for_statefulset ss owner name uid in
      let drawn = record w { statements = w.statements + 1; drawn = w.drawn + 1 } in
      let (made, w2) = create e j pod drawn in
      let (kind, same) = after_create_kind pod name made w2 in
      let (_, _, _, _, u) = to_row-columns j pod uid (e.clock (w.statements + 1)) row h in
      rw (get_pod-none e j (namespace_of ss.metadata) name w (calm _) gone) (
        kind,
        ap (find (has_key (namespace_of ss.metadata) name)) same
            ∙ create-row e j pod uid row drawn refl (calm _) h (inr (rw u free))
            ∙ rw gone refl,
      )

  -- Of a stateful set that is not parallel, where the database takes every statement, the pods of
  -- `n` indices from `i` on run, that of the next, `m`, is missing, JSON writes it, and its uid is
  -- not in the table: the walk leaves a row for it that is pending.
  pub walk_creates :
      (owner : Uuid) (n rounds i m current ready : ℕ) (w : World)
      → ((uid : Uuid) (time : DateTime)
          → (row : PodRow) × (to_row j
                (pod_for_statefulset ss owner (pod_name ss (pos m)) uid)
                uid
                time
              ≡ some row))
      → is_parallel ss.spec ≡ false
      → i + n ≡ m
      → n < rounds
      → RunFrom e j ss w.pods i n
      → row_at (namespace_of ss.metadata) (pod_name ss (pos m)) w ≡ none
      → any (λ r. eqb r.uid (e.random w.drawn)) w.pods ≡ false
      → (row : PodRow) × (row_at
            (namespace_of ss.metadata)
            (pod_name ss (pos m))
            (walk e j ss owner rounds i current ready w).1
          ≡ some row)
        × (row.status ≡ "Pending")
  unfolding RunFrom walk pod_for_statefulset
  walk_creates owner n zero i m current ready w writes ordered index high runs gone free =
      absurd (omega (arith, high))
  walk_creates owner zero (suc rounds) i m current ready w writes ordered index high runs gone
        free =
      let here : m ≡ i = omega (arith, index) in
      let (row, h) = writes (e.random w.drawn) (e.clock (w.statements + 1)) in
      let (_, _, status, _, _) =
        to_row-columns j (pod_for_statefulset ss owner (pod_name ss (pos m)) (e.random w.drawn))
          (e.random w.drawn) (e.clock (w.statements + 1)) row h in
      let (kind, at) = visit_missing owner i w row (rw here at gone) (rw here at h) free in
      (
        row,
        elim kind [
          | inl made ↦ rw (here, walk, made, ordered) at
          | inr fails ↦ rw (here, walk, fails) at
        ],
        status,
      )
  walk_creates owner (suc n) (suc rounds) i m current ready w writes ordered index high (runs, rest)
        gone free =
      let w1 = record w { statements = w.statements + 1 } in
      let visited = visit-RunsIn owner i w runs in
      let found : (visit e j ss owner (pos i) w).0 ≡ up = ap (λ p. p.0) visited in
      let after : (visit e j ss owner (pos i) w).1 ≡ w1 = ap (λ p. p.1) visited in
      rw (walk, found, after)
        (walk_creates owner n rounds (i + 1) m (current + 1) (ready + 1) w1 writes ordered
          (omega (arith, index)) (omega (arith, high)) rest gone free)
