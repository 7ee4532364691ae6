-- ===== src/Controllers/StatefulSets.antt =====
-- src/server/controller.rs: `reconcile_statefulsets`, `reconcile_statefulset` and
-- `pod_for_statefulset`. The counters of the walk are at most the number of replicas: natural
-- numbers.
pub mod Ordered
pub mod Progress
mod Tests
use superkube.Base.{
  ℕ, zero, suc, ◌+◌, String, Bool, true, false, Option, none, some, List, if◌then◌else◌, ℤ, pos,
  pos_part, ◌+ℤ◌, ◌-ℤ◌, wrap_i32, show_int, append,
}
use superkube.Models.Meta.{Uuid, name_of, namespace_of}
use superkube.Models.Event.{normal}
use superkube.Models.Pod.{Pod}
use superkube.Models.StatefulSet.{StatefulSet, StatefulSetSpec, replicas_of, is_parallel}
use superkube.Store.{
  uid_or_new, Env, World, Action, Result, ok, err, ◌>>=◌, ◌>>◌, pure, ignore, new_v4,
}
use superkube.Store.Rows.{Json, Codec}
use superkube.Store.Bus.{added, deleted}
use superkube.PodRepository.{create, get_pod, delete}
use superkube.StatefulSetRepository
use superkube.EventRepository.{emit_event}
use superkube.Controllers.Owned.{publish, each, is_running, owner_ref, templated, workload_ref}

-- What the walk meets at an index: a running pod, one that is not running, one that it has created,
-- or an error of the creation.
pub data Visit : Type 0 where
  up waiting created failed : Visit

unfoldable pub pod_name : StatefulSet → ℤ → String
unfolding show_int
pod_name ss i = append (name_of ss.metadata) (append "-" (show_int i))

unfoldable pub pod_for_statefulset : StatefulSet → Uuid → String → Uuid → Pod
pod_for_statefulset ss owner name uid =
    templated (namespace_of ss.metadata) name uid ss.spec.template ss.spec.template.spec
      (owner_ref "StatefulSet" (name_of ss.metadata) owner)

module _ (e : Env) (j : Json) where
  unfoldable pub announce : StatefulSet → Pod → String → Action (Unit {0})
  unfolding publish emit_event
  announce ss pod name = do
    publish added (namespace_of ss.metadata) name pod
    emit_event e (workload_ref "StatefulSet" ss.metadata) (namespace_of ss.metadata) normal
        "SuccessfulCreate"
        (append "create Pod "
          (append name (append " in StatefulSet " (append (name_of ss.metadata) " successful"))))
        "statefulset-controller"

  -- After the creation of a missing pod.
  after_create : StatefulSet → Pod → String → Result Pod → World → Visit × World
  unfolding announce
  after_create ss pod name (err x) w = (failed, w)
  after_create ss pod name (ok _) w = (created, (announce ss pod name w).1)

  -- The pod of an index, as `get` finds it.
  after_get : StatefulSet → Uuid → ℤ → Result Pod → World → Visit × World
  unfolding after_create pod_for_statefulset pod_name new_v4 create
  after_get ss owner i (ok pod) w = (if is_running pod then up else waiting, w)
  after_get ss owner i (err x) w =
      let uid = e.random w.drawn in
      let pod = pod_for_statefulset ss owner (pod_name ss i) uid in
      let (made, w') = create e j pod (new_v4 e w).1 in after_create ss pod (pod_name ss i) made w'

  unfoldable pub visit : StatefulSet → Uuid → ℤ → World → Visit × World
  unfolding after_get get_pod
  visit ss owner i w =
      let (found, w') = get_pod e j (namespace_of ss.metadata) (pod_name ss i) w in
      after_get ss owner i found w'

  -- The loop `for i in 0..desired` with `rounds` left: the counters `current` and `ready`.
  unfoldable pub walk : StatefulSet → Uuid → ℕ → ℕ → ℕ → ℕ → World → (ℕ × ℕ) × World
  unfolding visit
  walk ss owner zero i current ready w = ((current, ready), w)
  walk ss owner (suc rounds) i current ready w =
      let (v, w') = visit ss owner (pos i) w in
      elim v [
        | up ↦ walk ss owner rounds (i + 1) (current + 1) (ready + 1) w'
        | waiting ↦ elim (is_parallel ss.spec) [
          | true ↦ walk ss owner rounds (i + 1) (current + 1) ready w'
          | false ↦ ((current + 1, ready), w')
        ]
        | created ↦ elim (is_parallel ss.spec) [
          | true ↦ walk ss owner rounds (i + 1) current ready w'
          | false ↦ ((current, ready), w')
        ]
        | failed ↦ ((current, ready), w')
      ]

  trim_found : StatefulSet → ℤ → Result Pod → Action (Unit {0})
  unfolding delete publish
  trim_found ss i (err x) = pure tt
  trim_found ss i (ok pre) = do
    ignore (delete e j (namespace_of ss.metadata) (pod_name ss i))
    publish deleted (namespace_of ss.metadata) (pod_name ss i) pre

  -- The indices from `low + rounds - 1` down to `low`.
  unfoldable pub trim : StatefulSet → ℤ → ℕ → Action (Unit {0})
  unfolding trim_found get_pod
  trim ss low zero = pure tt
  trim ss low (suc rounds) =
      (λ w.
        let (found, w') =
          get_pod e j (namespace_of ss.metadata) (pod_name ss (low +ℤ pos rounds)) w in
        trim_found ss (low +ℤ pos rounds) found w')
      >> trim ss low rounds

  unfoldable pub reconcile_statefulset : Codec StatefulSetSpec → StatefulSet → Action (Unit {0})
  unfolding uid_or_new walk trim StatefulSetRepository.update_status
  reconcile_statefulset c ss = do
    owner ← uid_or_new e ss.metadata.uid
    counters ← (λ w.
        let (counts, w') = walk ss owner (pos_part (replicas_of ss.spec)) 0 0 0 w in
        (ok counts, w'))
    let desired = replicas_of ss.spec
    trim ss desired (pos_part (wrap_i32 (desired +ℤ pos 32) -ℤ desired))
    StatefulSetRepository.update_status j c e (namespace_of ss.metadata) (name_of ss.metadata)
        (pos counters.1) (pos counters.0)

  unfoldable pub reconcile_statefulsets : Codec StatefulSetSpec → Action (Unit {0})
  unfolding StatefulSetRepository.list each reconcile_statefulset
  reconcile_statefulsets c = do
    sets ← StatefulSetRepository.list j c e none
    each sets (reconcile_statefulset c)
