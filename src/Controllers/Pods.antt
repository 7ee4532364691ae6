-- ===== src/Controllers/Pods.antt =====
-- src/server/controller.rs: `reconcile_pods`. The set of names of ready nodes is their list. An
-- error of a method of the repositories other than the two `list` is dropped.
pub mod Untouched
pub mod Recovery
use superkube.Base.{
  String, Bool, true, false, ◌&&◌, not, Option, none, some, List, [], ◌∷◌, ◌==◌, if◌then◌else◌, any,
  map, map_or, append, and_then,
}
use superkube.Models.Meta.{Uuid, name_of, namespace_of}
use superkube.Models.Event.{warning}
use superkube.Models.Pod.{
  Pod, PodPhase, PodStatus, RestartPolicy, always, on_failure, never, pending, running, failed,
  phase_eq, status_of_phase,
}
use superkube.Store.{Env, Action, Result, ok, err, ◌>>=◌, ◌>>◌, pure, ignore, new_v4}
use superkube.Store.Rows.{Json}
use superkube.Store.Bus.{added, modified, deleted}
use superkube.PodRepository.{create, get_pod, list, delete, update_status}
use superkube.NodeRepository.{list_ready}
use superkube.EventRepository.{emit_event}
use superkube.Controllers.Owned.{publish, each, pod_ref}

unfoldable pub phase_of : Pod → PodPhase
phase_of pod = map_or pod.status pending (λ s. s.phase)

-- `restart_policy` or the default, compared with `Always`.
unfoldable pub restarts : Option RestartPolicy → Bool
restarts none = true
restarts (some always) = true
restarts (some on_failure) = false
restarts (some never) = false

unfoldable pub is_owned : Pod → Bool
is_owned pod =
    map_or pod.metadata.owner_references false (λ refs. elim refs [ [] ↦ false | r ∷ rs ↦ true ])

-- Whether a running pod stands on a node that is none of the ready ones.
unfoldable pub is_stranded : List String → Pod → String → Bool
unfolding phase_of
is_stranded ready pod node_name =
    not (any (λ n. n == node_name) ready) && phase_eq (phase_of pod) running

unfoldable pub is_respun : Pod → Bool
unfolding is_owned phase_of restarts
is_respun pod =
    not (is_owned pod) && phase_eq (phase_of pod) failed && restarts pod.spec.restart_policy

abbrev pub failed_status : Pod → PodStatus
failed_status pod = record (status_of_phase failed) {
  host_ip = and_then pod.status (λ s. s.host_ip);
}

-- The pod that takes the place of a failed one, without a node.
unfoldable pub respun_pod : Pod → Uuid → Pod
respun_pod pod uid = record {
  type_meta = pod.type_meta;
  metadata = record pod.metadata { uid = some uid };
  spec = record pod.spec { node_name = none };
  status = some (status_of_phase pending);
}

module _ (e : Env) (j : Json) where
  publish_found : String → String → Result Pod → Action (Unit {0})
  unfolding publish
  publish_found namespace name (err x) = pure tt
  publish_found namespace name (ok updated) = publish modified namespace name updated

  unfoldable pub republish : Pod → Action (Unit {0})
  unfolding get_pod publish_found
  republish pod w =
      let (found, w') = get_pod e j (namespace_of pod.metadata) (name_of pod.metadata) w in
      publish_found (namespace_of pod.metadata) (name_of pod.metadata) found w'

  unfoldable pub report : Pod → String → Action (Unit {0})
  unfolding emit_event
  report pod node_name =
      emit_event e (pod_ref pod) (namespace_of pod.metadata) warning "NodeNotReady"
        (append "Node " (append node_name " stopped reporting ready, pod marked Failed"))
        "node-controller"

  mark_failed : Pod → String → Action (Unit {0})
  unfolding update_status republish report
  mark_failed pod node_name = do
    ignore
        (update_status e j (namespace_of pod.metadata) (name_of pod.metadata) (failed_status pod))
    republish pod
    report pod node_name

  check_node : List String → Pod → Option String → Action (Unit {0})
  unfolding is_stranded mark_failed
  check_node ready pod none = pure tt
  check_node ready pod (some node_name) =
      if is_stranded ready pod node_name then mark_failed pod node_name else pure tt

  recreate : Pod → Uuid → Action (Unit {0})
  unfolding create publish respun_pod
  recreate pod uid = do
    ignore (create e j (respun_pod pod uid))
    publish added (namespace_of pod.metadata) (name_of pod.metadata) (respun_pod pod uid)

  unfoldable pub respin : Pod → Action (Unit {0})
  unfolding delete publish new_v4 recreate
  respin pod = do
    ignore (delete e j (namespace_of pod.metadata) (name_of pod.metadata))
    publish deleted (namespace_of pod.metadata) (name_of pod.metadata) pod
    uid ← new_v4 e
    recreate pod uid

  -- The body of the loop; `is_respun` looks at the pod as it was listed.
  unfoldable pub reconcile_pod : List String → Pod → Action (Unit {0})
  unfolding check_node is_respun respin
  reconcile_pod ready pod = do
    check_node ready pod pod.spec.node_name
    if is_respun pod then respin pod else pure tt

  unfoldable pub reconcile_pods : Action (Unit {0})
  unfolding list list_ready each reconcile_pod
  reconcile_pods = do
    pods ← list e j none none
    nodes ← list_ready e j
    each pods (reconcile_pod (map (λ n. name_of n.metadata) nodes))
