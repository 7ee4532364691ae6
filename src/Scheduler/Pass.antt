-- ===== src/Scheduler/Pass.antt =====
-- src/server/scheduler.rs: `schedule_pending_pods` and `schedule_pod`, over the repositories. The
-- lease is taken before each pass. An error of `anyhow!` is only logged: here it is `internal`.
pub mod Capacity
pub mod Outcome
mod Tests
use superkube.Base.{String, Option, none, some, List, [], ◌∷◌, ◌++◌, append}
use superkube.Models.Meta.{name_of, namespace_of}
use superkube.Models.Service.{ObjectReference}
use superkube.Models.Event.{normal}
use superkube.Models.Node.{Node}
use superkube.Models.Pod.{Pod}
use superkube.Store.{
  Env, World, Action, Result, ok, err, internal, pure, fail, ignore, ◌>>=◌, ◌>>◌, continue,
}
use superkube.Store.Rows.{Json}
use superkube.Store.Bus.{WatchEventType, modified, Object}
use superkube.PodRepository.{get_pod, list, bind_to_node, list_unscheduled}
use superkube.NodeRepository.{list_ready}
use superkube.EventRepository.{emit_event}
use superkube.Scheduler.Float.{F64}
use superkube.Scheduler.Usage.{ScoringStrategy, bound_to}
use superkube.Scheduler.Selection.{find_node_for_pod}

-- `Bus::publish_modified` of a pod: the local broadcast.
publish_modified : String → String → Pod → Action (Unit {0})
publish_modified namespace name pod w = (
  ok tt,
  record w {
    published =
        w.published
        ++ record {
          kind = "Pod";
          namespace = some namespace;
          name = name;
          event_type = modified;
          object = Object.pod pod;
        }
          ∷ [];
  },
)

pod_ref : Pod → ObjectReference
pod_ref pod = record {
  api_version = some "v1";
  kind = some "Pod";
  name = pod.metadata.name;
  namespace = pod.metadata.namespace;
  uid = pod.metadata.uid;
  resource_version = none;
  field_path = none;
}

-- `unwrap_or_default` of the list of pods.
or_default : Result (List Pod) → List Pod
or_default (ok pods) = pods
or_default (err e) = []

-- What the loop knows of the cluster after a call of `schedule_pod`.
unfoldable pub recorded : Pod → List Pod → Result String → List Pod
recorded pod existing (ok node_name) = existing ++ bound_to pod node_name ∷ []
recorded pod existing (err e) = existing

module _ (e : Env) (j : Json) (f : F64) (strategy : ScoringStrategy) where
  publish_found : String → String → Result Pod → Action (Unit {0})
  unfolding publish_modified
  publish_found namespace name (ok updated) = publish_modified namespace name updated
  publish_found namespace name (err x) = pure tt

  pub publish_current : String → String → Action (Unit {0})
  unfolding get_pod publish_found
  publish_current namespace name w =
      let (found, w') = get_pod e j namespace name w in publish_found namespace name found w'

  -- From the choice of the node on.
  schedule_on : Pod → Option Node → Action String
  unfolding bind_to_node publish_current emit_event pod_ref
  schedule_on pod none = fail (internal "No suitable node found for pod")
  schedule_on pod (some node) =
      let namespace = namespace_of pod.metadata in
      let pod_name = name_of pod.metadata in
      let node_name = name_of node.metadata in
      do
        bind_to_node e j namespace pod_name node_name
        publish_current namespace pod_name
        emit_event e (pod_ref pod) namespace normal "Scheduled"
            (append "Successfully assigned "
              (append namespace (append "/" (append pod_name (append " to " node_name)))))
            "scheduler"
        pure node_name

  unfoldable pub schedule_pod : Pod → List Node → List Pod → Action String
  unfolding find_node_for_pod schedule_on
  schedule_pod pod nodes existing_pods =
      schedule_on pod (find_node_for_pod f pod nodes existing_pods strategy)

  -- The loop over the pending pods: the pods that it knows of at the end, and the state.
  unfoldable pub schedule_all : List Pod → List Node → List Pod → World → List Pod × World
  unfolding schedule_pod recorded
  schedule_all [] nodes existing_pods w = (existing_pods, w)
  schedule_all (pod ∷ pods) nodes existing_pods w =
      let (result, w') = schedule_pod pod nodes existing_pods w in
      schedule_all pods nodes (recorded pod existing_pods result) w'

  schedule_ready : List Pod → List Node → Action (Unit {0})
  unfolding list or_default schedule_all
  schedule_ready pods [] w = (ok tt, w)
  schedule_ready pods (node ∷ nodes) w =
      let (existing, w') = list e j none none w in
      (ok tt, (schedule_all pods (node ∷ nodes) (or_default existing) w').1)

  schedule_listed : List Pod → Action (Unit {0})
  unfolding list_ready schedule_ready
  schedule_listed [] = pure tt
  schedule_listed (pod ∷ pods) = do nodes ← list_ready e j; schedule_ready (pod ∷ pods) nodes

  unfoldable pub schedule_pending_pods : Action (Unit {0})
  unfolding list_unscheduled schedule_listed
  schedule_pending_pods = do pods ← list_unscheduled e j; schedule_listed pods
