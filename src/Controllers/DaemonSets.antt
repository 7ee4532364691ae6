-- ===== src/Controllers/DaemonSets.antt =====
-- src/server/controller.rs: `reconcile_daemonsets`, `reconcile_daemonset` and `pod_for_daemonset`.
pub mod Strays
use superkube.Base.{
  String, Bool, true, false, Option, none, some, List, [], ◌∷◌, Map, ◌==◌, if◌then◌else◌, any,
  filter, map_or, append, unwrap_or,
}
use superkube.Models.Meta.{Uuid, name_of, namespace_of, labels_of}
use superkube.Models.Event.{normal}
use superkube.Models.Node.{Node}
use superkube.Models.Pod.{Pod}
use superkube.Models.DaemonSet.{DaemonSet, DaemonSetSpec}
use superkube.Scheduler.Labels.{has_labels}
use superkube.Store.{uid_or_new, Env, Action, ◌>>=◌, ◌>>◌, pure, ignore, new_v4}
use superkube.Store.Rows.{Json, Codec}
use superkube.Store.Bus.{added}
use superkube.PodRepository
use superkube.NodeRepository.{list_ready}
use superkube.DaemonSetRepository
use superkube.EventRepository.{emit_event}
use superkube.Controllers.Owned.{
  publish, each, is_owned_by, len_i32, is_running, owner_ref, templated, workload_ref,
}

-- The nodes that the template's node selector allows.
unfoldable pub target_nodes : DaemonSet → List Node → List Node
unfolding has_labels
target_nodes ds nodes =
    filter
      (λ n.
        map_or ds.spec.template.spec.node_selector true
          (λ sel. has_labels sel (labels_of n.metadata)))
      nodes

-- `match_labels`, or else the labels of the template.
or_else : Option (Map String) → Option (Map String) → Option (Map String)
or_else none b = b
or_else (some a) b = some a

unfoldable pub selector_of : DaemonSetSpec → Map String
unfolding or_else
selector_of spec = unwrap_or (or_else spec.selector.match_labels spec.template.metadata.labels) []

-- Whether one of the pods is on the node, or the node is one of the list.
unfoldable pub is_covered : List Pod → String → Bool
is_covered pods node_name = any (λ p. map_or p.spec.node_name false (λ n. n == node_name)) pods

unfoldable pub is_target : List Node → String → Bool
is_target nodes node_name = any (λ n. name_of n.metadata == node_name) nodes

module _ (e : Env) (j : Json) where
  -- Pre-bound to the node.
  unfoldable pub pod_for_daemonset : DaemonSet → Uuid → String → String → Uuid → Pod
  pod_for_daemonset ds owner name node_name uid =
      templated (namespace_of ds.metadata) name uid ds.spec.template
        (record ds.spec.template.spec { node_name = some node_name })
        (owner_ref "DaemonSet" (name_of ds.metadata) owner)

  create_on : DaemonSet → Uuid → String → Action (Unit {0})
  unfolding pod_for_daemonset PodRepository.create publish emit_event new_v4
  create_on ds owner node_name = do
    suffix ← new_v4 e
    uid ← new_v4 e
    let pod_name = append (name_of ds.metadata) (append "-" (e.short suffix))
    let pod = pod_for_daemonset ds owner pod_name node_name uid
    _ ← PodRepository.create e j pod
    publish added (namespace_of ds.metadata) pod_name pod
    emit_event e (workload_ref "DaemonSet" ds.metadata) (namespace_of ds.metadata) normal
        "SuccessfulCreate" (append "Created pod: " pod_name) "daemonset-controller"

  cover : DaemonSet → Uuid → List Pod → Node → Action (Unit {0})
  unfolding is_covered create_on
  cover ds owner owned node =
      if is_covered owned (name_of node.metadata)
      then pure tt
      else create_on ds owner (name_of node.metadata)

  -- A pod on a node that is no target any more; a pod without a node or a name stays.
  unfoldable pub remove_stray :
      DaemonSet → List Node → Pod → Option String → Option String → Action (Unit {0})
  unfolding is_target PodRepository.delete
  remove_stray ds targets pod none name = pure tt
  remove_stray ds targets pod (some node_name) none = pure tt
  remove_stray ds targets pod (some node_name) (some name) =
      if is_target targets node_name
      then pure tt
      else ignore (PodRepository.delete e j (namespace_of ds.metadata) name)

  -- No selector lists no pods.
  selected_pods : String → Map String → Action (List Pod)
  unfolding PodRepository.list
  selected_pods namespace [] = pure []
  selected_pods namespace (l ∷ labels) = PodRepository.list e j (some namespace) (some (l ∷ labels))

  unfoldable pub reconcile_daemonset :
      Codec DaemonSetSpec → List Node → DaemonSet → Action (Unit {0})
  unfolding uid_or_new target_nodes selector_of selected_pods is_owned_by each cover remove_stray
      DaemonSetRepository.update_status
  reconcile_daemonset c nodes ds = do
    owner ← uid_or_new e ds.metadata.uid
    let targets = target_nodes ds nodes
    pods ← selected_pods (namespace_of ds.metadata) (selector_of ds.spec)
    let owned = filter (is_owned_by ds.metadata.uid) pods
    each targets (cover ds owner owned)
    each owned (λ pod. remove_stray ds targets pod pod.spec.node_name pod.metadata.name)
    DaemonSetRepository.update_status j c e (namespace_of ds.metadata) (name_of ds.metadata)
        (len_i32 targets) (len_i32 owned) (len_i32 (filter is_running owned))

  reconcile_listed : Codec DaemonSetSpec → List DaemonSet → Action (Unit {0})
  unfolding list_ready each reconcile_daemonset
  reconcile_listed c [] = pure tt
  reconcile_listed c (ds ∷ sets) = do
    nodes ← list_ready e j
    each (ds ∷ sets) (reconcile_daemonset c nodes)

  unfoldable pub reconcile_daemonsets : Codec DaemonSetSpec → Action (Unit {0})
  unfolding DaemonSetRepository.list reconcile_listed
  reconcile_daemonsets c = do sets ← DaemonSetRepository.list j c e none; reconcile_listed c sets
