-- ===== src/Controllers/Deployments.antt =====
-- src/server/controller.rs: `reconcile_deployments`, `reconcile_deployment` and
-- `create_pod_for_deployment`.
pub mod Scaling
pub mod Settled
use superkube.Base.{
  String, Option, none, some, List, [], ◌∷◌, Map, if◌then◌else◌, filter, take, ℤ, pos_part, ◌-ℤ◌,
  wrap_i32, ltb_ℤ, show_int, append, unwrap_or,
}
use superkube.Models.Meta.{Uuid, name_of, namespace_of}
use superkube.Models.Event.{normal}
use superkube.Models.Pod.{Pod}
use superkube.Models.Deployment.{Deployment, DeploymentSpec, replicas_of}
use superkube.Store.{uid_or_new, Env, Action, ◌>>=◌, ◌>>◌, pure, ignore, new_v4}
use superkube.Store.Rows.{Json, Codec}
use superkube.Store.Bus.{added, deleted}
use superkube.PodRepository.{create, list, delete}
use superkube.DeploymentRepository
use superkube.EventRepository.{emit_event}
use superkube.Controllers.Owned.{
  publish, each, times, is_owned_by, len_i32, as_usize, is_running, owner_ref, templated,
  workload_ref,
}

-- The labels that select the deployment's pods: an empty selector stands for the template's labels.
unfoldable pub effective_selector : DeploymentSpec → Map String
effective_selector spec = elim (unwrap_or spec.selector.match_labels []) [
  | [] ↦ unwrap_or spec.template.metadata.labels []
  | l ∷ labels ↦ l ∷ labels
]

-- No labels at all list every pod of the namespace.
unfoldable pub as_filter : Map String → Option (Map String)
as_filter [] = none
as_filter (l ∷ labels) = some (l ∷ labels)

module _ (e : Env) (j : Json) where
  -- The pod, once its three UUIDs are there.
  unfoldable pub new_pod : Deployment → Uuid → Uuid → Uuid → Pod
  new_pod d owner suffix uid =
      templated (namespace_of d.metadata)
        (append (name_of d.metadata) (append "-" (e.short suffix))) uid d.spec.template
        d.spec.template.spec (owner_ref "Deployment" (name_of d.metadata) owner)

  unfoldable pub create_pod_for_deployment : Deployment → Action (Unit {0})
  unfolding uid_or_new new_v4 create publish new_pod
  create_pod_for_deployment d = do
    owner ← uid_or_new e d.metadata.uid
    suffix ← new_v4 e
    uid ← new_v4 e
    _ ← create e j (new_pod d owner suffix uid)
    publish added (namespace_of d.metadata) (name_of (new_pod d owner suffix uid).metadata)
        (new_pod d owner suffix uid)

  unfoldable pub remove_pod : String → Pod → Option String → Action (Unit {0})
  unfolding delete publish
  remove_pod namespace pod none = pure tt
  remove_pod namespace pod (some name) = do
    ignore (delete e j namespace name)
    publish deleted namespace name pod

  unfoldable pub scale_event : Deployment → String → ℤ → ℤ → Action (Unit {0})
  unfolding emit_event show_int
  scale_event d word current desired =
      emit_event e (workload_ref "Deployment" d.metadata) (namespace_of d.metadata) normal
        "ScalingReplicaSet"
        (append word (
          append (name_of d.metadata)
            (append " from " (append (show_int current) (append " to " (show_int desired))))))
        "deployment-controller"

  scale_up : Deployment → ℤ → Action (Unit {0})
  unfolding scale_event times create_pod_for_deployment
  scale_up d current = do
    scale_event d "Scaled up replica set " current (replicas_of d.spec)
    times (pos_part (wrap_i32 (replicas_of d.spec -ℤ current))) (create_pod_for_deployment d)

  unfoldable pub scale_down : Deployment → List Pod → ℤ → Action (Unit {0})
  unfolding scale_event each as_usize remove_pod
  scale_down d owned current = do
    scale_event d "Scaled down replica set " current (replicas_of d.spec)
    each (take (as_usize (wrap_i32 (current -ℤ replicas_of d.spec))) owned)
        (λ pod. remove_pod (namespace_of d.metadata) pod pod.metadata.name)

  unfoldable pub scale : Deployment → List Pod → ℤ → Action (Unit {0})
  unfolding scale_up scale_down
  scale d owned current =
      if ltb_ℤ current (replicas_of d.spec)
      then scale_up d current
      else if ltb_ℤ (replicas_of d.spec) current
      then scale_down d owned current
      else pure tt

  unfoldable pub reconcile_deployment : Codec DeploymentSpec → Deployment → Action (Unit {0})
  unfolding list is_owned_by effective_selector as_filter scale DeploymentRepository.update_status
  reconcile_deployment c d = do
    pods ← list e j (some (namespace_of d.metadata)) (as_filter (effective_selector d.spec))
    let owned = filter (is_owned_by d.metadata.uid) pods
    scale d owned (len_i32 owned)
    DeploymentRepository.update_status j c e (namespace_of d.metadata) (name_of d.metadata)
        (len_i32 (filter is_running owned)) (len_i32 (filter is_running owned))

  unfoldable pub reconcile_deployments : Codec DeploymentSpec → Action (Unit {0})
  unfolding DeploymentRepository.list each reconcile_deployment
  reconcile_deployments c = do
    deployments ← DeploymentRepository.list j c e none
    each deployments (reconcile_deployment c)
