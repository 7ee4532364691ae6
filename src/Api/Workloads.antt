-- ===== src/Api/Workloads.antt =====
-- src/server/api.rs: the handlers of deployments, stateful sets and daemon sets. Deleting one deletes
-- the pods of its namespace that its selector matches.
use superkube.Base.{String, Option, none, some, List, Map}
use superkube.Models.Meta.{name_of}
use superkube.Models.Pod.{Pod}
use superkube.Models.Deployment.{Deployment, DeploymentSpec}
use superkube.Models.StatefulSet.{StatefulSet, StatefulSetSpec}
use superkube.Models.DaemonSet.{DaemonSet, DaemonSetSpec}
use superkube.Store.{Env, Action, ◌>>=◌, ◌>>◌, pure, ignore}
use superkube.Store.Rows.{Json, Codec}
use superkube.Store.Bus.{added, modified, deleted, Object}
use superkube.PodRepository
use superkube.DeploymentRepository
use superkube.StatefulSetRepository
use superkube.DaemonSetRepository
use superkube.Controllers.Owned.{each}
use superkube.Api.{announce, announce_found, try_get, in_namespace, placed, saved}

module _ (e : Env) (j : Json) where
  -- A pod of the cascade of a deployment: it is announced as it was, if it still is there.
  unfoldable pub cascade_pod : String → Option String → Action (Unit {0})
  unfolding announce_found
  cascade_pod namespace none = pure tt
  cascade_pod namespace (some pod_name) = do
    pod_pre ← try_get (PodRepository.get_pod e j namespace pod_name)
    ignore (PodRepository.delete e j namespace pod_name)
    announce_found "Pod" Object.pod (some namespace) pod_name pod_pre

  unfoldable pub cascade_deployment : String → Option (Map String) → Action (Unit {0})
  unfolding each cascade_pod
  cascade_deployment namespace none = pure tt
  cascade_deployment namespace (some selector) = do
    pods ← PodRepository.list e j (some namespace) (some selector)
    each pods (λ (pod : Pod). cascade_pod namespace pod.metadata.name)

  -- A pod of the cascade of a stateful set or a daemon set, announced as it was listed.
  unfoldable pub cascade_listed : String → Pod → Option String → Action (Unit {0})
  unfolding announce
  cascade_listed namespace pod none = pure tt
  cascade_listed namespace pod (some pod_name) = do
    ignore (PodRepository.delete e j namespace pod_name)
    announce deleted "Pod" (some namespace) pod_name (Object.pod pod)

  -- A listing that fails is no error.
  unfoldable pub cascade_pods : String → Option (List Pod) → Action (Unit {0})
  unfolding each cascade_listed
  cascade_pods namespace none = pure tt
  cascade_pods namespace (some pods) =
      each pods (λ (pod : Pod). cascade_listed namespace pod pod.metadata.name)

  unfoldable pub cascade_owned : String → Option (Map String) → Action (Unit {0})
  unfolding cascade_pods
  cascade_owned namespace none = pure tt
  cascade_owned namespace (some selector) = do
    pods ← try_get (PodRepository.list e j (some namespace) (some selector))
    cascade_pods namespace pods

module _ (e : Env) (j : Json) (c : Codec DeploymentSpec) where
  unfoldable pub list_deployments : String → Action (List Deployment)
  list_deployments namespace = DeploymentRepository.list j c e (some namespace)

  unfoldable pub list_all_deployments : Action (List Deployment)
  list_all_deployments = DeploymentRepository.list j c e none

  unfoldable pub get_deployment : String → String → Action Deployment
  get_deployment namespace name = DeploymentRepository.get_deployment j c e namespace name

  unfoldable pub create_deployment : String → Deployment → Action Deployment
  unfolding saved
  create_deployment namespace deployment =
      let deployment = record deployment {
        metadata = in_namespace namespace deployment.metadata;
      } in
      saved "Deployment" Object.deployment added (some namespace) (name_of deployment.metadata)
        (DeploymentRepository.create j c e deployment)

  unfoldable pub update_deployment : String → String → Deployment → Action Deployment
  unfolding saved
  update_deployment namespace name deployment =
      let deployment = record deployment { metadata = placed namespace name deployment.metadata } in
      saved "Deployment" Object.deployment modified (some namespace) name
        (DeploymentRepository.create j c e deployment)

  unfoldable pub delete_deployment : String → String → Action (Unit {0})
  unfolding cascade_deployment announce
  delete_deployment namespace name = do
    deployment ← DeploymentRepository.get_deployment j c e namespace name
    cascade_deployment e j namespace deployment.spec.selector.match_labels
    DeploymentRepository.delete j c e namespace name
    announce deleted "Deployment" (some namespace) name (Object.deployment deployment)

module _ (e : Env) (j : Json) (c : Codec StatefulSetSpec) where
  unfoldable pub list_statefulsets : String → Action (List StatefulSet)
  list_statefulsets namespace = StatefulSetRepository.list j c e (some namespace)

  unfoldable pub list_all_statefulsets : Action (List StatefulSet)
  list_all_statefulsets = StatefulSetRepository.list j c e none

  unfoldable pub get_statefulset : String → String → Action StatefulSet
  get_statefulset namespace name = StatefulSetRepository.get_stateful_set j c e namespace name

  unfoldable pub create_statefulset : String → StatefulSet → Action StatefulSet
  unfolding saved
  create_statefulset namespace ss =
      let ss = record ss { metadata = in_namespace namespace ss.metadata } in
      saved "StatefulSet" Object.stateful_set added (some namespace) (name_of ss.metadata)
        (StatefulSetRepository.create j c e ss)

  unfoldable pub update_statefulset : String → String → StatefulSet → Action StatefulSet
  unfolding saved
  update_statefulset namespace name ss =
      let ss = record ss { metadata = placed namespace name ss.metadata } in
      saved "StatefulSet" Object.stateful_set modified (some namespace) name
        (StatefulSetRepository.create j c e ss)

  unfoldable pub cascade_statefulset : String → Option StatefulSet → Action (Unit {0})
  unfolding cascade_owned
  cascade_statefulset namespace none = pure tt
  cascade_statefulset namespace (some ss) =
      cascade_owned e j namespace ss.spec.selector.match_labels

  unfoldable pub delete_statefulset : String → String → Action (Unit {0})
  unfolding cascade_statefulset announce_found
  delete_statefulset namespace name = do
    pre ← try_get (StatefulSetRepository.get_stateful_set j c e namespace name)
    cascade_statefulset namespace pre
    StatefulSetRepository.delete j c e namespace name
    announce_found "StatefulSet" Object.stateful_set (some namespace) name pre

module _ (e : Env) (j : Json) (c : Codec DaemonSetSpec) where
  unfoldable pub list_daemonsets : String → Action (List DaemonSet)
  list_daemonsets namespace = DaemonSetRepository.list j c e (some namespace)

  unfoldable pub list_all_daemonsets : Action (List DaemonSet)
  list_all_daemonsets = DaemonSetRepository.list j c e none

  unfoldable pub get_daemonset : String → String → Action DaemonSet
  get_daemonset namespace name = DaemonSetRepository.get_daemon_set j c e namespace name

  unfoldable pub create_daemonset : String → DaemonSet → Action DaemonSet
  unfolding saved
  create_daemonset namespace ds =
      let ds = record ds { metadata = in_namespace namespace ds.metadata } in
      saved "DaemonSet" Object.daemon_set added (some namespace) (name_of ds.metadata)
        (DaemonSetRepository.create j c e ds)

  unfoldable pub update_daemonset : String → String → DaemonSet → Action DaemonSet
  unfolding saved
  update_daemonset namespace name ds =
      let ds = record ds { metadata = placed namespace name ds.metadata } in
      saved "DaemonSet" Object.daemon_set modified (some namespace) name
        (DaemonSetRepository.create j c e ds)

  unfoldable pub cascade_daemonset : String → Option DaemonSet → Action (Unit {0})
  unfolding cascade_owned
  cascade_daemonset namespace none = pure tt
  cascade_daemonset namespace (some ds) = cascade_owned e j namespace ds.spec.selector.match_labels

  unfoldable pub delete_daemonset : String → String → Action (Unit {0})
  unfolding cascade_daemonset announce_found
  delete_daemonset namespace name = do
    pre ← try_get (DaemonSetRepository.get_daemon_set j c e namespace name)
    cascade_daemonset namespace pre
    DaemonSetRepository.delete j c e namespace name
    announce_found "DaemonSet" Object.daemon_set (some namespace) name pre
