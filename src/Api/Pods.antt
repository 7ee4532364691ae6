-- ===== src/Api/Pods.antt =====
-- src/server/api.rs: the handlers of pods.
use superkube.Base.{String, Option, none, some, List}
use superkube.Models.Meta.{name_of}
use superkube.Models.Pod.{Pod, PodStatus}
use superkube.Store.{Env, Action, ◌>>◌, pure}
use superkube.Store.Rows.{Json}
use superkube.Store.Bus.{added, modified, Object}
use superkube.PodRepository
use superkube.Api.{in_namespace, placed, saved, removed, parse_label_selector}

module _ (e : Env) (j : Json) where
  unfoldable pub list_pods : String → Option String → Action (List Pod)
  unfolding parse_label_selector
  list_pods namespace label_selector =
      PodRepository.list e j (some namespace) (parse_label_selector label_selector)

  unfoldable pub list_all_pods : Option String → Action (List Pod)
  unfolding parse_label_selector
  list_all_pods label_selector = PodRepository.list e j none (parse_label_selector label_selector)

  unfoldable pub get_pod : String → String → Action Pod
  get_pod namespace name = PodRepository.get_pod e j namespace name

  unfoldable pub create_pod : String → Pod → Action Pod
  unfolding saved
  create_pod namespace pod =
      let pod = record pod { metadata = in_namespace namespace pod.metadata } in
      saved "Pod" Object.pod added (some namespace) (name_of pod.metadata)
        (PodRepository.create e j pod)

  unfoldable pub update_pod : String → String → Pod → Action Pod
  unfolding saved
  update_pod namespace name pod =
      let pod = record pod { metadata = placed namespace name pod.metadata } in
      saved "Pod" Object.pod modified (some namespace) name (PodRepository.create e j pod)

  unfoldable pub delete_pod : String → String → Action (Unit {0})
  unfolding removed
  delete_pod namespace name =
      removed "Pod" Object.pod (some namespace) name (PodRepository.get_pod e j namespace name)
        (PodRepository.delete e j namespace name)

  unfoldable pub get_pod_status : String → String → Action Pod
  get_pod_status namespace name = PodRepository.get_pod e j namespace name

  unfoldable pub write_status : String → String → Option PodStatus → Action (Unit {0})
  write_status namespace name none = pure tt
  write_status namespace name (some status) = PodRepository.update_status e j namespace name status

  unfoldable pub update_pod_status : String → String → Pod → Action Pod
  unfolding write_status saved
  update_pod_status namespace name pod = do
    write_status namespace name pod.status
    saved "Pod" Object.pod modified (some namespace) name (PodRepository.get_pod e j namespace name)
