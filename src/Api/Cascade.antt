-- ===== src/Api/Cascade.antt =====
-- src/server/api.rs: which pods go with a deployment that is deleted.
use superkube.Base.{
  ℕ, ◌+◌, ◌≡◌, refl, ap, ◌∙◌, String, Bool, false, ◌&&◌, Option, none, some, List, ◌==◌, Map,
  if◌then◌else◌, any, find, filter, map, map_or,
}
use superkube.Models.Pod.{Pod}
use superkube.Models.Deployment.{Deployment, DeploymentSpec}
use superkube.Store.{Env, World, ok, continue, ◌>>◌}
use superkube.Store.Rows.{Json, Codec, PodRow}
use superkube.Store.Table.{order_desc}
use superkube.Store.Frame.{Keeps, bind-Keeps, continue-Keeps}
use superkube.Store.Repository.Frame.{get_object-Keeps, delete_object-Keeps}
use superkube.Store.Bus.{deleted, Object}
use superkube.PodRepository.{pod_matches}
use superkube.PodRepository
use superkube.PodRepository.Conversions.{row_to_pod}
use superkube.PodRepository.Reading.{pods_of, get_pod-Keeps}
use superkube.PodRepository.Keyed.{row_at, delete-view}
use superkube.DeploymentRepository
use superkube.Controllers.Frame.{each-removes}
use superkube.Api.{announce, announce_found}
use superkube.Api.Workloads.{cascade_pod, cascade_deployment, delete_deployment}

-- Whether a pod is of the namespace and the name.
abbrev pub is_key : String → String → String → Option String → Bool
is_key namespace n k name = map_or name false (λ name. namespace == n && name == k)

-- The pods of the table that are in the namespace and that the selector matches.
pub selected : Json → String → Map String → List PodRow → List Pod
selected j namespace selector rows = filter (pod_matches (some selector)) (
    map (row_to_pod j)
      (order_desc (λ row. row.created_at) (filter (λ row. row.namespace == namespace) rows)))

module _ (e : Env) (j : Json) (calm : (m : ℕ) → e.faults m ≡ false) where
  announce_found-Keeps :
      (namespace : Option String) (name : String) (pre : Option Pod)
      → Keeps pods_of (announce_found "Pod" Object.pod namespace name pre)
  unfolding announce_found
  announce_found-Keeps namespace name none w = refl
  announce_found-Keeps namespace name (some pod) w = refl

  cascade_pod_lem :
      (namespace n k : String) (name : Option String) (w : World)
      → row_at n k (cascade_pod e j namespace name w).1
        ≡ (if is_key namespace n k name then none else row_at n k w)
  unfolding cascade_pod
  cascade_pod_lem namespace n k none w = refl
  cascade_pod_lem namespace n k (some name) w =
      let w1 = (PodRepository.get_pod e j namespace name w).1 in
      let same : row_at n k w1 ≡ row_at n k w =
        ap (find (PodRepository.has_key n k)) (get_pod-Keeps e j namespace name w) in
      ap (find (PodRepository.has_key n k)) (announce_found-Keeps (some namespace) name _ _)
      ∙ delete-view e j namespace name n k w1 (calm _)
      ∙ ap (λ r. if namespace == n && name == k then none else r) same

  list_lem :
      (namespace : String) (selector : Map String) (w : World)
      → PodRepository.list e j (some namespace) (some selector) w
        ≡ (ok (selected j namespace selector w.pods), record w { statements = w.statements + 1 })
  unfolding PodRepository.list selected
  list_lem namespace selector w = rw (calm w.statements)

  cascade_lem :
      (namespace n k : String) (selector : Map String) (w : World)
      → row_at n k (cascade_deployment e j namespace (some selector) w).1 ≡ (
          if any
            (λ (pod : Pod). is_key namespace n k pod.metadata.name)
            (selected j namespace selector w.pods)
          then none
          else row_at n k w)
  unfolding cascade_deployment
  cascade_lem namespace n k selector w = rw (list_lem namespace selector w) (
      each-removes n k (λ (pod : Pod). is_key namespace n k pod.metadata.name)
        (λ (pod : Pod). cascade_pod e j namespace pod.metadata.name)
        (λ pod w. cascade_pod_lem namespace n k pod.metadata.name w)
        (selected j namespace selector w.pods) _)

  module _ (c : Codec DeploymentSpec) where
    get-Keeps :
        (namespace name : String)
        → Keeps pods_of (DeploymentRepository.get_deployment j c e namespace name)
    unfolding DeploymentRepository.get_deployment
    get-Keeps namespace name =
        get_object-Keeps pods_of (DeploymentRepository.deployments j c) e (λ w n. refl) namespace
          name

    rest-Keeps :
        (namespace name : String) (d : Deployment)
        → Keeps pods_of (
            DeploymentRepository.delete j c e namespace name
            >> announce deleted "Deployment" (some namespace) name (Object.deployment d))
    unfolding DeploymentRepository.delete announce DeploymentRepository.deployments
    rest-Keeps namespace name d =
        bind-Keeps pods_of (DeploymentRepository.delete j c e namespace name) _
          (delete_object-Keeps pods_of (DeploymentRepository.deployments j c) e (λ w n. refl)
            (λ rows w. refl) namespace name)
          (λ _ w. refl)

    -- Deleting a deployment that has a selector, where the database takes every statement, removes
    -- the pods of its namespace that the selector matches, whoever owns them, and no others.
    pub delete_deployment_lem :
        (namespace name n k : String) (selector : Map String) (d : Deployment) (w : World)
        → (DeploymentRepository.get_deployment j c e namespace name w).0 ≡ ok d
        → d.spec.selector.match_labels ≡ some selector
        → row_at n k (delete_deployment e j c namespace name w).1 ≡ (
            if any
              (λ (pod : Pod). is_key namespace n k pod.metadata.name)
              (selected j namespace selector w.pods)
            then none
            else row_at n k w)
    unfolding delete_deployment
    delete_deployment_lem namespace name n k selector d w found has_selector =
        let w1 = (DeploymentRepository.get_deployment j c e namespace name w).1 in
        let cascade = cascade_deployment e j namespace d.spec.selector.match_labels in
        let rest =
          DeploymentRepository.delete j c e namespace name
          >> announce deleted "Deployment" (some namespace) name (Object.deployment d) in
        let read =
          ap
            (λ r.
              row_at n k
                (continue r
                  (λ d.
                    cascade_deployment e j namespace d.spec.selector.match_labels
                    >> (DeploymentRepository.delete j c e namespace name
                        >> announce deleted "Deployment" (some namespace) name
                            (Object.deployment d)))
                  w1).1)
            found in
        read
        ∙ continue-Keeps (row_at n k) (cascade w1).0 (λ _. rest)
            (λ _ w. ap (find (PodRepository.has_key n k)) (rest-Keeps namespace name d w))
            (cascade w1).1
        ∙ ap (λ s. row_at n k (cascade_deployment e j namespace s w1).1) has_selector
        ∙ cascade_lem namespace n k selector w1
        ∙ ap
            (λ rows.
              if any (λ (pod : Pod). is_key namespace n k pod.metadata.name)
                (selected j namespace selector rows)
              then none
              else find (PodRepository.has_key n k) rows)
            (get-Keeps namespace name w)
