-- ===== src/Api/Tests.antt =====
-- A table with two pods, and a deployment whose selector matches both.
use superkube.Base.{pos, ◌≡◌, ◌++◌, refl, String, none, some, [], ◌∷◌, Map, any, all, if◌then◌else◌}
use superkube.Models.Meta.{name_of, namespace_of}
use superkube.Models.Pod.{Pod, Container, phase_text}
use superkube.Models.Deployment.{Deployment, DeploymentSpec}
use superkube.DeploymentRepository
use superkube.PodRepository
use superkube.PodRepository.Conversions.{row_to_pod}
use superkube.Scheduler.Labels.{has_labels}
use superkube.PodRepository.Keyed.{row_at}
use superkube.Samples.{blank_json, blank, calm, row_of, container}
use superkube.Store.{World, empty_world, Action}
use superkube.Store.Rows.{Codec, Json, DeploymentRow, PodRow}
use superkube.Agent.{Request}
use superkube.Agent.Statuses.{has_failed}
use superkube.Agent.Pods.{reconcile_pod}
use superkube.Agent.Settled.{phase_by, address_of}
use superkube.Agent.Samples.{web, info, outside, agent}
use superkube.Runtime.{find_container}
use superkube.Api.Cascade.{selected, is_key, delete_deployment_lem}
use superkube.Api.Delivery.{serve, reconcile_pod_served}
use superkube.Api.Workloads.{delete_deployment}

abbrev labelled : PodRow → PodRow
labelled row = record row { labels = "{}" }

abbrev world : World
world = record empty_world {
  pods = labelled (row_of "web" "Pending") ∷ labelled (row_of "db" "Pending") ∷ [];
}

reconcile_pod_served_example :
    (request : Request) × (row' : PodRow) × ((reconcile_pod outside web agent).1.sent
      ≡ agent.sent ++ request ∷ [])
    × (row_at
          (namespace_of web.metadata)
          (name_of web.metadata)
          (serve calm blank_json request world).1
        ≡ some row')
    × (row'.status
        ≡ phase_text (
            phase_by
              (any (λ (c : Container). has_failed info) (container "app" ∷ []))
              (all (λ (c : Container). info.running) (container "app" ∷ []))))
    × (row'.pod_ip ≡ some (address_of outside tt web 7 (λ c. info) (container "app" ∷ []) agent))
    × (row'.container_statuses ≡ "{}")
unfolding find_container PodRepository.has_key
reconcile_pod_served_example =
    reconcile_pod_served calm blank_json outside tt web 7 (λ c. info) (λ n. refl) (container "app")
      [] agent "{}" (labelled (row_of "web" "Pending")) world refl refl (refl, tt) refl refl refl
      refl

-- Labels are read as none, and every specification selects all pods.
abbrev json : Json
json = record blank_json { labels = record blank { decode = λ t. some [] } }

abbrev all_pods : Map String
all_pods = []

abbrev selecting : DeploymentSpec
selecting = record DeploymentRepository.default_deployment_spec {
  selector = record { match_labels = some all_pods; match_expressions = none };
}

abbrev specs : Codec DeploymentSpec
specs = record blank { decode = λ t. some selecting }

abbrev row : DeploymentRow
row = record {
  uid = 3;
  name = "web";
  namespace = "default";
  labels = "{}";
  annotations = "{}";
  spec = "{}";
  replicas = pos 4;
  ready_replicas = pos 2;
  available_replicas = pos 2;
  created_at = 1;
  updated_at = 2;
}

abbrev deployed : World
deployed = record world { deployments = row ∷ [] }

abbrev stored : Deployment
stored = DeploymentRepository.row_to_deployment json specs row

abbrev read : Action Deployment
read = DeploymentRepository.get_deployment json specs calm "default" "web"

abbrev delete : Action (Unit {0})
delete = DeploymentRepository.delete json specs calm "default" "web"

delete_deployment_example :
    row_at "default" "db" (delete_deployment calm json specs "default" "web" deployed).1 ≡ (
      if any
        (λ (pod : Pod). is_key "default" "default" "db" pod.metadata.name)
        (selected json "default" all_pods deployed.pods)
      then none
      else row_at "default" "db" deployed)
unfolding DeploymentRepository.get_deployment DeploymentRepository.deployments
delete_deployment_example =
    delete_deployment_lem calm json (λ m. refl) specs "default" "web" "default" "db" all_pods stored
      deployed refl refl

-- A pod of no owner goes with the deployment.
db_is_gone :
    row_at "default" "db" (delete_deployment calm json specs "default" "web" deployed).1 ≡ none
unfolding delete_deployment DeploymentRepository.get_deployment DeploymentRepository.deployments
    PodRepository.list row_to_pod DeploymentRepository.delete PodRepository.has_key has_labels
    PodRepository.get_pod PodRepository.delete
db_is_gone = refl
