-- ===== src/Controllers/Tests.antt =====
-- Passes of the controllers over small tables.
use superkube.Base.{
  ◌≡◌, ◌↔◌, refl, none, some, List, [], ◌∷◌, map_or, pos, ◌-ℤ◌, wrap_i32, any, take, Elem, Any,
  if◌then◌else◌,
}
use superkube.Models.Meta.{OwnerReference}
use superkube.Models.Pod.{Pod, running, failed, status_of_phase}
use superkube.Models.Service.{EndpointAddress}
use superkube.Models.Deployment.{Deployment, DeploymentSpec, replicas_of}
use superkube.Models.DaemonSet.{DaemonSet}
use superkube.DaemonSetRepository.{default_daemon_set_spec}
use superkube.DeploymentRepository.{default_deployment_spec}
use superkube.Samples.{blank, blank_json, calm, named, row_of}
use superkube.Store.{World, empty_world}
use superkube.Store.Rows.{Codec, Json, PodRow}
use superkube.Store.Table.{order_desc}
use superkube.PodRepository.{pod_matches}
use superkube.PodRepository.Keyed.{row_at}
use superkube.PodRepository.Conversions.{row_to_pod, to_row, default_spec}
use superkube.Controllers.Owned.{each, as_usize, is_owned_by, owner_ref}
use superkube.Controllers.Services.{address_of, addresses_of}
use superkube.Controllers.Services.Addresses.{Serves, addresses_of_iff}
use superkube.Controllers.Pods.{reconcile_pod, respin, respun_pod}
use superkube.Controllers.Pods.Untouched.{is_concerned, reconcile_pods-Keeps}
use superkube.Controllers.Pods.Recovery.{reconcile_pod_stranded, respin_lem}
use superkube.Controllers.Deployments.{
  reconcile_deployment, scale_down, as_filter, effective_selector,
}
use superkube.Controllers.Deployments.Scaling.{is_called, scale_down_lem}
use superkube.Controllers.Deployments.Settled.{reconcile_deployment_settled}
use superkube.Controllers.DaemonSets.{remove_stray}
use superkube.Controllers.DaemonSets.Strays.{is_stray, strays_lem}

abbrev running_pod : Pod
running_pod = record {
  type_meta = record { api_version = none; kind = none };
  metadata = named "web";
  spec = record default_spec { node_name = some "node-a" };
  status = some (record (status_of_phase running) { pod_ip = some "10.244.0.2" });
}

abbrev failed_pod : Pod
failed_pod = record running_pod { status = some (status_of_phase failed) }

abbrev webs : World
webs = record empty_world {
  pods = row_of "web" "Running" ∷ record (row_of "api" "Failed") { uid = 2 } ∷ [];
}

abbrev web_address : EndpointAddress
web_address = address_of running_pod "10.244.0.2"

addresses_of_iff_example :
    Elem web_address (addresses_of (failed_pod ∷ running_pod ∷ []))
    ↔ Any (Serves web_address) (failed_pod ∷ running_pod ∷ [])
addresses_of_iff_example = addresses_of_iff web_address (failed_pod ∷ running_pod ∷ [])

-- The listed pods are not those of the key.
reconcile_pods-Keeps_example :
    row_at "default" "api" (each (running_pod ∷ []) (reconcile_pod calm blank_json []) webs).1
    ≡ row_at "default" "api" webs
unfolding is_concerned
reconcile_pods-Keeps_example =
    reconcile_pods-Keeps calm blank_json "default" "api" [] (running_pod ∷ []) webs refl

reconcile_pod_stranded_example :
    row_at "default" "web" (reconcile_pod calm blank_json [] running_pod webs).1
    ≡ map_or (row_at "default" "web" webs) none (λ row. some (record row {
      status = "Failed";
      pod_ip = none;
      host_ip = none;
      container_statuses = "{}";
      updated_at = 0;
    }))
reconcile_pod_stranded_example =
    reconcile_pod_stranded calm blank_json [] running_pod
      (record (status_of_phase running) { pod_ip = some "10.244.0.2" }) "node-a" "{}" webs refl
      (λ m. m) refl refl refl refl

abbrev pending_row : PodRow
pending_row = record (row_of "web" "Pending") {
  uid = 100;
  labels = "{}";
  annotations = "{}";
  node_name = none;
  pod_ip = none;
  container_statuses = "{}";
  owner_reference = "{}";
  created_at = 1;
  updated_at = 1;
}

respin_example :
    (row_at "default" "web" (respin calm blank_json failed_pod webs).1 ≡ some pending_row)
    × (pending_row.status ≡ "Pending")
    × (pending_row.node_name ≡ none)
unfolding respun_pod to_row
respin_example = respin_lem calm blank_json failed_pod pending_row webs refl refl refl refl

abbrev one_too_many : Deployment
one_too_many = record {
  type_meta = record { api_version = none; kind = none };
  metadata = named "shop";
  spec = default_deployment_spec;
  status = none;
}

scale_down_example :
    row_at "default" "web"
      (scale_down calm blank_json one_too_many (running_pod ∷ failed_pod ∷ []) (pos 2) webs).1
    ≡ (if any
          (λ pod. is_called "default" "default" "web" pod.metadata.name)
          (take
            (as_usize (wrap_i32 (pos 2 -ℤ replicas_of one_too_many.spec)))
            (running_pod ∷ failed_pod ∷ []))
        then none
        else row_at "default" "web" webs)
scale_down_example =
    scale_down_lem calm blank_json (λ m. refl) one_too_many (running_pod ∷ failed_pod ∷ []) (pos 2)
      "default" "web" webs

abbrev agent : DaemonSet
agent = record {
  type_meta = record { api_version = none; kind = none };
  metadata = named "agent";
  spec = default_daemon_set_spec;
  status = none;
}

strays_example :
    row_at "default" "web"
      (each
        (running_pod ∷ [])
        (λ pod. remove_stray calm blank_json agent [] pod pod.spec.node_name pod.metadata.name)
        webs).1
    ≡ (if any
          (λ pod. is_stray [] "default" "default" "web" pod.spec.node_name pod.metadata.name)
          (running_pod ∷ [])
        then none
        else row_at "default" "web" webs)
strays_example =
    strays_lem calm blank_json (λ m. refl) agent [] (running_pod ∷ []) "default" "web" webs

abbrev deployment_codec : Codec DeploymentSpec
deployment_codec = blank

abbrev owners : Codec (List OwnerReference)
owners = record {
  encode = λ o. some "[shop]";
  encode_option = λ o. some "[shop]";
  decode = λ t. some (owner_ref "Deployment" "shop" 7 ∷ []);
}

-- Two failed pods of the deployment, which asks for two.
abbrev owning_json : Json
owning_json = record blank_json { owners = owners }

abbrev all_failed : World
all_failed = record empty_world {
  pods =
      record (row_of "a" "Failed") { owner_reference = "[shop]" }
      ∷ record (row_of "b" "Failed") { uid = 2; owner_reference = "[shop]" }
      ∷ [];
}

abbrev shop : Deployment
shop = record one_too_many { spec = record default_deployment_spec { replicas = some (pos 2) } }

reconcile_deployment_settled_example :
    (reconcile_deployment calm owning_json deployment_codec shop all_failed).1.pods
    ≡ all_failed.pods
unfolding order_desc pod_matches as_filter effective_selector is_owned_by row_to_pod
reconcile_deployment_settled_example =
    reconcile_deployment_settled calm owning_json deployment_codec shop all_failed refl
