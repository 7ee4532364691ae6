-- ===== src/Controllers/Services.antt =====
-- src/server/controller.rs: `reconcile_services` and `reconcile_service`.
pub mod Addresses
pub mod Subsets
pub mod Outcome
mod Tests
use superkube.Base.{
  String, Bool, true, false, Option, none, some, List, [], ◌∷◌, Map, if◌then◌else◌, map, map_or,
  and_then, ℤ,
}
use superkube.Models.Meta.{Uuid, default_object_meta, name_of, namespace_of}
use superkube.Models.Pod.{Pod}
use superkube.Models.Deployment.{IntOrString, number, text}
use superkube.Models.Service.{
  Service, ServiceSpec, ServicePort, EndpointAddress, EndpointPort, EndpointSubset, Endpoints,
}
use superkube.Store.{Env, World, Action, Result, ok, err, ◌>>=◌, ◌>>◌, pure, ignore, new_v4}
use superkube.Store.Rows.{Json, Codec}
use superkube.PodRepository.{list}
use superkube.ServiceRepository
use superkube.EndpointsRepository.{create_or_update}
use superkube.Controllers.Owned.{each, is_running, pod_ref}

abbrev pub address_of : Pod → String → EndpointAddress
address_of pod ip = record {
  ip = ip;
  hostname = none;
  node_name = pod.spec.node_name;
  target_ref = some (pod_ref pod);
}

-- The pod's IP, where its status has one.
abbrev pub pod_ip_of : Pod → Option String
pod_ip_of pod = and_then pod.status (λ s. s.pod_ip)

-- One round of the loop that builds `addresses`.
unfoldable pub push_address : Pod → List EndpointAddress → List EndpointAddress
push_address pod rest =
    if is_running pod then map_or (pod_ip_of pod) rest (λ ip. address_of pod ip ∷ rest) else rest

unfoldable pub addresses_of : List Pod → List EndpointAddress
unfolding push_address
addresses_of [] = []
addresses_of (pod ∷ pods) = push_address pod (addresses_of pods)

-- A target port that is a name is not resolved.
unfoldable pub target_of : Option IntOrString → ℤ → ℤ
target_of none port = port
target_of (some (number p)) port = p
target_of (some (text name)) port = port

unfoldable pub endpoint_port : ServicePort → EndpointPort
unfolding target_of
endpoint_port sp = record {
  name = sp.name;
  port = target_of sp.target_port sp.port;
  protocol = sp.protocol;
}

unfoldable pub subsets_of : List EndpointAddress → List EndpointPort → List EndpointSubset
subsets_of [] ports = []
subsets_of (a ∷ addresses) ports =
    record { addresses = some (a ∷ addresses); not_ready_addresses = none; ports = some ports } ∷ []

unfoldable pub endpoints_for : Service → List Pod → Uuid → Endpoints
unfolding subsets_of addresses_of endpoint_port
endpoints_for service pods uid = record {
  type_meta = record { api_version = some "v1"; kind = some "Endpoints" };
  metadata = record default_object_meta {
    name = some (name_of service.metadata);
    namespace = some (namespace_of service.metadata);
    uid = some uid;
  };
  subsets = subsets_of (addresses_of pods) (map endpoint_port service.spec.ports);
}

module _ (e : Env) (j : Json) (c : Codec (List EndpointSubset)) where
  reconcile_selected : Service → Option (Map String) → Action (Unit {0})
  unfolding list new_v4 create_or_update endpoints_for
  reconcile_selected service none = pure tt
  reconcile_selected service (some []) = pure tt
  reconcile_selected service (some (l ∷ labels)) = do
    pods ← list e j (some (namespace_of service.metadata)) (some (l ∷ labels))
    uid ← new_v4 e
    _ ← create_or_update c e (endpoints_for service pods uid)
    pure tt

  unfoldable pub reconcile_service : Service → Action (Unit {0})
  unfolding reconcile_selected
  reconcile_service service = reconcile_selected service service.spec.selector

  unfoldable pub reconcile_services : Codec ServiceSpec → Action (Unit {0})
  unfolding ServiceRepository.list each reconcile_service
  reconcile_services services = do
    found ← ServiceRepository.list j services e none
    each found reconcile_service
