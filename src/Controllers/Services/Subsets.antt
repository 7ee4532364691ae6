-- ===== src/Controllers/Services/Subsets.antt =====
-- What the endpoints of a service are to be, apart from the loop of `reconcile_service`: the
-- addresses of the pods that run and have an IP, with the ports of the service.
use superkube.Base.{
  ◌≡◌, refl, ap, ◌∙◌, String, false, Option, none, some, List, [], ◌∷◌, ◌++◌, ℤ, map, map_or,
  and_then, if◌then◌else◌,
}
use superkube.Models.Meta.{Uuid}
use superkube.Models.Pod.{
  Pod, PodPhase, PodStatus, pending, running, succeeded, failed, unknown, phase_eq,
}
use superkube.Models.Deployment.{IntOrString, number, text}
use superkube.Models.Service.{Service, ServicePort, EndpointAddress, EndpointPort, EndpointSubset}
use superkube.Controllers.Services.{
  address_of, push_address, addresses_of, target_of, endpoint_port, subsets_of, endpoints_for,
}

-- The addresses that a pod has in a phase and with an IP: one, or none.
abbrev pub address_at : PodPhase → Option String → Pod → List EndpointAddress
address_at running (some ip) pod =
    record {
      ip = ip;
      hostname = none;
      node_name = pod.spec.node_name;
      target_ref = some (record {
        api_version = some "v1";
        kind = some "Pod";
        name = pod.metadata.name;
        namespace = pod.metadata.namespace;
        uid = pod.metadata.uid;
        resource_version = none;
        field_path = none;
      });
    }
    ∷ []
address_at _ _ pod = []

abbrev pub served_by : Option PodStatus → Pod → List EndpointAddress
served_by none pod = []
served_by (some s) pod = address_at s.phase s.pod_ip pod

abbrev pub served : List Pod → List EndpointAddress
served [] = []
served (pod ∷ pods) = served_by pod.status pod ++ served pods

-- The port on the pods: a number that the service gives, or else its own.
abbrev pub port_on_pods : Option IntOrString → ℤ → ℤ
port_on_pods (some (number p)) port = p
port_on_pods (some (text name)) port = port
port_on_pods none port = port

abbrev pub served_ports : List ServicePort → List EndpointPort
served_ports [] = []
served_ports (sp ∷ sps) =
    record { name = sp.name; port = port_on_pods sp.target_port sp.port; protocol = sp.protocol }
    ∷ served_ports sps

-- One subset, or none where no pod serves.
abbrev pub one_subset : List EndpointAddress → List EndpointPort → List EndpointSubset
one_subset [] ports = []
one_subset (a ∷ addresses) ports =
    record { addresses = some (a ∷ addresses); not_ready_addresses = none; ports = some ports } ∷ []

abbrev pub served_subsets : Service → List Pod → List EndpointSubset
served_subsets service pods = one_subset (served pods) (served_ports service.spec.ports)

push_at :
    (p : PodPhase) (ip : Option String) (pod : Pod) (rest : List EndpointAddress)
    → (if phase_eq p running then map_or ip rest (λ ip. address_of pod ip ∷ rest) else rest)
      ≡ address_at p ip pod ++ rest
push_at running (some ip) pod rest = refl
push_at running none pod rest = refl
push_at pending ip pod rest = refl
push_at succeeded ip pod rest = refl
push_at failed ip pod rest = refl
push_at unknown ip pod rest = refl

push_by :
    (o : Option PodStatus) (pod : Pod) (rest : List EndpointAddress)
    → (if map_or o false (λ s. phase_eq s.phase running)
        then map_or (and_then o (λ s. s.pod_ip)) rest (λ ip. address_of pod ip ∷ rest)
        else rest)
      ≡ served_by o pod ++ rest
push_by none pod rest = refl
push_by (some s) pod rest = push_at s.phase s.pod_ip pod rest

push_address_lem :
    (pod : Pod) (rest : List EndpointAddress)
    → push_address pod rest ≡ served_by pod.status pod ++ rest
unfolding push_address
push_address_lem pod rest = push_by pod.status pod rest

addresses_of_lem : (pods : List Pod) → addresses_of pods ≡ served pods
unfolding addresses_of
addresses_of_lem [] = refl
addresses_of_lem (pod ∷ pods) =
    push_address_lem pod (addresses_of pods)
    ∙ ap (λ l. served_by pod.status pod ++ l) (addresses_of_lem pods)

target_of_lem : (o : Option IntOrString) (port : ℤ) → target_of o port ≡ port_on_pods o port
unfolding target_of
target_of_lem none port = refl
target_of_lem (some (number p)) port = refl
target_of_lem (some (text name)) port = refl

ports_lem : (sps : List ServicePort) → map endpoint_port sps ≡ served_ports sps
unfolding endpoint_port
ports_lem [] = refl
ports_lem (sp ∷ sps) = rw (target_of_lem sp.target_port sp.port, ports_lem sps) refl

subsets_of_lem :
    (addresses : List EndpointAddress) (ports : List EndpointPort)
    → subsets_of addresses ports ≡ one_subset addresses ports
unfolding subsets_of
subsets_of_lem [] ports = refl
subsets_of_lem (a ∷ addresses) ports = refl

-- The endpoints that the controller makes are these.
pub endpoints_for-subsets :
    (service : Service) (pods : List Pod) (uid : Uuid)
    → (endpoints_for service pods uid).subsets ≡ served_subsets service pods
unfolding endpoints_for
endpoints_for-subsets service pods uid =
    rw (addresses_of_lem pods, ports_lem service.spec.ports) (subsets_of_lem _ _)
