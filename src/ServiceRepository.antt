-- ===== src/ServiceRepository.antt =====
-- src/db/repository.rs, `ServiceRepository`: the statements of Store.Repository on its table.
mod Ports
mod Tests
use superkube.Base.{
  ℕ, ◌+◌, ◌%◌, Bool, true, false, String, Option, none, some, List, [], ◌∷◌, ℤ, pos, and_then,
  if◌then◌else◌,
}
use superkube.Models.Meta.{Uuid, DateTime, default_object_meta, name_of, namespace_of}
use superkube.Models.Service.{
  Service, ServiceSpec, ServicePort, ServiceType, cluster_ip, node_port, load_balancer,
  external_name,
}
use superkube.PodRepository.Conversions.{json_from_opt, json_from}
use superkube.Store.{Env, World, Action}
use superkube.Store.Rows.{Json, Codec, ServiceRow}
use superkube.Store.Repository.{Layout, get_object, create_object, list_objects, delete_object}

abbrev pub default_service_spec : ServiceSpec
default_service_spec = record {
  selector = none;
  ports = [];
  service_type = ServiceType.cluster_ip;
  cluster_ip = none;
  external_i_ps = none;
  session_affinity = none;
}

abbrev pub type_text : ServiceType → String
type_text ServiceType.cluster_ip = "ClusterIP"
type_text ServiceType.node_port = "NodePort"
type_text ServiceType.load_balancer = "LoadBalancer"
type_text ServiceType.external_name = "ExternalName"

-- The node port of the first port, or one from the uid.
unfoldable pub first_node_port : List ServicePort → Option ℤ
first_node_port [] = none
first_node_port (p ∷ ports) = p.node_port

unfoldable pub or_else : Option ℤ → ℤ → Option ℤ
or_else none d = some d
or_else (some p) d = some p

unfoldable pub assigned_port : ServiceType → List ServicePort → Uuid → Option ℤ
unfolding first_node_port or_else
assigned_port ServiceType.node_port ports uid =
    or_else (first_node_port ports) (pos (30000 + uid % 2768))
assigned_port _ ports uid = none

-- `if let Some(first_port) = spec.ports.first_mut()`.
unfoldable pub with_node_port : Option ℤ → List ServicePort → List ServicePort
with_node_port none ports = ports
with_node_port (some np) [] = []
with_node_port (some np) (p ∷ ports) = record p { node_port = some np } ∷ ports

module _ (j : Json) (c : Codec ServiceSpec) where
  unfoldable pub to_row : Service → Uuid → DateTime → Option ServiceRow
  unfolding assigned_port
  to_row service uid now = and_then (j.labels.encode_option service.metadata.labels) (λ labels.
      and_then (c.encode service.spec) (λ spec. some (record {
        uid = uid;
        name = name_of service.metadata;
        namespace = namespace_of service.metadata;
        labels = labels;
        spec = spec;
        service_type = type_text service.spec.service_type;
        cluster_ip = service.spec.cluster_ip;
        node_port = assigned_port service.spec.service_type service.spec.ports uid;
        created_at = now;
        updated_at = now;
      })))

  unfoldable pub row_to_service : ServiceRow → Service
  unfolding json_from_opt json_from with_node_port
  row_to_service row =
      let spec = json_from c default_service_spec row.spec in
      record {
        type_meta = record { api_version = some "v1"; kind = some "Service" };
        metadata = record default_object_meta {
          name = some row.name;
          namespace = some row.namespace;
          uid = some row.uid;
          labels = json_from_opt j.labels row.labels;
          creation_timestamp = some row.created_at;
        };
        spec = record spec {
          cluster_ip = row.cluster_ip;
          ports = with_node_port row.node_port spec.ports;
        };
        status = none;
      }

  unfoldable pub services : Layout ServiceRow Service
  unfolding row_to_service
  services = record {
    rows = λ w. w.services;
    put = λ rows w. record w { services = rows };
    namespace = λ row. row.namespace;
    name = λ row. row.name;
    uid = λ row. row.uid;
    created_at = λ row. row.created_at;
    overwrite = λ new old. record new { uid = old.uid; created_at = old.created_at };
    read = row_to_service;
    got = "services";
    deleted = "services";
  }

  module _ (e : Env) where
    unfoldable pub create : Service → Action Service
    unfolding create_object
    create s =
        create_object services e s.metadata.uid (namespace_of s.metadata) (name_of s.metadata)
          (to_row s)

    unfoldable pub get_service : String → String → Action Service
    unfolding get_object
    get_service = get_object services e

    unfoldable pub list : Option String → Action (List Service)
    unfolding list_objects
    list = list_objects services e

    unfoldable pub delete : String → String → Action (Unit {0})
    unfolding delete_object
    delete = delete_object services e
