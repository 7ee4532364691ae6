-- ===== src/Store/Rows.antt =====
-- The rows of the tables (migrations/*.sql), and the JSON columns. `serde_json` is a parameter, one
-- `Codec` for each type that is stored.
use superkube.Base.{String, Option, none, some, List, Map, ◌≡◌, ◌≢◌, [], ℤ}
use superkube.Models.Node.{NodeAddress, NodeSystemInfo}
use superkube.Models.Service.{ObjectReference}
use superkube.Models.Meta.{Uuid, DateTime, OwnerReference}
use superkube.Models.Pod.{PodSpec, ContainerStatus}

pub record Codec (A : Type 0) : Type 0 where
  -- `serde_json::to_string` of a value and of an `Option` of one; none is an error.
  pub encode : A → Option String
  pub encode_option : Option A → Option String
  -- `serde_json::from_str`.
  pub decode : String → Option A

-- What serde_json documents: `None` is `null`, `Some` is its value, what was written is read back,
-- and no struct, map or list is written as `null` or as nothing.
pub record CodecLaws {A : Type 0} (c : Codec A) : Type 0 where
  pub encode_none : c.encode_option none ≡ some "null"
  pub encode_some : (a : A) → c.encode_option (some a) ≡ c.encode a
  pub decode-encode : (a : A) (t : String) → c.encode a ≡ some t → c.decode t ≡ some a
  pub not_null : (a : A) (t : String) → c.encode a ≡ some t → (t ≢ "") × (t ≢ "null")

pub record Json : Type 0 where
  pub labels : Codec (Map String)
  pub spec : Codec PodSpec
  pub statuses : Codec (List ContainerStatus)
  pub owners : Codec (List OwnerReference)
  pub addresses : Codec (List NodeAddress)
  pub node_info : Codec NodeSystemInfo

pub record JsonLaws (j : Json) : Type 0 where
  pub labels : CodecLaws j.labels
  pub spec : CodecLaws j.spec
  pub statuses : CodecLaws j.statuses
  pub owners : CodecLaws j.owners
  pub no_statuses : j.statuses.decode "[]" ≡ some []

-- UUIDs and times stand for their texts.
pub record PodRow : Type 0 where
  pub uid : Uuid
  pub name : String
  pub namespace : String
  pub labels : String
  pub annotations : String
  pub spec : String
  pub status : String
  pub node_name : Option String
  pub pod_ip : Option String
  pub host_ip : Option String
  pub container_statuses : String
  pub owner_reference : String
  pub created_at : DateTime
  pub updated_at : DateTime

pub record NodeRow : Type 0 where
  pub uid : Uuid
  pub name : String
  pub labels : String
  pub status : String
  pub addresses : String
  pub capacity : String
  pub allocatable : String
  pub node_info : Option String
  pub created_at : DateTime
  pub updated_at : DateTime

-- The columns `involved_object_*`, `source_component` and `source_host` are grouped.
pub record EventRow : Type 0 where
  pub uid : Uuid
  pub name : String
  pub namespace : String
  pub involved_object : ObjectReference
  pub reason : Option String
  pub message : Option String
  pub source_component : Option String
  pub source_host : Option String
  pub first_timestamp : Option DateTime
  pub last_timestamp : Option DateTime
  pub event_time : Option DateTime
  pub count : ℤ
  pub event_type : String
  pub action : Option String
  pub reporting_controller : Option String
  pub reporting_instance : Option String
  pub created_at : DateTime
  pub updated_at : DateTime

pub record DeploymentRow : Type 0 where
  pub uid : Uuid
  pub name : String
  pub namespace : String
  pub labels : String
  pub annotations : String
  pub spec : String
  pub replicas : ℤ
  pub ready_replicas : ℤ
  pub available_replicas : ℤ
  pub created_at : DateTime
  pub updated_at : DateTime

pub record StatefulSetRow : Type 0 where
  pub uid : Uuid
  pub name : String
  pub namespace : String
  pub labels : String
  pub annotations : String
  pub spec : String
  pub replicas : ℤ
  pub ready_replicas : ℤ
  pub current_replicas : ℤ
  pub created_at : DateTime
  pub updated_at : DateTime

pub record DaemonSetRow : Type 0 where
  pub uid : Uuid
  pub name : String
  pub namespace : String
  pub labels : String
  pub annotations : String
  pub spec : String
  pub desired_number_scheduled : ℤ
  pub current_number_scheduled : ℤ
  pub number_ready : ℤ
  pub created_at : DateTime
  pub updated_at : DateTime

pub record ServiceRow : Type 0 where
  pub uid : Uuid
  pub name : String
  pub namespace : String
  pub labels : String
  pub spec : String
  pub service_type : String
  pub cluster_ip : Option String
  pub node_port : Option ℤ
  pub created_at : DateTime
  pub updated_at : DateTime

pub record EndpointsRow : Type 0 where
  pub uid : Uuid
  pub name : String
  pub namespace : String
  pub subsets : String
  pub created_at : DateTime
  pub updated_at : DateTime

pub record NamespaceRow : Type 0 where
  pub uid : Uuid
  pub name : String
  pub labels : String
  pub annotations : String
  pub spec : String
  pub status : String
  pub created_at : DateTime
  pub updated_at : DateTime

-- The tables of service accounts, secrets, config maps, roles and bindings. `spec` is the whole
-- object. `secret_type` is a column of secrets alone; cluster-wide rows have the empty namespace.
pub record ObjectRow : Type 0 where
  pub uid : Uuid
  pub name : String
  pub namespace : String
  pub labels : String
  pub annotations : String
  pub secret_type : Option String
  pub spec : String
  pub created_at : DateTime
  pub updated_at : DateTime
