-- ===== src/Models/Node.antt =====
-- src/models/node.rs: nodes and their status.
use superkube.Base.{String, Option, List, Map, Bool, ℤ}
use superkube.Models.Meta.{DateTime, ObjectMeta, TypeMeta}

pub data TaintEffect : Type 0 where
  no_schedule prefer_no_schedule no_execute : TaintEffect

pub record Taint : Type 0 where
  pub key : String
  pub value : Option String
  pub effect : TaintEffect
  pub time_added : Option DateTime

pub record NodeSpec : Type 0 where
  pub pod_cidr : Option String
  pub provider_id : Option String
  pub unschedulable : Bool
  pub taints : Option (List Taint)

pub data NodeConditionType : Type 0 where
  ready memory_pressure disk_pressure pid_pressure network_unavailable : NodeConditionType

pub data ConditionStatus : Type 0 where
  true false unknown : ConditionStatus

pub record NodeCondition : Type 0 where
  pub condition_type : NodeConditionType
  pub status : ConditionStatus
  pub last_heartbeat_time : Option DateTime
  pub last_transition_time : Option DateTime
  pub reason : Option String
  pub message : Option String

pub data NodeAddressType : Type 0 where
  hostname internal_ip external_ip internal_dns external_dns : NodeAddressType

pub record NodeAddress : Type 0 where
  pub address_type : NodeAddressType
  pub address : String

pub record NodeSystemInfo : Type 0 where
  pub machine_id : Option String
  pub system_uuid : Option String
  pub boot_id : Option String
  pub kernel_version : Option String
  pub os_image : Option String
  pub container_runtime_version : Option String
  pub kubelet_version : Option String
  pub kube_proxy_version : Option String
  pub operating_system : Option String
  pub architecture : Option String

pub record ContainerImage : Type 0 where
  pub names : List String
  pub size_bytes : Option ℤ

pub data NodePhase : Type 0 where
  pending running terminated : NodePhase

pub record NodeStatus : Type 0 where
  pub capacity : Option (Map String)
  pub allocatable : Option (Map String)
  pub conditions : Option (List NodeCondition)
  pub addresses : Option (List NodeAddress)
  pub node_info : Option NodeSystemInfo
  pub images : Option (List ContainerImage)
  pub phase : NodePhase

pub record Node : Type 0 where
  pub type_meta : TypeMeta
  pub metadata : ObjectMeta
  pub spec : Option NodeSpec
  pub status : Option NodeStatus
