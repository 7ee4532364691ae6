-- ===== src/Models/Pod.antt =====
-- src/models/pod.rs: pods and their templates.
use superkube.Base.{String, Option, List, Map, Bool, ℤ, none, true, false}
use superkube.Models.Meta.{DateTime, ObjectMeta, TypeMeta}
use superkube.Models.Affinity.{Affinity}

pub data ImagePullPolicy : Type 0 where
  always if_not_present never : ImagePullPolicy

pub record EnvVar : Type 0 where
  pub name : String
  pub value : Option String

pub data Protocol : Type 0 where
  tcp udp : Protocol

pub record ContainerPort : Type 0 where
  pub name : Option String
  pub container_port : ℤ
  pub host_port : Option ℤ
  pub protocol : Option Protocol

pub record ResourceRequirements : Type 0 where
  pub limits : Option (Map String)
  pub requests : Option (Map String)

pub record Container : Type 0 where
  pub name : String
  pub image : String
  pub image_pull_policy : Option ImagePullPolicy
  pub command : Option (List String)
  pub args : Option (List String)
  pub env : Option (List EnvVar)
  pub ports : Option (List ContainerPort)
  pub resources : Option ResourceRequirements
  pub working_dir : Option String

pub data RestartPolicy : Type 0 where
  always on_failure never : RestartPolicy

pub record PodSpec : Type 0 where
  pub containers : List Container
  pub restart_policy : Option RestartPolicy
  pub node_selector : Option (Map String)
  pub node_name : Option String
  pub service_account_name : Option String
  pub host_network : Bool
  pub affinity : Option Affinity
  pub runtime_class_name : Option String

pub data PodPhase : Type 0 where
  pending running succeeded failed unknown : PodPhase

pub record PodCondition : Type 0 where
  pub condition_type : String
  pub status : String
  pub last_probe_time : Option DateTime
  pub last_transition_time : Option DateTime
  pub reason : Option String
  pub message : Option String

pub record PodIp : Type 0 where
  pub ip : String

pub record ContainerStateWaiting : Type 0 where
  pub reason : Option String
  pub message : Option String

pub record ContainerStateRunning : Type 0 where
  pub started_at : Option DateTime

pub record ContainerStateTerminated : Type 0 where
  pub exit_code : ℤ
  pub signal : Option ℤ
  pub reason : Option String
  pub message : Option String
  pub started_at : Option DateTime
  pub finished_at : Option DateTime
  pub container_id : Option String

pub record ContainerState : Type 0 where
  pub waiting : Option ContainerStateWaiting
  pub running : Option ContainerStateRunning
  pub terminated : Option ContainerStateTerminated

pub record ContainerStatus : Type 0 where
  pub name : String
  pub ready : Bool
  pub restart_count : ℤ
  pub image : String
  pub image_id : String
  pub container_id : Option String
  pub state : Option ContainerState
  pub last_state : Option ContainerState
  pub started : Option Bool

pub record PodStatus : Type 0 where
  pub phase : PodPhase
  pub conditions : Option (List PodCondition)
  pub pod_ip : Option String
  pub pod_i_ps : Option (List PodIp)
  pub host_ip : Option String
  pub start_time : Option DateTime
  pub container_statuses : Option (List ContainerStatus)
  pub message : Option String
  pub reason : Option String

pub record Pod : Type 0 where
  pub type_meta : TypeMeta
  pub metadata : ObjectMeta
  pub spec : PodSpec
  pub status : Option PodStatus

pub record PodTemplateSpec : Type 0 where
  pub metadata : ObjectMeta
  pub spec : PodSpec

-- `..Default::default()` in a `PodStatus` literal that gives the phase.
abbrev pub status_of_phase : PodPhase → PodStatus
status_of_phase p = record {
  phase = p;
  conditions = none;
  pod_ip = none;
  pod_i_ps = none;
  host_ip = none;
  start_time = none;
  container_statuses = none;
  message = none;
  reason = none;
}

-- `impl Display for PodPhase`.
abbrev pub phase_text : PodPhase → String
phase_text pending = "Pending"
phase_text running = "Running"
phase_text succeeded = "Succeeded"
phase_text failed = "Failed"
phase_text unknown = "Unknown"

-- The derived `PartialEq` of `PodPhase`.
abbrev pub phase_eq : PodPhase → PodPhase → Bool
phase_eq pending pending = true
phase_eq running running = true
phase_eq succeeded succeeded = true
phase_eq failed failed = true
phase_eq unknown unknown = true
phase_eq _ _ = false
