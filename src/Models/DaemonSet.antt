-- ===== src/Models/DaemonSet.antt =====
-- src/models/daemonset.rs: daemon sets.
use superkube.Base.{Option, ℤ}
use superkube.Models.Meta.{DateTime, LabelSelector, ObjectMeta, TypeMeta}
use superkube.Models.Pod.{PodTemplateSpec}

pub record DaemonSetSpec : Type 0 where
  pub selector : LabelSelector
  pub template : PodTemplateSpec
  pub min_ready_seconds : Option ℤ

pub record DaemonSetStatus : Type 0 where
  pub desired_number_scheduled : ℤ
  pub current_number_scheduled : ℤ
  pub number_ready : ℤ
  pub updated_number_scheduled : ℤ
  pub number_misscheduled : ℤ
  pub number_available : ℤ
  pub observed_generation : Option ℤ
  pub last_transition_time : Option DateTime

pub record DaemonSet : Type 0 where
  pub type_meta : TypeMeta
  pub metadata : ObjectMeta
  pub spec : DaemonSetSpec
  pub status : Option DaemonSetStatus
