-- ===== src/Models/StatefulSet.antt =====
-- src/models/statefulset.rs: stateful sets.
use superkube.Base.{String, Option, Bool, ℤ, false, unwrap_or, pos, true, some}
use superkube.Models.Meta.{DateTime, LabelSelector, ObjectMeta, TypeMeta}
use superkube.Models.Pod.{PodTemplateSpec}

pub data PodManagementPolicy : Type 0 where
  ordered_ready parallel : PodManagementPolicy

pub record StatefulSetSpec : Type 0 where
  pub replicas : Option ℤ
  pub selector : LabelSelector
  pub template : PodTemplateSpec
  pub service_name : Option String
  pub pod_management_policy : Option PodManagementPolicy

pub record StatefulSetStatus : Type 0 where
  pub replicas : ℤ
  pub ready_replicas : ℤ
  pub current_replicas : ℤ
  pub observed_generation : Option ℤ
  pub current_revision : Option String
  pub last_transition_time : Option DateTime

pub record StatefulSet : Type 0 where
  pub type_meta : TypeMeta
  pub metadata : ObjectMeta
  pub spec : StatefulSetSpec
  pub status : Option StatefulSetStatus

-- `StatefulSetSpec::replicas` and `is_parallel`.
abbrev pub replicas_of : StatefulSetSpec → ℤ
replicas_of s = unwrap_or s.replicas (pos 1)

is_parallel_policy : Option PodManagementPolicy → Bool
is_parallel_policy (some parallel) = true
is_parallel_policy _ = false

unfoldable pub is_parallel : StatefulSetSpec → Bool
unfolding is_parallel_policy
is_parallel s = is_parallel_policy s.pod_management_policy
