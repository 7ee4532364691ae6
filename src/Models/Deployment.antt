-- ===== src/Models/Deployment.antt =====
-- src/models/deployment.rs: deployments.
use superkube.Base.{String, Option, List, Bool, ℤ, unwrap_or, pos}
use superkube.Models.Meta.{DateTime, LabelSelector, ObjectMeta, TypeMeta}
use superkube.Models.Pod.{PodTemplateSpec}

pub data DeploymentStrategyType : Type 0 where
  rolling_update recreate : DeploymentStrategyType

pub data IntOrString : Type 0 where
  number : ℤ → IntOrString
  text : String → IntOrString

pub record RollingUpdateDeployment : Type 0 where
  pub max_unavailable : Option IntOrString
  pub max_surge : Option IntOrString

pub record DeploymentStrategy : Type 0 where
  pub strategy_type : DeploymentStrategyType
  pub rolling_update : Option RollingUpdateDeployment

pub record DeploymentSpec : Type 0 where
  pub replicas : Option ℤ
  pub selector : LabelSelector
  pub template : PodTemplateSpec
  pub strategy : Option DeploymentStrategy
  pub min_ready_seconds : Option ℤ
  pub revision_history_limit : Option ℤ
  pub paused : Bool

pub record DeploymentCondition : Type 0 where
  pub condition_type : String
  pub status : String
  pub last_update_time : Option DateTime
  pub last_transition_time : Option DateTime
  pub reason : Option String
  pub message : Option String

pub record DeploymentStatus : Type 0 where
  pub replicas : ℤ
  pub updated_replicas : ℤ
  pub ready_replicas : ℤ
  pub available_replicas : ℤ
  pub unavailable_replicas : ℤ
  pub observed_generation : Option ℤ
  pub conditions : Option (List DeploymentCondition)

pub record Deployment : Type 0 where
  pub type_meta : TypeMeta
  pub metadata : ObjectMeta
  pub spec : DeploymentSpec
  pub status : Option DeploymentStatus

-- `DeploymentSpec::replicas`.
abbrev pub replicas_of : DeploymentSpec → ℤ
replicas_of s = unwrap_or s.replicas (pos 1)
