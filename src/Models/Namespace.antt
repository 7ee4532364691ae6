-- ===== src/Models/Namespace.antt =====
-- src/models/namespace.rs: namespaces.
use superkube.Base.{String, Option, List}
use superkube.Models.Meta.{DateTime, ObjectMeta, TypeMeta}

pub record NamespaceSpec : Type 0 where
  pub finalizers : Option (List String)

pub data NamespacePhase : Type 0 where
  active terminating : NamespacePhase

pub record NamespaceCondition : Type 0 where
  pub condition_type : String
  pub status : String
  pub last_transition_time : Option DateTime
  pub reason : Option String
  pub message : Option String

pub record NamespaceStatus : Type 0 where
  pub phase : NamespacePhase
  pub conditions : Option (List NamespaceCondition)

pub record Namespace : Type 0 where
  pub type_meta : TypeMeta
  pub metadata : ObjectMeta
  pub spec : Option NamespaceSpec
  pub status : Option NamespaceStatus

-- `impl Display for NamespacePhase`.
abbrev pub phase_text : NamespacePhase → String
phase_text active = "Active"
phase_text terminating = "Terminating"
