-- ===== src/Models/Event.antt =====
-- src/models/event.rs: events.
use superkube.Base.{String, Option, ℤ}
use superkube.Models.Meta.{DateTime, ObjectMeta, TypeMeta}
use superkube.Models.Service.{ObjectReference}

pub record EventSource : Type 0 where
  pub component : Option String
  pub host : Option String

pub data EventType : Type 0 where
  normal warning : EventType

pub record Event : Type 0 where
  pub type_meta : TypeMeta
  pub metadata : ObjectMeta
  pub involved_object : ObjectReference
  pub reason : Option String
  pub message : Option String
  pub source : Option EventSource
  pub first_timestamp : Option DateTime
  pub last_timestamp : Option DateTime
  pub count : Option ℤ
  pub event_type : Option EventType
  pub event_time : Option DateTime
  pub action : Option String
  pub reporting_controller : Option String
  pub reporting_instance : Option String
