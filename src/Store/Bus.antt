-- ===== src/Store/Bus.antt =====
-- The events of src/server/bus.rs as the operations publish them. The object is JSON in the source;
-- here it is the object itself.
use superkube.Base.{String, Option}
use superkube.Models.Pod.{Pod}
use superkube.Models.Node.{Node}
use superkube.Models.Deployment.{Deployment}
use superkube.Models.StatefulSet.{StatefulSet}
use superkube.Models.DaemonSet.{DaemonSet}
use superkube.Models.Service.{Service}
use superkube.Models.Namespace.{Namespace}
use superkube.Models.Auth.{
  ServiceAccount, Secret, ConfigMap, ClusterRole, ClusterRoleBinding, Role, RoleBinding,
}

pub data WatchEventType : Type 0 where
  added modified deleted : WatchEventType

pub data Object : Type 0 where
  pod : Pod → Object
  node : Node → Object
  deployment : Deployment → Object
  stateful_set : StatefulSet → Object
  daemon_set : DaemonSet → Object
  service : Service → Object
  namespace : Namespace → Object
  service_account : ServiceAccount → Object
  secret : Secret → Object
  config_map : ConfigMap → Object
  cluster_role : ClusterRole → Object
  cluster_role_binding : ClusterRoleBinding → Object
  role : Role → Object
  role_binding : RoleBinding → Object

pub record ChangeEvent : Type 0 where
  pub kind : String
  pub namespace : Option String
  pub name : String
  pub event_type : WatchEventType
  pub object : Object
