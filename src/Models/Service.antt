-- ===== src/Models/Service.antt =====
-- src/models/service.rs: services, endpoints and object references.
use superkube.Base.{String, Option, List, Map, ℤ}
use superkube.Models.Meta.{ObjectMeta, TypeMeta, Uuid}
use superkube.Models.Pod.{Protocol}
use superkube.Models.Deployment.{IntOrString}

pub record ServicePort : Type 0 where
  pub name : Option String
  pub protocol : Protocol
  pub port : ℤ
  pub target_port : Option IntOrString
  pub node_port : Option ℤ

pub data ServiceType : Type 0 where
  cluster_ip node_port load_balancer external_name : ServiceType

pub data SessionAffinity : Type 0 where
  none client_ip : SessionAffinity

pub record ServiceSpec : Type 0 where
  pub selector : Option (Map String)
  pub ports : List ServicePort
  pub service_type : ServiceType
  pub cluster_ip : Option String
  pub external_i_ps : Option (List String)
  pub session_affinity : Option SessionAffinity

pub record LoadBalancerIngress : Type 0 where
  pub ip : Option String
  pub hostname : Option String

pub record LoadBalancerStatus : Type 0 where
  pub ingress : Option (List LoadBalancerIngress)

pub record ServiceStatus : Type 0 where
  pub load_balancer : Option LoadBalancerStatus

pub record Service : Type 0 where
  pub type_meta : TypeMeta
  pub metadata : ObjectMeta
  pub spec : ServiceSpec
  pub status : Option ServiceStatus

pub record ObjectReference : Type 0 where
  pub api_version : Option String
  pub kind : Option String
  pub name : Option String
  pub namespace : Option String
  pub uid : Option Uuid
  pub resource_version : Option String
  pub field_path : Option String

pub record EndpointAddress : Type 0 where
  pub ip : String
  pub hostname : Option String
  pub node_name : Option String
  pub target_ref : Option ObjectReference

pub record EndpointPort : Type 0 where
  pub name : Option String
  pub port : ℤ
  pub protocol : Protocol

pub record EndpointSubset : Type 0 where
  pub addresses : Option (List EndpointAddress)
  pub not_ready_addresses : Option (List EndpointAddress)
  pub ports : Option (List EndpointPort)

pub record Endpoints : Type 0 where
  pub type_meta : TypeMeta
  pub metadata : ObjectMeta
  pub subsets : List EndpointSubset
