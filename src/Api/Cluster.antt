-- ===== src/Api/Cluster.antt =====
-- src/server/api.rs: the handlers of services, nodes, endpoints, namespaces and events.
use superkube.Base.{
  ◌+◌, ◌%◌, String, Option, none, some, List, [], append, show_text, is_none, ◌&&◌, Bool, true,
  false, if◌then◌else◌,
}
use superkube.Models.Meta.{Uuid, name_of}
use superkube.Models.Service.{Service, ServiceSpec, ServiceType, Endpoints, EndpointSubset}
use superkube.Models.Node.{Node}
use superkube.Models.Namespace.{Namespace, NamespaceSpec}
use superkube.Models.Event.{Event}
use superkube.Store.{Env, Action, ◌>>=◌, pure, uid_or_new}
use superkube.Store.Rows.{Json, Codec}
use superkube.Store.Bus.{added, modified, Object}
use superkube.Cidr.{service_cidr_prefix}
use superkube.ServiceRepository
use superkube.NodeRepository
use superkube.EndpointsRepository
use superkube.NamespaceRepository
use superkube.EventRepository
use superkube.Api.{in_namespace, placed, renamed, saved, removed, parse_involved_object}

-- `!matches!(service_type, ServiceType::ExternalName)`.
abbrev pub needs_cluster_ip : ServiceType → Bool
needs_cluster_ip ServiceType.external_name = false
needs_cluster_ip _ = true

-- The cluster address that a uid gets in a service range.
unfoldable pub assigned_ip : String → Uuid → String
unfolding service_cidr_prefix show_text
assigned_ip service_cidr uid =
    append (service_cidr_prefix service_cidr) (append "." (show_text (uid % 254 + 1)))

module _ (e : Env) (j : Json) (c : Codec ServiceSpec) where
  -- A service without a cluster address gets one, unless it is an external name.
  unfoldable pub with_cluster_ip : String → Service → Action Service
  unfolding assigned_ip uid_or_new
  with_cluster_ip service_cidr service =
      let assign = (do
        uid ← uid_or_new e service.metadata.uid
        pure (record service {
          spec = record service.spec { cluster_ip = some (assigned_ip service_cidr uid) };
        })) in
      if is_none service.spec.cluster_ip && needs_cluster_ip service.spec.service_type
      then assign
      else pure service

  unfoldable pub create_service : String → String → Service → Action Service
  unfolding with_cluster_ip saved
  create_service service_cidr namespace service = do
    let service = record service { metadata = in_namespace namespace service.metadata }
    service ← with_cluster_ip service_cidr service
    saved "Service" Object.service added (some namespace) (name_of service.metadata)
        (ServiceRepository.create j c e service)

  unfoldable pub list_services : String → Action (List Service)
  list_services namespace = ServiceRepository.list j c e (some namespace)

  unfoldable pub list_all_services : Action (List Service)
  list_all_services = ServiceRepository.list j c e none

  unfoldable pub get_service : String → String → Action Service
  get_service namespace name = ServiceRepository.get_service j c e namespace name

  unfoldable pub update_service : String → String → Service → Action Service
  unfolding saved
  update_service namespace name service =
      let service = record service { metadata = placed namespace name service.metadata } in
      saved "Service" Object.service modified (some namespace) name
        (ServiceRepository.create j c e service)

  unfoldable pub delete_service : String → String → Action (Unit {0})
  unfolding removed
  delete_service namespace name =
      removed "Service" Object.service (some namespace) name
        (ServiceRepository.get_service j c e namespace name)
        (ServiceRepository.delete j c e namespace name)

module _ (e : Env) (j : Json) where
  unfoldable pub list_nodes : Action (List Node)
  list_nodes = NodeRepository.list e j

  unfoldable pub get_node : String → Action Node
  get_node name = NodeRepository.get_node e j name

  unfoldable pub create_node : Node → Action Node
  unfolding saved
  create_node node =
      saved "Node" Object.node added none (name_of node.metadata) (NodeRepository.create e j node)

  unfoldable pub update_node : String → Node → Action Node
  unfolding saved
  update_node name node =
      let node = record node { metadata = renamed name node.metadata } in
      saved "Node" Object.node modified none name (NodeRepository.create e j node)

  unfoldable pub delete_node : String → Action (Unit {0})
  unfolding removed
  delete_node name =
      removed "Node" Object.node none name (NodeRepository.get_node e j name)
        (NodeRepository.delete e j name)

module _ (e : Env) (c : Codec (List EndpointSubset)) where
  -- A listing is always empty.
  unfoldable pub list_endpoints : String → Action (List Endpoints)
  list_endpoints namespace = pure []

  unfoldable pub get_endpoints : String → String → Action Endpoints
  get_endpoints namespace name = EndpointsRepository.get_endpoints c e namespace name

module _ (e : Env) (j : Json) (c : Codec NamespaceSpec) where
  unfoldable pub list_namespaces : Action (List Namespace)
  list_namespaces = NamespaceRepository.list j c e

  unfoldable pub get_namespace : String → Action Namespace
  get_namespace name = NamespaceRepository.get_namespace j c e name

  unfoldable pub create_namespace : Namespace → Action Namespace
  unfolding saved
  create_namespace ns =
      saved "Namespace" Object.namespace added none (name_of ns.metadata)
        (NamespaceRepository.create j c e ns)

  unfoldable pub update_namespace : String → Namespace → Action Namespace
  unfolding saved
  update_namespace name ns =
      let ns = record ns { metadata = renamed name ns.metadata } in
      saved "Namespace" Object.namespace modified none name (NamespaceRepository.create j c e ns)

  unfoldable pub delete_namespace : String → Action (Unit {0})
  unfolding removed
  delete_namespace name =
      removed "Namespace" Object.namespace none name (NamespaceRepository.get_namespace j c e name)
        (NamespaceRepository.delete j c e name)

module _ (e : Env) where
  unfoldable pub list_events : String → Option String → Action (List Event)
  unfolding parse_involved_object
  list_events namespace field_selector =
      let (name, kind) = parse_involved_object field_selector in
      EventRepository.list e (some namespace) name kind

  unfoldable pub list_all_events : Option String → Action (List Event)
  unfolding parse_involved_object
  list_all_events field_selector =
      let (name, kind) = parse_involved_object field_selector in
      EventRepository.list e none name kind

  unfoldable pub get_event : String → String → Action Event
  get_event namespace name = EventRepository.get_event e namespace name

  unfoldable pub create_event : String → Event → Action Event
  create_event namespace event =
      EventRepository.create e (record event { metadata = in_namespace namespace event.metadata })

  unfoldable pub delete_event : String → String → Action (Unit {0})
  delete_event namespace name = EventRepository.delete e namespace name
