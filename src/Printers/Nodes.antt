-- ===== src/Printers/Nodes.antt =====
-- src/server/printers.rs: the columns and the rows of nodes and of events. `to_lowercase` of the
-- standard library is a parameter; the roles come in the order of the labels.
use superkube.Base.{
  String, Bool, true, false, Option, none, some, List, [], ◌∷◌, Map, if◌then◌else◌, find, map_or,
  and_then, unwrap_or, strip_prefix,
}
use superkube.Models.Meta.{DateTime, name_of}
use superkube.Models.Node.{Node, NodeCondition, NodeAddress, NodeAddressType, NodeSystemInfo}
use superkube.Models.Event.{Event, EventType, normal, warning}
use superkube.Scheduler.Labels.{is_ready_type, is_status_true}
use superkube.Printers.Selectors.{join}
use superkube.Printers.{Cell, text, Column, column, wide, age_str, fraction}

abbrev pub node_columns : List Column
node_columns =
    column "Name" "string"
    ∷ column "Status" "string"
    ∷ column "Roles" "string"
    ∷ column "Age" "string"
    ∷ column "Version" "string"
    ∷ wide "Internal-IP" "string"
    ∷ wide "External-IP" "string"
    ∷ wide "OS-Image" "string"
    ∷ wide "Kernel-Version" "string"
    ∷ wide "Container-Runtime" "string"
    ∷ []

abbrev pub event_columns : List Column
event_columns =
    column "Last Seen" "string"
    ∷ column "Type" "string"
    ∷ column "Reason" "string"
    ∷ column "Object" "string"
    ∷ column "Message" "string"
    ∷ []

-- The roles that the keys of the labels name.
unfoldable pub roles_in : Map String → List String
roles_in [] = []
roles_in ((k, v) ∷ labels) =
    map_or (strip_prefix "node-role.kubernetes.io/" k) (roles_in labels) (λ r. r ∷ roles_in labels)

roles_text : List String → String
unfolding join
roles_text [] = "<none>"
roles_text (r ∷ rs) = join (r ∷ rs)

is_ready : Node → Bool
unfolding is_ready_type is_status_true
is_ready n =
    let conditions = and_then n.status (λ s. s.conditions) in
    let found =
      and_then conditions (find (λ (c : NodeCondition). is_ready_type c.condition_type)) in
    map_or found false (λ c. is_status_true c.status)

is_internal : NodeAddressType → Bool
is_internal NodeAddressType.internal_ip = true
is_internal _ = false

is_external : NodeAddressType → Bool
is_external NodeAddressType.external_ip = true
is_external _ = false

-- The first address of a type.
address_with : (NodeAddressType → Bool) → Option (List NodeAddress) → String
address_with is_type addresses =
    let found = and_then addresses (find (λ (a : NodeAddress). is_type a.address_type)) in
    map_or found "<none>" (λ a. a.address)

unfoldable pub node_row : DateTime → Node → List Cell
unfolding is_ready roles_in roles_text is_internal is_external address_with age_str
node_row now n =
    let info = and_then n.status (λ s. s.node_info) in
    let addresses = and_then n.status (λ s. s.addresses) in
    text (name_of n.metadata)
    ∷ text (if is_ready n then "Ready" else "NotReady")
    ∷ text (map_or n.metadata.labels "<none>" (λ l. roles_text (roles_in l)))
    ∷ text (age_str now n.metadata.creation_timestamp)
    ∷ text (unwrap_or (and_then info (λ (i : NodeSystemInfo). i.kubelet_version)) "<unknown>")
    ∷ text (address_with is_internal addresses)
    ∷ text (address_with is_external addresses)
    ∷ text (unwrap_or (and_then info (λ (i : NodeSystemInfo). i.os_image)) "<unknown>")
    ∷ text (unwrap_or (and_then info (λ (i : NodeSystemInfo). i.kernel_version)) "<unknown>")
    ∷ text (
        unwrap_or (and_then info (λ (i : NodeSystemInfo). i.container_runtime_version)) "<unknown>")
    ∷ []

-- `Option::or`.
or_time : Option DateTime → Option DateTime → Option DateTime
or_time none later = later
or_time (some t) later = some t

event_type_text : EventType → String
event_type_text normal = "Normal"
event_type_text warning = "Warning"

module _ (to_lowercase : String → String) where
  unfoldable pub event_row : DateTime → Event → List Cell
  unfolding or_time event_type_text age_str
  event_row now e =
      let last = or_time (or_time e.last_timestamp e.first_timestamp) e.event_time in
      text (age_str now last)
      ∷ text (map_or e.event_type "Normal" event_type_text)
      ∷ text (unwrap_or e.reason "")
      ∷ text (
          fraction (to_lowercase (unwrap_or e.involved_object.kind ""))
            (unwrap_or e.involved_object.name ""))
      ∷ text (unwrap_or e.message "")
      ∷ []
