-- ===== src/NodeRepository.antt =====
-- src/db/repository.rs, `NodeRepository`, over the rows of Store.Rows.
pub mod Listing
use superkube.Base.{
  String, Bool, true, false, not, Option, none, some, List, [], ◌∷◌, ◌==◌, if◌then◌else◌, append,
  any, filter, find, map, map_or, and_then, unwrap_or,
}
use superkube.Models.Meta.{Uuid, DateTime, default_object_meta, name_of}
use superkube.Models.Node.{Node, NodeStatus, NodeCondition, NodePhase, ready, ConditionStatus}
use superkube.Store.{
  uid_or_new, Env, World, Action, Result, ok, err, Error, not_found, database, ◌>>=◌, ◌>>◌, pure,
  fail, query, new_v4, now, serialization,
}
use superkube.Store.Rows.{Json, Codec, NodeRow}
use superkube.Store.Table.{upsert, order_desc}
use superkube.PodRepository.Conversions.{json_from_opt}

-- `Error::NotFound(format!("nodes \"{}\" not found", name))`.
abbrev pub missing : String → Error
missing name = not_found (append "nodes \"" (append name "\" not found"))

unfoldable pub is_named : String → NodeRow → Bool
is_named name row = row.name == name

unfoldable pub overwrite : NodeRow → NodeRow → NodeRow
overwrite new old = record new { uid = old.uid; created_at = old.created_at }

-- `json_str(..).unwrap_or_else(..)` of a field of the status, or the default without one.
json_or : {A : Type 0} → Codec A → (NodeStatus → Option A) → String → Option NodeStatus → String
json_or c field default none = default
json_or c field default (some s) = unwrap_or (c.encode_option (field s)) default

-- The row that `create` inserts; `none` is an error of `json_str`.
unfoldable pub to_row : Json → Node → Uuid → DateTime → Option NodeRow
unfolding json_or
to_row j node uid now = and_then (j.labels.encode_option node.metadata.labels) (λ labels.
    some (record {
      uid = uid;
      name = name_of node.metadata;
      labels = labels;
      status = map_or node.status "NotReady" (λ s. "Ready");
      addresses = json_or j.addresses (λ s. s.addresses) "[]" node.status;
      capacity = json_or j.labels (λ s. s.capacity) "{}" node.status;
      allocatable = json_or j.labels (λ s. s.allocatable) "{}" node.status;
      node_info =
          map_or (and_then node.status (λ s. s.node_info)) none
            (λ info. some (unwrap_or (j.node_info.encode info) "null"));
      created_at = now;
      updated_at = now;
    }))

-- The condition that `get` and `list` fill in.
ready_condition : NodeRow → NodeCondition
ready_condition row = record {
  condition_type = ready;
  status = if row.status == "Ready" then ConditionStatus.true else ConditionStatus.false;
  last_heartbeat_time = some row.updated_at;
  last_transition_time = some row.created_at;
  reason = some "KubeletReady";
  message = some "kubelet is posting ready status";
}

unfoldable pub row_to_node : Json → Bool → NodeRow → Node
unfolding ready_condition json_from_opt
row_to_node j with_conditions row = record {
  type_meta = record { api_version = some "v1"; kind = some "Node" };
  metadata = record default_object_meta {
    name = some row.name;
    uid = some row.uid;
    labels = json_from_opt j.labels row.labels;
    creation_timestamp = some row.created_at;
  };
  spec = none;
  status = some (record {
    capacity = json_from_opt j.labels row.capacity;
    allocatable = json_from_opt j.labels row.allocatable;
    conditions = if with_conditions then some (ready_condition row ∷ []) else none;
    addresses = json_from_opt j.addresses row.addresses;
    node_info = and_then row.node_info (json_from_opt j.node_info);
    images = none;
    phase = NodePhase.running;
  });
}

store_rows : Option (List NodeRow) → Action (Unit {0})
store_rows none w = (err database, w)
store_rows (some rows) w = (ok tt, record w { nodes = rows })

found_row : Json → String → Option NodeRow → Action Node
found_row j name none = fail (missing name)
found_row j name (some row) = pure (row_to_node j true row)

module _ (e : Env) (j : Json) where
  unfoldable pub get_node : String → Action Node
  unfolding query found_row is_named
  get_node name = do query e; λ w. found_row j name (find (is_named name) w.nodes) w

  insert_node : Option NodeRow → Action (Unit {0})
  unfolding query upsert store_rows is_named overwrite
  insert_node none = fail serialization
  insert_node (some row) = do
    query e
    λ w. store_rows (upsert (λ new. is_named new.name) (λ row. row.uid) overwrite row w.nodes) w

  unfoldable pub create : Node → Action Node
  unfolding uid_or_new insert_node get_node new_v4
  create node = do
    uid ← uid_or_new e node.metadata.uid
    (λ w. insert_node (to_row j node uid (now e w)) w)
    get_node (name_of node.metadata)

  unfoldable pub list : Action (List Node)
  unfolding query order_desc
  list = do
    query e
    λ w. (ok (map (row_to_node j true) (order_desc (λ row. row.created_at) w.nodes)), w)

  unfoldable pub delete : String → Action (Unit {0})
  unfolding query is_named
  delete name = do
    query e
    λ w.
        if any (is_named name) w.nodes
        then (ok tt, record w { nodes = filter (λ row. not (is_named name row)) w.nodes })
        else (err (missing name), w)

  -- Only rows of status `Ready`, and no condition is filled in.
  unfoldable pub list_ready : Action (List Node)
  unfolding query order_desc
  list_ready = do
    query e
    λ w.
        let rows = filter (λ row. row.status == "Ready") w.nodes in
        (ok (map (row_to_node j false) (order_desc (λ row. row.created_at) rows)), w)
