-- ===== src/ChangeFeed.antt =====
-- src/server/bus.rs, src/db/change_log.rs and `spawn_change_log_listener` of src/server/mod.rs: how
-- a change reaches the watchers of this server, and those of its peers through the table
-- `change_log`. An object is a JSON value; serde_json is the parameter `Values`. The spawned task
-- of a publication is the function `replicate`. Times count nanoseconds, as in Lease.
pub mod Replication
mod Tests
use superkube.Base.{
  ℕ, ◌+◌, ◌*◌, ◌^◌, String, Bool, true, false, ◌&&◌, not, Option, none, some, List, [], ◌∷◌, ◌++◌,
  ◌==◌, if◌then◌else◌, any, filter, find, eqb, ltb, map_or, unwrap_or,
}
use superkube.Models.Meta.{Uuid, DateTime}
use superkube.Store.{Env}
use superkube.Store.Bus.{WatchEventType, added, modified, deleted}

-- `serde_json::Value`, its text, and what is read from a text.
pub record Values : Type 1 where
  pub Value : Type 0
  pub null : Value
  pub to_string : Value → String
  pub from_str : String → Option Value

abbrev pub as_wire : WatchEventType → String
as_wire added = "ADDED"
as_wire modified = "MODIFIED"
as_wire deleted = "DELETED"

unfoldable pub from_wire : String → Option WatchEventType
from_wire s =
    if s == "ADDED"
    then some added
    else if s == "MODIFIED"
    then some modified
    else if s == "DELETED"
    then some deleted
    else none

-- The whitelist of the listener.
abbrev pub known_kinds : List String
known_kinds =
    "Pod" ∷ "Service" ∷ "Node" ∷ "Namespace" ∷ "ConfigMap" ∷ "Secret" ∷ "ServiceAccount"
    ∷ "Deployment" ∷ "StatefulSet" ∷ "DaemonSet" ∷ "Role" ∷ "RoleBinding" ∷ "ClusterRole"
    ∷ "ClusterRoleBinding" ∷ []

unfoldable pub is_known : String → Bool
is_known kind = any (λ k. k == kind) known_kinds

pub record WatchFilter : Type 0 where
  pub kind : String
  pub namespace : Option String

-- A row of the table; `id` and `created_at` are the columns that `fetch` leaves out.
pub record ChangeLogRow : Type 0 where
  pub id : Uuid
  pub instance_id : String
  pub kind : String
  pub namespace : Option String
  pub name : String
  pub event_type : String
  pub object : String
  pub created_at : DateTime

-- The table, the notifications that were sent, and the counters of `Env`.
pub record ChangeLog : Type 0 where
  pub drawn : ℕ
  pub statements : ℕ
  pub rows : List ChangeLogRow
  pub notified : List Uuid

-- The rows that are younger than the time to live.
unfoldable pub prune_older_than : DateTime → ℕ → ChangeLog → ChangeLog
prune_older_than now ttl_seconds log = record log {
  rows = filter (λ row. not (ltb (row.created_at + ttl_seconds * 10 ^ 9) now)) log.rows;
}

-- `None` is a row that the pruner has removed.
unfoldable pub fetch : Uuid → ChangeLog → Option ChangeLogRow
fetch id log = find (λ row. eqb row.id id) log.rows

module _ (v : Values) where
  -- `ChangeEvent`, with a JSON value for the object.
  pub record ChangeEvent : Type 0 where
    pub kind : String
    pub namespace : Option String
    pub name : String
    pub event_type : WatchEventType
    pub object : v.Value

  same_namespace : Option String → Option String → Bool
  same_namespace none got = true
  same_namespace (some want) (some got) = want == got
  same_namespace (some want) none = false

  unfoldable pub matches : WatchFilter → ChangeEvent → Bool
  unfolding same_namespace
  matches f event = event.kind == f.kind && same_namespace f.namespace event.namespace

  -- `insert` of change_log: `none` is an error of the database.
  insert_row : ChangeLogRow → Bool → ChangeLog → Option Uuid × ChangeLog
  insert_row row refused log =
      if refused
      then (none, log)
      else if any (λ r. eqb r.id row.id) log.rows
      then (none, log)
      else (some row.id, record log { rows = log.rows ++ row ∷ [] })

  unfoldable pub insert : Env → String → ChangeEvent → ChangeLog → Option Uuid × ChangeLog
  unfolding insert_row
  insert e instance_id event log =
      insert_row
        (record {
          id = e.random log.drawn;
          instance_id = instance_id;
          kind = event.kind;
          namespace = event.namespace;
          name = event.name;
          event_type = as_wire event.event_type;
          object = v.to_string event.object;
          created_at = e.clock log.statements;
        })
        (e.faults log.statements)
        (record log { drawn = log.drawn + 1; statements = log.statements + 1 })

  notify : Env → Option Uuid × ChangeLog → Bool × ChangeLog
  notify e (none, log) = (false, log)
  notify e (some id, log) =
      let log' = record log { statements = log.statements + 1 } in
      if e.faults log.statements
      then (false, log')
      else (true, record log' { notified = log.notified ++ id ∷ [] })

  -- Whether the change was written and its peers were told.
  unfoldable pub replicate : Env → String → ChangeEvent → ChangeLog → Bool × ChangeLog
  unfolding insert notify
  replicate e instance_id event log = notify e (insert e instance_id event log)

  republished : ChangeLogRow → Option WatchEventType → Option ChangeEvent
  unfolding is_known
  republished row none = none
  republished row (some event_type) =
      if is_known row.kind
      then some (record {
        kind = row.kind;
        namespace = row.namespace;
        name = row.name;
        event_type = event_type;
        object = unwrap_or (v.from_str row.object) v.null;
      })
      else none

  heard : String → Option ChangeLogRow → Option ChangeEvent
  unfolding republished from_wire
  heard instance_id none = none
  heard instance_id (some row) =
      if row.instance_id == instance_id then none else republished row (from_wire row.event_type)

  -- What the listener of a server republishes for a notification.
  unfoldable pub listen : String → Uuid → ChangeLog → Option ChangeEvent
  unfolding heard fetch
  listen instance_id id log = heard instance_id (fetch id log)
