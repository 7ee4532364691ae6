-- ===== src/EventRepository.antt =====
-- src/db/repository.rs, `EventRepository`, and `emit_event` of src/server/controller.rs.
pub mod Recording
use superkube.Base.{
  false, Bool, List, Option, String, and_then, any, append, filter, find, if◌then◌else◌, is_some,
  map, map_or, none, not, pos, some, suc, true, unwrap_or, ◌&&◌, ◌+ℤ◌, ◌==◌, ◌||◌,
}
use superkube.Models.Meta.{Uuid, DateTime, default_object_meta, name_of, namespace_of}
use superkube.Models.Service.{ObjectReference}
use superkube.Models.Event.{Event, EventType, normal, warning}
use superkube.Store.{
  uid_or_new, Env, Action, ok, err, Error, not_found, database, ◌>>=◌, ◌>>◌, pure, fail, query,
  new_v4, now, ignore,
}
use superkube.Store.Rows.{EventRow}
use superkube.Store.Table.{upsert, order_desc}

-- `Error::NotFound(format!("events \"{}\" not found", name))`.
abbrev pub missing : String → Error
missing name = not_found (append "events \"" (append name "\" not found"))

unfoldable pub has_key : String → String → EventRow → Bool
has_key namespace name row = row.namespace == namespace && row.name == name

-- `ON CONFLICT (name, namespace) DO UPDATE`.
unfoldable pub overwrite : EventRow → EventRow → EventRow
overwrite new old = record old {
  last_timestamp = new.last_timestamp;
  count = old.count +ℤ pos 1;
  message = new.message;
  updated_at = new.updated_at;
}

type_text : EventType → String
type_text normal = "Normal"
type_text warning = "Warning"

unfoldable pub to_row : Event → Uuid → DateTime → EventRow
unfolding type_text
to_row event uid now = record {
  uid = uid;
  name = name_of event.metadata;
  namespace = namespace_of event.metadata;
  involved_object = event.involved_object;
  reason = event.reason;
  message = event.message;
  source_component = and_then event.source (λ s. s.component);
  source_host = and_then event.source (λ s. s.host);
  first_timestamp = event.first_timestamp;
  last_timestamp = event.last_timestamp;
  event_time = event.event_time;
  count = unwrap_or event.count (pos 1);
  event_type = map_or event.event_type "Normal" type_text;
  action = event.action;
  reporting_controller = event.reporting_controller;
  reporting_instance = event.reporting_instance;
  created_at = now;
  updated_at = now;
}

unfoldable pub row_to_event : EventRow → Event
row_to_event row = record {
  type_meta = record { api_version = some "v1"; kind = some "Event" };
  metadata = record default_object_meta {
    name = some row.name;
    namespace = some row.namespace;
    uid = some row.uid;
    creation_timestamp = some row.created_at;
  };
  involved_object = row.involved_object;
  reason = row.reason;
  message = row.message;
  source =
      if is_some row.source_component || is_some row.source_host
      then some (record { component = row.source_component; host = row.source_host })
      else none;
  first_timestamp = row.first_timestamp;
  last_timestamp = row.last_timestamp;
  count = some row.count;
  event_type = some (if row.event_type == "Warning" then warning else normal);
  event_time = row.event_time;
  action = row.action;
  reporting_controller = row.reporting_controller;
  reporting_instance = row.reporting_instance;
}

store_rows : Option (List EventRow) → Action (Unit {0})
store_rows none w = (err database, w)
store_rows (some rows) w = (ok tt, record w { events = rows })

found_row : String → Option EventRow → Action Event
found_row name none = fail (missing name)
found_row name (some row) = pure (row_to_event row)

-- The conditions of the three queries of `list`; NULL equals no text.
unfoldable pub is_about : Option String → Option String → Option String → EventRow → Bool
is_about none object_name object_kind row = true
is_about (some ns) (some name) (some kind) row =
    row.namespace == ns
    && map_or row.involved_object.name false (λ n. n == name)
    && map_or row.involved_object.kind false (λ k. k == kind)
is_about (some ns) none object_kind row = row.namespace == ns
is_about (some ns) (some name) none row = row.namespace == ns

module _ (e : Env) where
  unfoldable pub get_event : String → String → Action Event
  unfolding query found_row has_key
  get_event namespace name = do
    query e
    λ w. found_row name (find (has_key namespace name) w.events) w

  insert_event : EventRow → Action (Unit {0})
  unfolding query upsert store_rows has_key overwrite
  insert_event row = do
    query e
    λ w.
        store_rows
          (upsert (λ new. has_key new.namespace new.name) (λ row. row.uid) overwrite row w.events) w

  unfoldable pub create : Event → Action Event
  unfolding uid_or_new insert_event get_event new_v4
  create event = do
    uid ← uid_or_new e event.metadata.uid
    (λ w. insert_event (to_row event uid (now e w)) w)
    get_event (namespace_of event.metadata) (name_of event.metadata)

  unfoldable pub delete : String → String → Action (Unit {0})
  unfolding query has_key
  delete namespace name = do
    query e
    λ w.
        if any (has_key namespace name) w.events
        then (
          ok tt,
          record w { events = filter (λ row. not (has_key namespace name row)) w.events },
        )
        else (err (missing name), w)

  -- `None` lists every namespace; the object's name and kind count where all three are given.
  -- A row without a time counts as the oldest, as in SQLite.
  unfoldable pub list : Option String → Option String → Option String → Action (List Event)
  unfolding query order_desc is_about
  list namespace object_name object_kind = do
    query e
    λ w.
        let rows = filter (is_about namespace object_name object_kind) w.events in
        (ok (map row_to_event (order_desc (λ row. map_or row.last_timestamp 0 suc) rows)), w)

  -- The event that `emit_event` records, of two fresh UUIDs.
  event_of :
      ObjectReference
      → String
      → EventType
      → String
      → String
      → String
      → DateTime
      → Uuid
      → Uuid
      → Event
  event_of involved namespace typ reason message component now random uid =
      let obj_name = unwrap_or involved.name "" in
      record {
        type_meta = record { api_version = some "v1"; kind = some "Event" };
        metadata = record default_object_meta {
          name =
              some (
                append (if obj_name == "" then "object" else obj_name) (append "." (e.hex random)));
          namespace = some namespace;
          uid = some uid;
        };
        involved_object = involved;
        reason = some reason;
        message = some message;
        source = some (record { component = some component; host = none });
        first_timestamp = some now;
        last_timestamp = some now;
        event_time = some now;
        count = some (pos 1);
        event_type = some typ;
        action = none;
        reporting_controller = some (append "superkube/" component);
        reporting_instance = none;
      }

  -- `emit_event`: the error of `create` is dropped.
  unfoldable pub emit_event :
      ObjectReference → String → EventType → String → String → String → Action (Unit {0})
  unfolding new_v4 create event_of
  emit_event involved namespace typ reason message component = do
    random ← new_v4 e
    uid ← new_v4 e
    λ w.
        ignore
          (create (event_of involved namespace typ reason message component (now e w) random uid)) w
