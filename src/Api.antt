-- ===== src/Api.antt =====
-- src/server/api.rs: what the handlers share, and how they read queries. A handler takes what axum
-- extracts of the request and gives what it answers with; how a list is rendered is left to
-- src/server/table.rs, so a `list_` handler gives the objects.
pub mod Pods
pub mod Workloads
pub mod Cluster
pub mod Auth
pub mod Announcements
pub mod Cascade
pub mod Delivery
mod Tests
use superkube.Base.{
  String, Bool, Option, none, some, List, [], ◌∷◌, ◌++◌, Map, put, map_or, unwrap_or, split_at,
  split_once, if◌then◌else◌, ◌==◌,
}
use superkube.Models.Meta.{ObjectMeta}
use superkube.Store.{World, Action, Result, ok, err, to_option, ◌>>=◌, ◌>>◌, pure}
use superkube.Store.Bus.{ChangeEvent, WatchEventType, added, modified, deleted, Object}

-- `publish_added`, `publish_modified` and `publish_deleted`.
unfoldable pub announce :
    WatchEventType → String → Option String → String → Object → Action (Unit {0})
announce event_type kind namespace name object w = (
  ok tt,
  record w {
    published =
        w.published
        ++ record {
          kind = kind;
          namespace = namespace;
          name = name;
          event_type = event_type;
          object = object;
        }
          ∷ [];
  },
)

-- `.await.ok()`.
abbrev pub try_get : {A : Type 0} → Action A → Action (Option A)
try_get m w = let (r, w') = m w in (ok (to_option r), w')

-- `if metadata.namespace.is_none() { metadata.namespace = Some(namespace) }`.
abbrev pub in_namespace : String → ObjectMeta → ObjectMeta
in_namespace namespace m = record m { namespace = some (unwrap_or m.namespace namespace) }

-- The namespace and the name of the path.
abbrev pub placed : String → String → ObjectMeta → ObjectMeta
placed namespace name m = record m { namespace = some namespace; name = some name }

abbrev pub renamed : String → ObjectMeta → ObjectMeta
renamed name m = record m { name = some name }

module _ {A : Type 0} (kind : String) (to_object : A → Object) where
  -- An object that was written is announced as it is stored.
  unfoldable pub saved : WatchEventType → Option String → String → Action A → Action A
  unfolding announce
  saved event_type namespace name write = do
    object ← write
    announce event_type kind namespace name (to_object object)
    pure object

  unfoldable pub announce_found : Option String → String → Option A → Action (Unit {0})
  unfolding announce
  announce_found namespace name none = pure tt
  announce_found namespace name (some object) =
      announce deleted kind namespace name (to_object object)

  -- The object is read before it is deleted, so that watchers see its last state.
  unfoldable pub removed : Option String → String → Action A → Action (Unit {0}) → Action (Unit {0})
  unfolding announce_found
  removed namespace name get delete = do
    pre ← try_get get
    delete
    announce_found namespace name pre

-- `ListParams::parse_label_selector`: the pairs of `key=value`; a later one replaces an earlier.
unfoldable pub collect_pairs : Map String → List String → Map String
collect_pairs m [] = m
collect_pairs m (pair ∷ pairs) =
    collect_pairs (map_or (split_once "=" pair) m (λ (k, v). put k v m)) pairs

unfoldable pub parse_label_selector : Option String → Option (Map String)
unfolding collect_pairs
parse_label_selector none = none
parse_label_selector (some s) = some (collect_pairs [] (split_at b',' s))

-- `EventListParams::parse_involved_object`: the name and the kind, of each the last one.
abbrev pub involved :
    String → String → Option String × Option String → Option String × Option String
involved key value (name, kind) =
    if key == "involvedObject.name"
    then (some value, kind)
    else if key == "involvedObject.kind"
    then (name, some value)
    else (name, kind)

unfoldable pub involved_of :
    Option String × Option String → List String → Option String × Option String
involved_of found [] = found
involved_of found (pair ∷ pairs) =
    involved_of (map_or (split_once "=" pair) found (λ (k, v). involved k v found)) pairs

unfoldable pub parse_involved_object : Option String → Option String × Option String
unfolding involved_of
parse_involved_object none = (none, none)
parse_involved_object (some selector) = involved_of (none, none) (split_at b',' selector)
