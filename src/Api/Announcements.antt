-- ===== src/Api/Announcements.antt =====
-- src/server/api.rs: what watchers are told of the calls of handlers.
use superkube.Base.{String, Option, none, some, List, [], ◌∷◌}
use superkube.Store.{World}
use superkube.Store.Bus.{ChangeEvent, WatchEventType, Object}

abbrev pub published_of : World → List ChangeEvent
published_of w = w.published

module _ {A : Type 0} (kind : String) (to_object : A → Object) where
  -- The event of an object.
  abbrev pub event_of : WatchEventType → Option String → String → A → ChangeEvent
  event_of event_type namespace name object = record {
    kind = kind;
    namespace = namespace;
    name = name;
    event_type = event_type;
    object = to_object object;
  }

  -- One event of what a call gave, none where it failed.
  abbrev pub events_of : WatchEventType → Option String → String → Option A → List ChangeEvent
  events_of event_type namespace name none = []
  events_of event_type namespace name (some object) = event_of event_type namespace name object ∷ []
