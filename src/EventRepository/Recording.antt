-- ===== src/EventRepository/Recording.antt =====
-- `emit_event` never fails, and touches no table but that of the events.
use superkube.Base.{◌+◌, ◌≡◌, refl, String, Option, none, some, List}
use superkube.Models.Meta.{Uuid, name_of, namespace_of}
use superkube.Models.Service.{ObjectReference}
use superkube.Models.Event.{Event, EventType}
use superkube.Store.{uid_or_new, Env, World, Action, ok, query, new_v4, now, ◌>>◌}
use superkube.Store.Rows.{PodRow, NodeRow, EventRow}
use superkube.Store.Bus.{ChangeEvent}
use superkube.Store.Frame.{Keeps, bind-Keeps, query-Keeps}
use superkube.EventRepository.{
  emit_event, event_of, create, insert_event, store_rows, get_event, found_row, to_row,
}

-- The state without the events and the two counters.
abbrev pub rest : World → List PodRow × (List NodeRow × List ChangeEvent)
rest w = (w.pods, (w.nodes, w.published))

store_rows-Keeps : (rows : Option (List EventRow)) → Keeps rest (store_rows rows)
unfolding store_rows
store_rows-Keeps none w = refl
store_rows-Keeps (some rows) w = refl

found_row-Keeps : (name : String) (row : Option EventRow) → Keeps rest (found_row name row)
unfolding found_row
found_row-Keeps name none w = refl
found_row-Keeps name (some row) w = refl

module _ (e : Env) where
  insert_event-Keeps : (row : EventRow) → Keeps rest (insert_event e row)
  unfolding insert_event
  insert_event-Keeps row =
      bind-Keeps rest (query e) _ (query-Keeps rest e (λ w n. refl)) (λ _ w. store_rows-Keeps _ w)

  get_event-Keeps : (ns name : String) → Keeps rest (get_event e ns name)
  unfolding get_event
  get_event-Keeps ns name =
      bind-Keeps rest (query e) _ (query-Keeps rest e (λ w n. refl))
        (λ _ w. found_row-Keeps name _ w)

  uid_or_new-Keeps : (o : Option Uuid) → Keeps rest (uid_or_new e o)
  unfolding uid_or_new new_v4
  uid_or_new-Keeps none w = refl
  uid_or_new-Keeps (some u) w = refl

  pub create-Keeps : (event : Event) → Keeps rest (create e event)
  unfolding create
  create-Keeps event =
      let back = get_event e (namespace_of event.metadata) (name_of event.metadata) in
      let put : Uuid → Action (Unit {0}) = λ uid w. insert_event e (to_row event uid (now e w)) w in
      bind-Keeps rest (uid_or_new e event.metadata.uid) (λ uid. put uid >> back)
        (uid_or_new-Keeps event.metadata.uid)
        (λ uid.
          bind-Keeps rest (put uid) (λ _. back) (λ w. insert_event-Keeps _ w)
            (λ _. get_event-Keeps _ _))

  -- `emit_event` gives no error, whatever the database refuses, and leaves the tables of the pods
  -- and of the nodes and the events of the bus as they were.
  pub emit_event_lem :
      (involved : ObjectReference) (namespace : String) (typ : EventType)
      (reason message component : String) (w : World)
      → ((emit_event e involved namespace typ reason message component w).0 ≡ ok tt)
        × (rest (emit_event e involved namespace typ reason message component w).1 ≡ rest w)
  unfolding emit_event new_v4
  emit_event_lem involved namespace typ reason message component w =
      let later = record w { drawn = w.drawn + 1 + 1 } in
      let event =
        event_of e involved namespace typ reason message component (now e w) (e.random w.drawn)
          (e.random (w.drawn + 1)) in
      (refl, create-Keeps event later)
