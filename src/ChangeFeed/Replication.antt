-- ===== src/ChangeFeed/Replication.antt =====
-- A change that one server writes, as another hears it.
use superkube.Base.{
  ◌+◌, ◌≡◌, refl, String, true, false, ◌&&◌, not, none, some, List, [], ◌∷◌, ◌++◌, ◌==◌,
  if◌then◌else◌, Bool-cases, inl, inr, any, find, eqb, arith,
}
use superkube.Models.Meta.{Uuid}
use superkube.Store.{Env}
use superkube.Store.Bus.{WatchEventType, added, modified, deleted}
use superkube.ChangeFeed.{
  Values, ChangeEvent, ChangeLog, ChangeLogRow, as_wire, from_wire, is_known, fetch, insert,
  insert_row, notify, replicate, republished, heard, listen,
}

from_wire-as_wire : (t : WatchEventType) → from_wire (as_wire t) ≡ some t
unfolding from_wire
from_wire-as_wire added = refl
from_wire-as_wire modified = refl
from_wire-as_wire deleted = refl

find-last :
    (id : Uuid) (row : ChangeLogRow) (rows : List ChangeLogRow)
    → any (λ r. eqb r.id id) rows ≡ false
    → eqb row.id id ≡ true
    → find (λ r. eqb r.id id) (rows ++ row ∷ []) ≡ some row
find-last id row [] h e = rw e refl
find-last id row (r ∷ rows) h e = ground (arith, find-last id row rows)

module _ (v : Values) (e : Env) where
  -- A change that a server writes to the log, where the database takes both statements, no row has
  -- the new id, and JSON reads the object back: one peer is told, by that id; a server of another
  -- instance republishes the same change where its kind is known, and nothing else; the server
  -- itself republishes nothing.
  pub listen-replicate :
      (instance_id peer : String) (event : ChangeEvent v) (log : ChangeLog)
      → e.faults log.statements ≡ false
      → e.faults (log.statements + 1) ≡ false
      → any (λ r. eqb r.id (e.random log.drawn)) log.rows ≡ false
      → v.from_str (v.to_string event.object) ≡ some event.object
      → (log' : ChangeLog) × (replicate v e instance_id event log ≡ (true, log'))
        × (log'.notified ≡ log.notified ++ e.random log.drawn ∷ [])
        × (listen v peer (e.random log.drawn) log'
            ≡ (if not (instance_id == peer) && is_known event.kind then some event else none))
  unfolding replicate insert insert_row notify listen fetch heard republished
  listen-replicate instance_id peer event log f f1 fresh back =
      let id = e.random log.drawn in
      let row : ChangeLogRow = record {
        id = id;
        instance_id = instance_id;
        kind = event.kind;
        namespace = event.namespace;
        name = event.name;
        event_type = as_wire event.event_type;
        object = v.to_string event.object;
        created_at = e.clock log.statements;
      } in
      let found = find-last id row log.rows fresh (ground arith) in
      (
        record log {
          drawn = log.drawn + 1;
          statements = log.statements + 1 + 1;
          rows = log.rows ++ row ∷ [];
          notified = log.notified ++ id ∷ [];
        },
        rw (f, fresh, f1) refl,
        refl,
        rw found (elim (Bool-cases (instance_id == peer)) [
          | inl same ↦ rw same refl
          | inr other ↦ rw (other, from_wire-as_wire event.event_type, back) refl
        ]),
      )
