-- ===== src/PodRepository/Creation.antt =====
-- What `PodRepository::create` returns and leaves in the table.
use superkube.Base.{
  ℕ, ◌+◌, ◌≡◌, refl, ap, ◌∙◌, String, true, false, Option, none, some, List, ◌⊎◌, if◌then◌else◌,
  any, find, eqb, unwrap_or, map_or,
}
use mathlib.Core.Option.{some-injective}
use superkube.Models.Meta.{Uuid, name_of, namespace_of}
use superkube.Models.Pod.{Pod}
use superkube.Store.{uid_or_new, Env, World, ok, new_v4, query}
use superkube.Store.Rows.{Json, JsonLaws, PodRow}
use superkube.PodRepository.{
  has_key, overwrite, upsert, insert_pod, store_rows, found_row, get_pod, create,
}
use superkube.PodRepository.Conversions.{to_row, row_to_pod}
use superkube.PodRepository.RoundTrip.{stored, row_to_pod-to_row}
use superkube.PodRepository.Upsert.{has_key_iff, merged, find-upsert, upsert-some}

module _ (e : Env) (j : Json) (laws : JsonLaws j) where
  abbrev pub uid_of : Pod → World → Uuid
  uid_of pod w = unwrap_or pod.metadata.uid (e.random w.drawn)

  -- The world after `create` has put `rows` in the table.
  abbrev pub created : Pod → World → List PodRow → World
  created pod w rows = record w {
    drawn = map_or pod.metadata.uid (w.drawn + 1) (λ _. w.drawn);
    statements = w.statements + 1 + 1;
    pods = rows;
  }

  -- The row that the pod's key has before, and the pod that `create` gives back.
  abbrev pub earlier : Pod → World → Option PodRow
  earlier pod w = find (has_key (namespace_of pod.metadata) (name_of pod.metadata)) w.pods

  abbrev pub written : Pod → World → PodRow → Pod
  written pod w row =
      stored j pod (merged row (earlier pod w)).uid (merged row (earlier pod w)).created_at

  uid_or_new_lem :
      (o : Option Uuid) (w : World)
      → uid_or_new e o w ≡ (
        ok (unwrap_or o (e.random w.drawn)),
        record w { drawn = map_or o (w.drawn + 1) (λ _. w.drawn) },
      )
  unfolding uid_or_new new_v4
  uid_or_new_lem none w = refl
  uid_or_new_lem (some u) w = refl

  -- The columns that identify the row and date it.
  to_row-key :
      (pod : Pod) (uid : Uuid) (time : ℕ) (row : PodRow)
      → to_row j pod uid time ≡ some row
      → (row.uid ≡ uid)
        × (row.created_at ≡ time)
        × (row.namespace ≡ namespace_of pod.metadata)
        × (row.name ≡ name_of pod.metadata)
  unfolding row_to_pod
  to_row-key pod uid time row h =
      let back = row_to_pod-to_row j laws pod uid time row h in
      (
        some-injective _ _ (ap (λ p. p.metadata.uid) back),
        some-injective _ _ (ap (λ p. p.metadata.creation_timestamp) back),
        some-injective _ _ (ap (λ p. p.metadata.namespace) back),
        some-injective _ _ (ap (λ p. p.metadata.name) back),
      )

  merged_back :
      (pod : Pod) (uid : Uuid) (time : ℕ) (row : PodRow) (o : Option PodRow)
      → to_row j pod uid time ≡ some row
      → row_to_pod j (merged row o) ≡ stored j pod (merged row o).uid (merged row o).created_at
  unfolding row_to_pod overwrite
  merged_back pod uid time row none h =
      let (u, t, _, _) = to_row-key pod uid time row h in
      row_to_pod-to_row j laws pod uid time row h ∙ rw (u, t) refl
  merged_back pod uid time row (some old) h =
      ap {A = Pod}
        (λ p. record p {
          metadata = record p.metadata {
            uid = some old.uid;
            creation_timestamp = some old.created_at;
          };
        })
        (row_to_pod-to_row j laws pod uid time row h)

  get-after :
      (pod : Pod) (uid : Uuid) (time : ℕ) (row : PodRow) (rows after : List PodRow)
      → to_row j pod uid time ≡ some row
      → upsert row rows ≡ some after
      → find (has_key (namespace_of pod.metadata) (name_of pod.metadata)) after
        ≡ some (merged row (find (has_key (namespace_of pod.metadata) (name_of pod.metadata)) rows))
  get-after pod uid time row rows after h up =
      let (_, _, ns, name) = to_row-key pod uid time row h in
      find-upsert row rows after up (namespace_of pod.metadata) (name_of pod.metadata)
      ∙ rw ((has_key_iff (namespace_of pod.metadata) (name_of pod.metadata) row).1 (ns, name)) refl

  create_ok :
      (pod : Pod) (w : World) (row : PodRow) (after : List PodRow)
      → e.faults w.statements ≡ false
      → e.faults (w.statements + 1) ≡ false
      → to_row j pod (uid_of pod w) (e.clock w.statements) ≡ some row
      → upsert row w.pods ≡ some after
      → create e j pod w ≡ (ok (written pod w row), created pod w after)
  unfolding create insert_pod get_pod query store_rows found_row
  create_ok pod w row after f f1 h up =
      rw
        (
          uid_or_new_lem pod.metadata.uid w,
          h,
          f,
          up,
          f1,
          get-after pod (uid_of pod w) (e.clock w.statements) row w.pods after h up,
          merged_back pod (uid_of pod w) (e.clock w.statements) row (earlier pod w) h,
        )
        refl

  -- `create`, where the database takes both statements, JSON writes the columns, and the pod's key
  -- is in the table or its uid is not: the pod comes back as `stored` describes it, with the uid
  -- and the creation time of the row that the key had, or new ones; the key then has the new row,
  -- with these two, and every other key the row it had.
  pub create_lem :
      (pod : Pod) (w : World) (row : PodRow)
      → e.faults w.statements ≡ false
      → e.faults (w.statements + 1) ≡ false
      → to_row j pod (uid_of pod w) (e.clock w.statements) ≡ some row
      → (any (has_key row.namespace row.name) w.pods ≡ true)
        ⊎ (any (λ r. eqb r.uid row.uid) w.pods ≡ false)
      → (after : List PodRow) × (create e j pod w ≡ (ok (written pod w row), created pod w after))
        × ((ns name : String)
            → find (has_key ns name) after ≡ (
                if has_key ns name row
                then some (merged row (find (has_key ns name) w.pods))
                else find (has_key ns name) w.pods))
  create_lem pod w row f f1 h free =
      let (after, up) = upsert-some row w.pods free in
      (after, create_ok pod w row after f f1 h up, find-upsert row w.pods after up)
