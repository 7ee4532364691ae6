-- ===== src/Store/Repository/Laws.antt =====
-- What the shared statements do to a table, for every layout that obeys `LayoutLaws`.
use superkube.Base.{
  ◌+◌, ◌≡◌, refl, sym, ◌∙◌, false≢true, String, true, false, ◌&&◌, ◌⊎◌, Option, none, some, List,
  [], ◌∷◌, ◌++◌, ◌==◌, if◌then◌else◌, Bool-cases, any, eqb, find, map, map_or, inl, inr, unwrap_or,
}
use superkube.Models.Meta.{Uuid, DateTime}
use superkube.Store.{uid_or_new, Env, World, Result, ok, err, database, query, new_v4}
use superkube.Store.Table.{upsert}
use superkube.Store.Repository.Rows.{
  LayoutLaws, has_key_iff, merged, put_in, find-upsert, find-filter, find-none, find-map,
}
use superkube.Store.Repository.{
  Layout, missing, has_key, store_rows, found_row, get_object, insert_row, create_object,
  delete_object, update_object,
}

module _ {Row Obj : Type 0} (t : Layout Row Obj) (laws : LayoutLaws t) where
  -- The table as a map from keys to rows.
  abbrev pub view : World → String → String → Option Row
  view w ns name = find (has_key t ns name) (t.rows w)

  -- The upsert is taken where the key is in the table, or else the uid is not.
  put_in-some :
      (new : Row) (rows : List Row)
      → (any (has_key t (t.namespace new) (t.name new)) rows ≡ true)
        ⊎ (any (λ row. eqb (t.uid row) (t.uid new)) rows ≡ false)
      → (after : List Row) × (put_in t laws new rows ≡ some after)
  unfolding upsert
  put_in-some new rows free =
      elim (Bool-cases (any (has_key t (t.namespace new) (t.name new)) rows)) [
        | inl k ↦ (
          map
              (λ old.
                if has_key t (t.namespace new) (t.name new) old then t.overwrite new old else old)
              rows,
          rw k refl,
        )
        | inr k ↦ elim free [
          | inl there ↦ absurd (false≢true (sym k ∙ there))
          | inr u ↦ (rows ++ new ∷ [], rw (k, u) refl)
        ]
      ]

  -- The three ways in which `delete` ends.
  pub Deleted : Env → String → String → World → Result (Unit {0}) × World → Type 0
  Deleted e ns name w (r, w') =
      ((e.faults w.statements ≡ true) × (r ≡ err database) × (t.rows w' ≡ t.rows w))
      ⊎ (((view w ns name ≡ none) × (r ≡ err (missing t.deleted name)) × (t.rows w' ≡ t.rows w))
          ⊎ ((r ≡ ok tt)
              × ((n k : String)
                  → view w' n k ≡ (if ns == n && name == k then none else view w n k))))

  module _ (e : Env) where
    -- A deletion: the database refuses it and the table stays, or no row has the key, the error says
    -- so and the table stays, or the key has no row any more and every other key has the row it had.
    pub delete_object_lem :
        (ns name : String) (w : World) → Deleted e ns name w (delete_object t e ns name w)
    unfolding Deleted delete_object query
    delete_object_lem ns name w =
        let same = laws.blind_statements w (w.statements + 1) in
        elim (Bool-cases (e.faults w.statements)) [
          | inl f ↦ inl (f, rw f refl, rw f same)
          | inr f ↦ elim (Bool-cases (any (has_key t ns name) (t.rows w))) [
            | inl a ↦ inr (
                inr (
                  rw (f, same, a) refl,
                  λ n k. rw (f, same, a, laws.rows-put) (find-filter t laws ns name n k (t.rows w)),
                ))
            | inr a ↦ inr (
                inl (
                  find-none t laws (has_key t ns name) (t.rows w) a,
                  rw (f, same, a) refl,
                  rw (f, same, a) same,
                ))
          ]
        ]

    -- The uid and the state that a creation starts from.
    abbrev pub uid_of : Option Uuid → World → Uuid
    uid_of uid w = unwrap_or uid (e.random w.drawn)

    abbrev drawn_by : Option Uuid → World → World
    drawn_by uid w = record w { drawn = map_or uid (w.drawn + 1) (λ _. w.drawn) }

    uid_or_new_lem :
        (uid : Option Uuid) (w : World) → uid_or_new e uid w ≡ (ok (uid_of uid w), drawn_by uid w)
    unfolding uid_or_new new_v4
    uid_or_new_lem none w = refl
    uid_or_new_lem (some u) w = refl

    abbrev inserted : Option Uuid → World → World
    inserted uid w = record (drawn_by uid w) { statements = w.statements + 1 }

    same_rows_inserted : (uid : Option Uuid) (w : World) → t.rows (inserted uid w) ≡ t.rows w
    same_rows_inserted uid w =
        laws.blind_statements (drawn_by uid w) (w.statements + 1)
        ∙ laws.blind_drawn w (map_or uid (w.drawn + 1) (λ _. w.drawn))

    abbrev finished : Option Uuid → World → List Row → World
    finished uid w after = record (t.put after (inserted uid w)) {
      statements = w.statements + 1 + 1;
    }

    finished_rows :
        (uid : Option Uuid) (w : World) (after : List Row) → t.rows (finished uid w after) ≡ after
    finished_rows uid w after =
        laws.blind_statements (t.put after (inserted uid w)) (w.statements + 1 + 1)
        ∙ laws.rows-put after (inserted uid w)

    get_finished :
        (uid : Option Uuid) (ns name : String) (w : World) (row : Row) (after : List Row)
        → e.faults (w.statements + 1) ≡ false
        → find (has_key t ns name) after ≡ some row
        → get_object t e ns name (t.put after (inserted uid w))
          ≡ (ok (t.read row), finished uid w after)
    unfolding get_object query found_row
    get_finished uid ns name w row after f at =
        rw (laws.statements-put after (inserted uid w), f, finished_rows uid w after, at) refl

    create_object_put :
        (uid : Option Uuid) (ns name : String) (to_row : Uuid → DateTime → Option Row) (w : World)
        (row : Row) (after : List Row)
        → e.faults w.statements ≡ false
        → e.faults (w.statements + 1) ≡ false
        → to_row (uid_of uid w) (e.clock w.statements) ≡ some row
        → t.namespace row ≡ ns
        → t.name row ≡ name
        → put_in t laws row (t.rows w) ≡ some after
        → (w' : World) × (create_object t e uid ns name to_row w
            ≡ (ok (t.read (merged t laws row (view w ns name))), w'))
          × ((n k : String)
              → view w' n k
                ≡ (if has_key t n k row then some (merged t laws row (view w n k)) else view w n k))
    unfolding create_object insert_row query store_rows
    create_object_put uid ns name to_row w row after f f1 h en ek up =
        let at =
          find-upsert t laws row (t.rows w) after up ns name
          ∙ rw ((has_key_iff t laws ns name row).1 (en, ek)) refl in
        (
          finished uid w after,
          rw
              (
                uid_or_new_lem uid w,
                h,
                f,
                same_rows_inserted uid w,
                up,
                get_finished uid ns name w (merged t laws row (view w ns name)) after f1 at,
              )
              refl,
          λ n k. rw (finished_rows uid w after) (find-upsert t laws row (t.rows w) after up n k),
        )

    -- A creation of which the database takes both statements and JSON writes the row, where the
    -- key is in the table or the uid is not: the object comes back as the merged row reads, and the
    -- table has that row for the key, and for every other key the row it had.
    pub create_object_lem :
        (uid : Option Uuid) (ns name : String) (to_row : Uuid → DateTime → Option Row) (w : World)
        (row : Row)
        → e.faults w.statements ≡ false
        → e.faults (w.statements + 1) ≡ false
        → to_row (uid_of uid w) (e.clock w.statements) ≡ some row
        → t.namespace row ≡ ns
        → t.name row ≡ name
        → (any (has_key t (t.namespace row) (t.name row)) (t.rows w) ≡ true)
          ⊎ (any (λ r. eqb (t.uid r) (t.uid row)) (t.rows w) ≡ false)
        → (w' : World) × (create_object t e uid ns name to_row w
            ≡ (ok (t.read (merged t laws row (view w ns name))), w'))
          × ((n k : String)
              → view w' n k
                ≡ (if has_key t n k row then some (merged t laws row (view w n k)) else view w n k))
    create_object_lem uid ns name to_row w row f f1 h en ek free =
        let (after, up) = put_in-some row (t.rows w) free in
        create_object_put uid ns name to_row w row after f f1 h en ek up

    -- An update that the database takes, and that keeps the key of every row, succeeds, changes the
    -- row of its key, if there is one, and leaves every other key the row it had.
    update_object_lem :
        (ns name : String) (change : DateTime → Row → Row) (w : World)
        → e.faults w.statements ≡ false
        → ((time : DateTime) (row : Row)
            → (t.namespace (change time row) ≡ t.namespace row)
              × (t.name (change time row) ≡ t.name row))
        → (w' : World) × (update_object t e ns name change w ≡ (ok tt, w'))
          × ((n k : String)
              → view w' n k ≡ (
                  if ns == n && name == k
                  then map_or (view w n k) none (λ row. some (change (e.clock w.statements) row))
                  else view w n k))
    unfolding update_object query
    update_object_lem ns name change w f keeps =
        let change_row = change (e.clock w.statements) in
        let w1 = record w { statements = w.statements + 1 } in
        let rows = map (λ row. if has_key t ns name row then change_row row else row) (t.rows w) in
        (
          t.put rows w1,
          rw (f, laws.blind_statements w (w.statements + 1)) refl,
          λ n k.
              rw (laws.rows-put rows w1)
                (find-map t laws change_row ns name n k (t.rows w) (keeps (e.clock w.statements))),
        )
