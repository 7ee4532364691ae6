-- ===== src/Store/Repository.antt =====
-- What the repositories of src/db/repository.rs have in common: rows with a namespace, a name and a
-- uid, and the five statements on them. A `Layout` says what a repository has of its own. The rows
-- of a table without namespaces have the empty one.
pub mod Rows
pub mod Laws
pub mod Frame
use superkube.Base.{
  ◌+◌, String, Bool, true, not, Option, none, some, List, [], ◌∷◌, ◌==◌, ◌&&◌, if◌then◌else◌, any,
  filter, find, map, map_or, append,
}
use superkube.Models.Meta.{Uuid, DateTime}
use superkube.Store.{
  uid_or_new, Env, World, Action, Result, ok, err, Error, not_found, database, serialization, ◌>>=◌,
  ◌>>◌, pure, fail, query, new_v4, now,
}
use superkube.Store.Table.{upsert, order_desc}

pub record Layout (Row Obj : Type 0) : Type 0 where
  -- The table in the state.
  pub rows : World → List Row
  pub put : List Row → World → World
  pub namespace : Row → String
  pub name : Row → String
  pub uid : Row → Uuid
  pub created_at : Row → DateTime
  -- `ON CONFLICT ... DO UPDATE`: the row from the new one and the old one.
  pub overwrite : Row → Row → Row
  -- `row_to_...`.
  pub read : Row → Obj
  -- How the errors of `get` and of `delete` name the kind.
  pub got : String
  pub deleted : String

abbrev pub missing : String → String → Error
missing kind name = not_found (append kind (append " \"" (append name "\" not found")))

module _ {Row Obj : Type 0} (t : Layout Row Obj) where
  unfoldable pub has_key : String → String → Row → Bool
  has_key namespace name row = t.namespace row == namespace && t.name row == name

  unfoldable pub store_rows : Option (List Row) → Action (Unit {0})
  store_rows none w = (err database, w)
  store_rows (some rows) w = (ok tt, t.put rows w)

  unfoldable pub found_row : String → Option Row → Action Obj
  found_row name none = fail (missing t.got name)
  found_row name (some row) = pure (t.read row)

  module _ (e : Env) where
    unfoldable pub get_object : String → String → Action Obj
    unfolding query found_row has_key
    get_object namespace name = do
      query e
      λ w. found_row name (find (has_key namespace name) (t.rows w)) w

    unfoldable pub insert_row : Option Row → Action (Unit {0})
    unfolding query upsert store_rows has_key
    insert_row none = fail serialization
    insert_row (some row) = do
      query e
      λ w.
          store_rows
            (upsert (λ new. has_key (t.namespace new) (t.name new)) t.uid t.overwrite row
              (t.rows w))
            w

    -- `to_row` gives the row from a uid and the time; `none` is an error of `json_str`.
    unfoldable pub create_object :
        Option Uuid → String → String → (Uuid → DateTime → Option Row) → Action Obj
    unfolding uid_or_new insert_row get_object
    create_object uid namespace name to_row = do
      uid ← uid_or_new e uid
      (λ w. insert_row (to_row uid (now e w)) w)
      get_object namespace name

    unfoldable pub list_objects : Option String → Action (List Obj)
    unfolding query order_desc
    list_objects namespace = do
      query e
      λ w.
          let rows =
            filter (λ row. map_or namespace true (λ ns. t.namespace row == ns)) (t.rows w) in
          (ok (map t.read (order_desc t.created_at rows)), w)

    unfoldable pub delete_object : String → String → Action (Unit {0})
    unfolding query has_key
    delete_object namespace name = do
      query e
      λ w.
          if any (has_key namespace name) (t.rows w)
          then (ok tt, t.put (filter (λ row. not (has_key namespace name row)) (t.rows w)) w)
          else (err (missing t.deleted name), w)

    -- `UPDATE ... WHERE namespace = ? AND name = ?`, with the time for `updated_at`.
    unfoldable pub update_object : String → String → (DateTime → Row → Row) → Action (Unit {0})
    unfolding query has_key
    update_object namespace name change w =
        (do
          query e
          λ w'.
              let rows =
                map (λ row. if has_key namespace name row then change (now e w) row else row)
                  (t.rows w') in
              (ok tt, t.put rows w'))
          w
