-- ===== src/Store/Repository/Frame.antt =====
-- What the statements of a repository leave alone: a part of the state that neither its table nor
-- the counters of statements and UUIDs are in.
use superkube.Base.{ℕ, ◌≡◌, refl, String, Option, none, some, List, Bool-cases, inl, inr, find, any}
use superkube.Store.{Env, World, query}
use superkube.Store.Frame.{Keeps, bind-Keeps, query-Keeps}
use superkube.Store.Repository.{Layout, has_key, found_row, get_object, delete_object}

module _ {V Row Obj : Type 0} (v : World → V) (t : Layout Row Obj) (e : Env)
    (blind_statements : (w : World) (n : ℕ) → v (record w { statements = n }) ≡ v w) where
  found_row-Keeps : (name : String) (row : Option Row) → Keeps v (found_row t name row)
  unfolding found_row
  found_row-Keeps name none w = refl
  found_row-Keeps name (some row) w = refl

  pub get_object-Keeps : (ns name : String) → Keeps v (get_object t e ns name)
  unfolding get_object
  get_object-Keeps ns name =
      bind-Keeps v (query e) (λ _ w. found_row t name (find (has_key t ns name) (t.rows w)) w)
        (query-Keeps v e blind_statements)
        (λ _ w. found_row-Keeps name (find (has_key t ns name) (t.rows w)) w)

  module _ (blind_table : (rows : List Row) (w : World) → v (t.put rows w) ≡ v w) where
    pub delete_object-Keeps : (ns name : String) → Keeps v (delete_object t e ns name)
    unfolding delete_object
    delete_object-Keeps ns name = bind-Keeps v (query e) _ (query-Keeps v e blind_statements) λ _ w.
        elim (Bool-cases (any (has_key t ns name) (t.rows w))) [
          | inl h ↦ rw h (blind_table _ w)
          | inr h ↦ rw h refl
        ]
