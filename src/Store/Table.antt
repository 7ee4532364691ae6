-- ===== src/Store/Table.antt =====
-- Tables as lists of rows: `INSERT ... ON CONFLICT (key) DO UPDATE` with a primary key `uid`, and
-- `ORDER BY` a time; rows of one time stay in the order of the table.
use superkube.Base.{
  Elem, ◌↔◌, ℕ, Bool, Option, none, some, List, [], ◌∷◌, ◌++◌, if◌then◌else◌, eqb, leb, any, map,
  Bool-cases, inl, inr,
}
use superkube.Models.Meta.{Uuid}

module _ {A : Type 0} (same : A → A → Bool) (uid : A → Uuid) (overwrite : A → A → A) where
  -- `none` is a second row with one uid.
  unfoldable pub upsert : A → List A → Option (List A)
  upsert new rows =
      if any (same new) rows
      then some (map (λ old. if same new old then overwrite new old else old) rows)
      else if any (λ row. eqb (uid row) (uid new)) rows
      then none
      else some (rows ++ new ∷ [])

module _ {A : Type 0} (time : A → ℕ) where
  insert_desc : A → List A → List A
  insert_desc row [] = row ∷ []
  insert_desc row (r ∷ rows) =
      let later = r ∷ insert_desc row rows in
      if leb (time r) (time row) then row ∷ r ∷ rows else later

  -- The newest rows first.
  unfoldable pub order_desc : List A → List A
  unfolding insert_desc
  order_desc [] = []
  order_desc (r ∷ rows) = insert_desc r (order_desc rows)

  -- Ordering keeps the rows.
  Elem-insert_desc :
      (r : A) (rows : List A) (a : A) → Elem a (insert_desc r rows) ↔ Elem a (r ∷ rows)
  unfolding insert_desc
  Elem-insert_desc r [] a = (λ h. h, λ h. h)
  Elem-insert_desc r (q ∷ rows) a = elim (Bool-cases (leb (time q) (time r))) [
    | inl e ↦ rw e (λ h. h, λ h. h)
    | inr e ↦
        let rest = Elem-insert_desc r rows a in
        rw e (
          λ h. elim h [
            | inl x ↦ inr (inl x)
            | inr t ↦ elim (rest.0 t) [ inl x ↦ inl x | inr y ↦ inr (inr y) ]
          ],
          λ h. elim h [
            | inl x ↦ inr (rest.1 (inl x))
            | inr t ↦ elim t [ inl x ↦ inl x | inr y ↦ inr (rest.1 (inr y)) ]
          ],
        )
  ]

  pub Elem-order_desc : (rows : List A) (a : A) → Elem a (order_desc rows) ↔ Elem a rows
  unfolding order_desc
  Elem-order_desc [] a = (λ h. h, λ h. h)
  Elem-order_desc (r ∷ rows) a =
      let step = Elem-insert_desc r (order_desc rows) a in
      let rest = Elem-order_desc rows a in
      (
        λ h. elim (step.0 h) [ inl x ↦ inl x | inr y ↦ inr (rest.0 y) ],
        λ h. step.1 (elim h [ inl x ↦ inl x | inr y ↦ inr (rest.1 y) ]),
      )
