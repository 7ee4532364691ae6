-- ===== src/Store/Repository/Rows.antt =====
-- Which row each key has after an upsert, a deletion or an update, for every layout that obeys
-- `LayoutLaws`.
use superkube.Base.{
  ℕ, ◌≡◌, refl, sym, ap, ◌∙◌, String, Bool, true, false, false≢true, ◌&&◌, not, ◌↔◌, ◌⊎◌, Option,
  none, some, List, [], ◌∷◌, ◌++◌, ◌==◌, eq_iff, if◌then◌else◌, Bool-cases, any, find, filter, map,
  map_or, inl, inr, arith, eqb,
}
use mathlib.Core.Option.{some-injective, none-ne-some}
use superkube.Store.{World}
use superkube.Store.Table.{upsert}
use superkube.Store.Repository.{Layout, has_key}

pub record LayoutLaws {Row Obj : Type 0} (t : Layout Row Obj) : Type 0 where
  pub rows-put : (rows : List Row) (w : World) → t.rows (t.put rows w) ≡ rows
  pub blind_statements : (w : World) (n : ℕ) → t.rows (record w { statements = n }) ≡ t.rows w
  pub blind_drawn : (w : World) (n : ℕ) → t.rows (record w { drawn = n }) ≡ t.rows w
  pub statements-put : (rows : List Row) (w : World) → (t.put rows w).statements ≡ w.statements
  pub overwrite_key :
      (new old : Row)
      → t.namespace old ≡ t.namespace new
      → t.name old ≡ t.name new
      → (t.namespace (t.overwrite new old) ≡ t.namespace new)
        × (t.name (t.overwrite new old) ≡ t.name new)

module _ {Row Obj : Type 0} (t : Layout Row Obj) (laws : LayoutLaws t) where
  pub has_key_iff :
      (ns name : String) (r : Row)
      → (has_key t ns name r ≡ true) ↔ ((t.namespace r ≡ ns) × (t.name r ≡ name))
  unfolding has_key
  has_key_iff ns name r = (
    λ h. ((eq_iff (t.namespace r) ns).0 (ground arith), (eq_iff (t.name r) name).0 (ground arith)),
    λ (e, f). ground (arith, (eq_iff (t.namespace r) ns).1 e, (eq_iff (t.name r) name).1 f),
  )

  -- Rows of one key answer to the same keys.
  same_key :
      (ns name : String) (q r : Row)
      → t.namespace r ≡ t.namespace q
      → t.name r ≡ t.name q
      → has_key t ns name r ≡ has_key t ns name q
  unfolding has_key
  same_key ns name q r e f = rw (e, f) refl

  abbrev pub merged : Row → Option Row → Row
  merged new none = new
  merged new (some old) = t.overwrite new old

  find-replace :
      (ns name : String) (new : Row) (rows : List Row)
      → find (has_key t ns name) (
          map
            (λ old.
              if has_key t (t.namespace new) (t.name new) old then t.overwrite new old else old)
            rows)
        ≡ (if has_key t ns name new
            then map_or (find (has_key t ns name) rows) none (λ old. some (t.overwrite new old))
            else find (has_key t ns name) rows)
  find-replace ns name new [] = ground arith
  find-replace ns name new (old ∷ rows) =
      elim (Bool-cases (has_key t (t.namespace new) (t.name new) old)) [
        | inl k ↦
            let (e, f) = (has_key_iff (t.namespace new) (t.name new) old).0 k in
            let (g, h) = laws.overwrite_key new old e f in
            let a = same_key ns name new (t.overwrite new old) g h in
            let b = same_key ns name new old e f in
            rw k (ground (arith, find-replace ns name new rows))
        | inr k ↦ rw k (elim (Bool-cases (has_key t ns name new)) [
          | inl n ↦
              let (e, f) = (has_key_iff ns name new).0 n in
              let other : has_key t ns name old ≡ false =
                ap (λ s. has_key t s name old) (sym e)
                ∙ ap (λ s. has_key t (t.namespace new) s old) (sym f)
                ∙ k in
              ground (arith, find-replace ns name new rows)
          | inr n ↦ ground (arith, find-replace ns name new rows)
        ])
      ]

  find-append :
      (p : Row → Bool) (new : Row) (rows : List Row)
      → find p (rows ++ new ∷ [])
        ≡ (if any p rows then find p rows else if p new then some new else none)
  find-append p new [] = ground arith
  find-append p new (r ∷ rows) = ground (arith, find-append p new rows)

  pub find-none : (p : Row → Bool) (rows : List Row) → any p rows ≡ false → find p rows ≡ none
  find-none p [] h = refl
  find-none p (r ∷ rows) h = ground (arith, find-none p rows)

  find-some :
      (p : Row → Bool) (rows : List Row) → any p rows ≡ true → (r : Row) × (find p rows ≡ some r)
  find-some p [] h = absurd (false≢true h)
  find-some p (r ∷ rows) h = elim (Bool-cases (p r)) [
    | inl e ↦ (r, ground arith)
    | inr e ↦ let (q, f) = find-some p rows (ground arith) in (q, ground arith)
  ]

  abbrev pub put_in : Row → List Row → Option (List Row)
  put_in = upsert (λ new. has_key t (t.namespace new) (t.name new)) t.uid t.overwrite

  upsert_cases :
      (new : Row) (rows after : List Row)
      → put_in new rows ≡ some after
      → ((any (has_key t (t.namespace new) (t.name new)) rows ≡ true)
          × (map
                (λ old.
                  if has_key t (t.namespace new) (t.name new) old then t.overwrite new old else old)
                rows
              ≡ after))
        ⊎ ((any (has_key t (t.namespace new) (t.name new)) rows ≡ false)
            × (rows ++ new ∷ [] ≡ after))
  unfolding upsert
  upsert_cases new rows after h =
      elim (Bool-cases (any (has_key t (t.namespace new) (t.name new)) rows)) [
        | inl e ↦ inl (e, some-injective _ _ (rw e at h))
        | inr e ↦ elim (Bool-cases (any (λ row. eqb (t.uid row) (t.uid new)) rows)) [
          | inl u ↦ absurd (none-ne-some _ (rw (e, u) at h))
          | inr u ↦ inr (e, some-injective _ _ (rw (e, u) at h))
        ]
      ]

  same_rows :
      (ns name : String) (new : Row) (rows : List Row)
      → has_key t ns name new ≡ true
      → (any (has_key t (t.namespace new) (t.name new)) rows ≡ any (has_key t ns name) rows)
        × (find (has_key t (t.namespace new) (t.name new)) rows ≡ find (has_key t ns name) rows)
  same_rows ns name new rows h =
      let (e, f) = (has_key_iff ns name new).0 h in
      (λ i. any (has_key t (e i) (f i)) rows, λ i. find (has_key t (e i) (f i)) rows)

  -- The upsert gives the new row's key the merged row, and leaves every other key its row.
  pub find-upsert :
      (new : Row) (rows after : List Row)
      → put_in new rows ≡ some after
      → (ns name : String)
      → find (has_key t ns name) after ≡ (
          if has_key t ns name new
          then some (merged new (find (has_key t ns name) rows))
          else find (has_key t ns name) rows)
  find-upsert new rows after h ns name = elim (Bool-cases (has_key t ns name new)) [
    | inl k ↦
        let (anys, finds) = same_rows ns name new rows k in
        elim (upsert_cases new rows after h) [
          | inl (e, f) ↦
              let (r, found) = find-some (has_key t ns name) rows (sym anys ∙ e) in
              rw (← f, k, find-replace ns name new rows, k, found) refl
          | inr (e, f) ↦
              let none_there = sym anys ∙ e in
              rw
                (
                  ← f,
                  k,
                  find-append (has_key t ns name) new rows,
                  none_there,
                  k,
                  find-none (has_key t ns name) rows none_there,
                )
                refl
        ]
    | inr k ↦ elim (upsert_cases new rows after h) [
      | inl (e, f) ↦ rw (← f, find-replace ns name new rows, k) refl
      | inr (e, f) ↦ elim (Bool-cases (any (has_key t ns name) rows)) [
        | inl a ↦ rw (← f, k, find-append (has_key t ns name) new rows, a) refl
        | inr a ↦
            rw
              (
                ← f,
                k,
                find-append (has_key t ns name) new rows,
                a,
                k,
                find-none (has_key t ns name) rows a,
              )
              refl
      ]
    ]
  ]

  pub find-filter :
      (ns name n k : String) (rows : List Row)
      → find (has_key t n k) (filter (λ row. not (has_key t ns name row)) rows)
        ≡ (if ns == n && name == k then none else find (has_key t n k) rows)
  unfolding has_key
  find-filter ns name n k [] = ground arith
  find-filter ns name n k (r ∷ rows) = ground (
    arith,
    find-filter ns name n k rows,
    eq_iff (t.namespace r) ns,
    eq_iff (t.name r) name,
    eq_iff (t.namespace r) n,
    eq_iff (t.name r) k,
    eq_iff ns n,
    eq_iff name k,
  )

  pub find-map :
      (change : Row → Row) (ns name n k : String) (rows : List Row)
      → ((row : Row)
          → (t.namespace (change row) ≡ t.namespace row) × (t.name (change row) ≡ t.name row))
      → find (has_key t n k) (map (λ row. if has_key t ns name row then change row else row) rows)
        ≡ (if ns == n && name == k
            then map_or (find (has_key t n k) rows) none (λ row. some (change row))
            else find (has_key t n k) rows)
  unfolding has_key
  find-map change ns name n k [] keeps = ground arith
  find-map change ns name n k (r ∷ rows) keeps =
      let (kn, kk) = keeps r in
      ground (
        arith,
        kn,
        kk,
        find-map change ns name n k rows keeps,
        eq_iff (t.namespace r) ns,
        eq_iff (t.name r) name,
        eq_iff (t.namespace r) n,
        eq_iff (t.name r) k,
        eq_iff ns n,
        eq_iff name k,
      )
