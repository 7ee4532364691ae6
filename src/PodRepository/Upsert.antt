-- ===== src/PodRepository/Upsert.antt =====
-- What the upsert of `PodRepository::create` does to the table: which row each key has afterwards.
use superkube.Base.{
  ◌≡◌, refl, sym, ◌∙◌, String, Bool, true, false, false≢true, ◌↔◌, ◌⊎◌, Option, none, some, List,
  [], ◌∷◌, ◌++◌, eq_iff, if◌then◌else◌, Bool-cases, any, find, map_or, inl, inr, arith, eqb,
}
use mathlib.Core.Option.{some-injective, none-ne-some}
use superkube.Store.Rows.{PodRow}
use superkube.PodRepository.{has_key, overwrite, replace_row, upsert}

pub has_key_iff :
    (ns name : String) (r : PodRow)
    → (has_key ns name r ≡ true) ↔ ((r.namespace ≡ ns) × (r.name ≡ name))
unfolding has_key
has_key_iff ns name r = (
  λ h. ((eq_iff r.namespace ns).0 (ground arith), (eq_iff r.name name).0 (ground arith)),
  λ (e, f). ground (arith, (eq_iff r.namespace ns).1 e, (eq_iff r.name name).1 f),
)

-- A row of the same key answers to the same keys.
same_key :
    (ns name : String) (q r : PodRow)
    → has_key q.namespace q.name r ≡ true
    → has_key ns name r ≡ has_key ns name q
unfolding has_key
same_key ns name q r h = let (e, f) = (has_key_iff q.namespace q.name r).0 h in cc (e, f)

-- Rows that both have the key `ns`, `name` have each other's key.
meet_key :
    (ns name : String) (q r : PodRow)
    → has_key ns name q ≡ true
    → has_key ns name r ≡ has_key q.namespace q.name r
unfolding has_key
meet_key ns name q r h = let (e, f) = (has_key_iff ns name q).0 h in cc (e, f)

pub find-replace_row :
    (ns name : String) (new : PodRow) (rows : List PodRow)
    → find (has_key ns name) (replace_row new rows) ≡ (
        if has_key ns name new
        then map_or (find (has_key ns name) rows) none (λ old. some (overwrite new old))
        else find (has_key ns name) rows)
unfolding replace_row overwrite
find-replace_row ns name new [] = ground arith
find-replace_row ns name new (old ∷ rows) =
    ground
      (arith, find-replace_row ns name new rows, same_key ns name new old, meet_key ns name new old)

find-append :
    (p : PodRow → Bool) (new : PodRow) (rows : List PodRow)
    → find p (rows ++ new ∷ [])
      ≡ (if any p rows then find p rows else if p new then some new else none)
find-append p new [] = ground arith
find-append p new (r ∷ rows) = ground (arith, find-append p new rows)

pub find-none : (p : PodRow → Bool) (rows : List PodRow) → any p rows ≡ false → find p rows ≡ none
find-none p [] h = refl
find-none p (r ∷ rows) h = ground (arith, find-none p rows)

pub find-some :
    (p : PodRow → Bool) (rows : List PodRow)
    → any p rows ≡ true
    → (r : PodRow) × (find p rows ≡ some r)
find-some p [] h = absurd (false≢true h)
find-some p (r ∷ rows) h = elim (Bool-cases (p r)) [
  | inl e ↦ (r, ground arith)
  | inr e ↦ let (q, f) = find-some p rows (ground arith) in (q, ground arith)
]

-- The row of the key after the upsert of `new`, given the row before.
abbrev pub merged : PodRow → Option PodRow → PodRow
merged new none = new
merged new (some old) = overwrite new old

upsert_cases :
    (new : PodRow) (rows after : List PodRow)
    → upsert new rows ≡ some after
    → ((any (has_key new.namespace new.name) rows ≡ true) × (replace_row new rows ≡ after))
      ⊎ ((any (has_key new.namespace new.name) rows ≡ false) × (rows ++ new ∷ [] ≡ after))
unfolding upsert
upsert_cases new rows after h = elim (Bool-cases (any (has_key new.namespace new.name) rows)) [
  | inl e ↦ inl (e, some-injective _ _ (rw e at h))
  | inr e ↦ elim (Bool-cases (any (λ row. eqb row.uid new.uid) rows)) [
    | inl u ↦ absurd (none-ne-some _ (rw (e, u) at h))
    | inr u ↦ inr (e, some-injective _ _ (rw (e, u) at h))
  ]
]

-- The two tests for one key agree on all rows.
same_rows :
    (ns name : String) (new : PodRow) (rows : List PodRow)
    → has_key ns name new ≡ true
    → (any (has_key new.namespace new.name) rows ≡ any (has_key ns name) rows)
      × (find (has_key new.namespace new.name) rows ≡ find (has_key ns name) rows)
same_rows ns name new rows h =
    let (e, f) = (has_key_iff ns name new).0 h in
    (λ i. any (has_key (e i) (f i)) rows, λ i. find (has_key (e i) (f i)) rows)

-- The upsert gives the new row's key the merged row, and leaves every other key its row.
pub find-upsert :
    (new : PodRow) (rows after : List PodRow)
    → upsert new rows ≡ some after
    → (ns name : String)
    → find (has_key ns name) after ≡ (
        if has_key ns name new
        then some (merged new (find (has_key ns name) rows))
        else find (has_key ns name) rows)
unfolding upsert
find-upsert new rows after h ns name = elim (Bool-cases (has_key ns name new)) [
  | inl k ↦
      let (anys, finds) = same_rows ns name new rows k in
      elim (upsert_cases new rows after h) [
        | inl (e, f) ↦
            let (r, found) = find-some (has_key ns name) rows (sym anys ∙ e) in
            rw (← f, k, find-replace_row ns name new rows, k, found) refl
        | inr (e, f) ↦
            let none_there = sym anys ∙ e in
            rw
              (
                ← f,
                k,
                find-append (has_key ns name) new rows,
                none_there,
                k,
                find-none (has_key ns name) rows none_there,
              )
              refl
      ]
  | inr k ↦ elim (upsert_cases new rows after h) [
    | inl (e, f) ↦ rw (← f, find-replace_row ns name new rows, k) refl
    | inr (e, f) ↦ elim (Bool-cases (any (has_key ns name) rows)) [
      | inl a ↦ rw (← f, k, find-append (has_key ns name) new rows, a) refl
      | inr a ↦
          rw
            (
              ← f,
              k,
              find-append (has_key ns name) new rows,
              a,
              k,
              find-none (has_key ns name) rows a,
            )
            refl
    ]
  ]
]

-- The upsert is refused only where a new row would have the uid of another one.
pub upsert-some :
    (new : PodRow) (rows : List PodRow)
    → (any (has_key new.namespace new.name) rows ≡ true)
      ⊎ (any (λ row. eqb row.uid new.uid) rows ≡ false)
    → (after : List PodRow) × (upsert new rows ≡ some after)
unfolding upsert
upsert-some new rows (inl e) = (replace_row new rows, rw e refl)
upsert-some new rows (inr u) = elim (Bool-cases (any (has_key new.namespace new.name) rows)) [
  | inl e ↦ (replace_row new rows, rw e refl)
  | inr e ↦ (rows ++ new ∷ [], rw (e, u) refl)
]
