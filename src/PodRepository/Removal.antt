-- ===== src/PodRepository/Removal.antt =====
-- What `PodRepository::delete` returns and leaves in the table.
use superkube.Base.{
  ◌≡◌, refl, String, true, ◌&&◌, not, none, List, [], ◌∷◌, ◌==◌, eq_iff, if◌then◌else◌, Bool-cases,
  inl, inr, any, find, filter, arith, ◌⊎◌,
}
use superkube.Store.{Env, World, Result, ok, err, database, query}
use superkube.Store.Rows.{PodRow, Json}
use superkube.PodRepository.{has_key, delete, missing}
use superkube.PodRepository.Upsert.{find-none}

pub find-filter :
    (ns name n k : String) (rows : List PodRow)
    → find (has_key n k) (filter (λ row. not (has_key ns name row)) rows)
      ≡ (if ns == n && name == k then none else find (has_key n k) rows)
unfolding has_key
find-filter ns name n k [] = ground arith
find-filter ns name n k (r ∷ rows) = ground (
  arith,
  find-filter ns name n k rows,
  eq_iff r.namespace ns,
  eq_iff r.name name,
  eq_iff r.namespace n,
  eq_iff r.name k,
  eq_iff ns n,
  eq_iff name k,
)

-- The three ways in which `delete` ends.
abbrev pub Deleted : Env → String → String → World → Result (Unit {0}) × World → Type 0
Deleted e ns name w (r, w') =
    ((e.faults w.statements ≡ true) × (r ≡ err database) × (w'.pods ≡ w.pods))
    ⊎ (((find (has_key ns name) w.pods ≡ none) × (r ≡ err (missing name)) × (w'.pods ≡ w.pods))
        ⊎ ((r ≡ ok tt)
            × ((n k : String)
                → find (has_key n k) w'.pods
                  ≡ (if ns == n && name == k then none else find (has_key n k) w.pods))))

module _ (e : Env) (j : Json) where
  -- `delete` either is refused, or finds no row of the key and says so, both without a change to
  -- the table, or it succeeds: then the key has no row any more, and every other key its row.
  pub delete_lem : (ns name : String) (w : World) → Deleted e ns name w (delete e j ns name w)
  unfolding delete query
  delete_lem ns name w = elim (Bool-cases (e.faults w.statements)) [
    | inl f ↦ inl (f, rw f refl, rw f refl)
    | inr f ↦ elim (Bool-cases (any (has_key ns name) w.pods)) [
      | inl a ↦ inr (inr (rw (f, a) refl, λ n k. rw (f, a) (find-filter ns name n k w.pods)))
      | inr a ↦ inr (inl (find-none (has_key ns name) w.pods a, rw (f, a) refl, rw (f, a) refl))
    ]
  ]
