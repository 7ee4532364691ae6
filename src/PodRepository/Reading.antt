-- ===== src/PodRepository/Reading.antt =====
-- Reading a pod leaves the table.
use superkube.Base.{
  ◌+◌, refl, ap, ◌≡◌, false, String, Option, none, some, List, find, Bool-cases, Option-cases, inl,
  inr,
}
use mathlib.Core.Option.{some-injective, none-ne-some}
use superkube.Models.Pod.{Pod}
use superkube.PodRepository.Conversions.{row_to_pod}
use superkube.Store.{Env, World, ok, err, to_option, query}
use superkube.Store.Frame.{Keeps, bind-Keeps, query-Keeps}
use superkube.Store.Rows.{Json, PodRow}
use superkube.PodRepository.{has_key, get_pod, found_row, missing}

abbrev pub pods_of : World → List PodRow
pods_of w = w.pods

module _ (e : Env) (j : Json) where
  found_row-Keeps : (name : String) (row : Option PodRow) → Keeps pods_of (found_row j name row)
  unfolding found_row
  found_row-Keeps name none w = refl
  found_row-Keeps name (some row) w = refl

  pub get_pod-Keeps : (ns name : String) → Keeps pods_of (get_pod e j ns name)
  unfolding get_pod
  get_pod-Keeps ns name =
      bind-Keeps pods_of (query e) (λ _ w. found_row j name (find (has_key ns name) w.pods) w)
        (query-Keeps pods_of e (λ w n. refl))
        (λ _ w. found_row-Keeps name (find (has_key ns name) w.pods) w)

  -- A pod that `get` gives back is the row of its key.
  pub get_pod-found :
      (ns name : String) (w : World) (pod : Pod)
      → (get_pod e j ns name w).0 ≡ ok pod
      → (row : PodRow) × (find (has_key ns name) w.pods ≡ some row) × (row_to_pod j row ≡ pod)
  unfolding get_pod query found_row
  get_pod-found ns name w pod h = elim (Bool-cases (e.faults w.statements)) [
    | inl f ↦ absurd (none-ne-some _ (ap to_option (rw f at h)))
    | inr f ↦ elim (Option-cases (find (has_key ns name) w.pods)) [
      | inl x ↦ absurd (none-ne-some _ (ap to_option (rw (f, x) at h)))
      | inr (row, x) ↦ (row, x, some-injective _ _ (ap to_option (rw (f, x) at h)))
    ]
  ]

  -- `get`, where the database takes the statement.
  pub get_pod-some :
      (ns name : String) (w : World) (row : PodRow)
      → e.faults w.statements ≡ false
      → find (has_key ns name) w.pods ≡ some row
      → get_pod e j ns name w ≡ (ok (row_to_pod j row), record w { statements = w.statements + 1 })
  unfolding get_pod query found_row
  get_pod-some ns name w row f x = rw (f, x) refl

  pub get_pod-none :
      (ns name : String) (w : World)
      → e.faults w.statements ≡ false
      → find (has_key ns name) w.pods ≡ none
      → get_pod e j ns name w ≡ (err (missing name), record w { statements = w.statements + 1 })
  unfolding get_pod query found_row
  get_pod-none ns name w f x = rw (f, x) refl
