-- ===== src/PodRepository/Keyed.antt =====
-- Which keys the methods of `PodRepository` leave alone, whatever the database refuses.
use superkube.Base.{
  ◌+◌, ◌≡◌, refl, sym, ap, ◌∙◌, String, Bool, true, false, ◌&&◌, not, Option, none, some, List, [],
  ◌∷◌, ◌==◌, eq_iff, if◌then◌else◌, Bool-cases, inl, inr, find, any, filter, eqb, ◌⊎◌, map_or,
  Option-cases, arith,
}
use mathlib.Core.Option.{some-injective, none-ne-some}
use superkube.Models.Meta.{Uuid, DateTime, name_of, namespace_of}
use superkube.Models.Pod.{Pod, phase_text}
use superkube.Store.{Env, World, Action, uid_or_new, query, now, ◌>>◌}
use superkube.Store.Rows.{Json, PodRow}
use superkube.Store.Frame.{Keeps, bind-Keeps, query-Keeps, uid_or_new-Keeps}
use superkube.PodRepository.{has_key, upsert, insert_pod, store_rows, get_pod, create, delete}
use superkube.PodRepository.Conversions.{to_row}
use superkube.PodRepository.Upsert.{find-upsert, upsert-some, merged, has_key_iff, find-none}
use superkube.PodRepository.Reading.{pods_of, get_pod-Keeps}
use superkube.PodRepository.Removal.{delete_lem, find-filter}

-- The row of a key.
abbrev pub row_at : String → String → World → Option PodRow
row_at ns name w = find (has_key ns name) w.pods

-- The columns of the row that is written.
pub to_row-columns :
    (j : Json) (pod : Pod) (uid : Uuid) (time : DateTime) (row : PodRow)
    → to_row j pod uid time ≡ some row
    → (row.namespace ≡ namespace_of pod.metadata)
      × (row.name ≡ name_of pod.metadata)
      × (row.status ≡ map_or pod.status "Pending" (λ s. phase_text s.phase))
      × (row.node_name ≡ pod.spec.node_name)
      × (row.uid ≡ uid)
unfolding to_row
to_row-columns j pod uid time row h =
    elim (Option-cases (j.labels.encode_option pod.metadata.labels)) [
      | inl x ↦ absurd (none-ne-some _ (rw x at h))
      | inr (_, x) ↦ elim (Option-cases (j.labels.encode_option pod.metadata.annotations)) [
        | inl y ↦ absurd (none-ne-some _ (rw (x, y) at h))
        | inr (_, y) ↦ elim (Option-cases (j.spec.encode pod.spec)) [
          | inl z ↦ absurd (none-ne-some _ (rw (x, y, z) at h))
          | inr (_, z) ↦
              elim (Option-cases (j.owners.encode_option pod.metadata.owner_references)) [
                | inl v ↦ absurd (none-ne-some _ (rw (x, y, z, v) at h))
                | inr (_, v) ↦
                    let same = some-injective _ _ (rw (x, y, z, v) at h) in
                    (
                      ap (λ r. r.namespace) (sym same),
                      ap (λ r. r.name) (sym same),
                      ap (λ r. r.status) (sym same),
                      ap (λ r. r.node_name) (sym same),
                      ap (λ r. r.uid) (sym same),
                    )
              ]
        ]
      ]
    ]

module _ (e : Env) (j : Json) (n k : String) where
  -- What leaves the whole table alone leaves a key alone.
  pub untouched : {A : Type 0} (m : Action A) → Keeps pods_of m → Keeps (row_at n k) m
  untouched m keeps w = ap (find (has_key n k)) (keeps w)

  store_rows-Keeps :
      (row : PodRow) (w : World) (after : Option (List PodRow))
      → upsert row w.pods ≡ after
      → has_key n k row ≡ false
      → row_at n k (store_rows after w).1 ≡ row_at n k w
  unfolding store_rows
  store_rows-Keeps row w none up other = refl
  store_rows-Keeps row w (some rows) up other = find-upsert row w.pods rows up n k ∙ rw other refl

  insert_pod-Keeps :
      (o : Option PodRow)
      → ((row : PodRow) → o ≡ some row → has_key n k row ≡ false)
      → Keeps (row_at n k) (insert_pod e j o)
  unfolding insert_pod
  insert_pod-Keeps none other = λ w. refl
  insert_pod-Keeps (some row) other =
      bind-Keeps (row_at n k) (query e) (λ _ w. store_rows (upsert row w.pods) w)
        (query-Keeps (row_at n k) e (λ w m. refl))
        (λ _ w. store_rows-Keeps row w (upsert row w.pods) refl (other row refl))

  pub create-Keeps :
      (pod : Pod)
      → (namespace_of pod.metadata == n && name_of pod.metadata == k) ≡ false
      → Keeps (row_at n k) (create e j pod)
  unfolding create has_key
  create-Keeps pod other =
      let back = get_pod e j (namespace_of pod.metadata) (name_of pod.metadata) in
      let put : Uuid → Action (Unit {0}) = λ uid w. insert_pod e j (to_row j pod uid (now e w)) w in
      bind-Keeps (row_at n k) (uid_or_new e pod.metadata.uid) (λ uid. put uid >> back)
        (uid_or_new-Keeps (row_at n k) e (λ w m. refl) pod.metadata.uid)
        (λ uid.
          bind-Keeps (row_at n k) (put uid) (λ _. back)
            (λ w.
              insert_pod-Keeps (to_row j pod uid (now e w))
                (λ row h.
                  let (a, b, _, _, _) = to_row-columns j pod uid (now e w) row h in rw (a, b) other)
                w)
            (λ _. untouched back (get_pod-Keeps e j _ _)))

  pub delete-Keeps :
      (ns name : String) → (ns == n && name == k) ≡ false → Keeps (row_at n k) (delete e j ns name)
  delete-Keeps ns name other w = elim (delete_lem e j ns name w) [
    | inl (_, _, same) ↦ ap (find (has_key n k)) same
    | inr (inl (_, _, same)) ↦ ap (find (has_key n k)) same
    | inr (inr (_, views)) ↦ views n k ∙ rw other refl
  ]

module _ (e : Env) (j : Json) where
  -- A creation that the database takes, of a pod with a uid, where the pod's key is in the table or
  -- the uid is not, gives the key the row.
  pub create-row :
      (pod : Pod) (uid : Uuid) (row : PodRow) (w : World)
      → pod.metadata.uid ≡ some uid
      → e.faults w.statements ≡ false
      → to_row j pod uid (e.clock w.statements) ≡ some row
      → (any (has_key row.namespace row.name) w.pods ≡ true)
        ⊎ (any (λ r. eqb r.uid row.uid) w.pods ≡ false)
      → row_at (namespace_of pod.metadata) (name_of pod.metadata) (create e j pod w).1
        ≡ some (merged row (row_at (namespace_of pod.metadata) (name_of pod.metadata) w))
  unfolding create insert_pod uid_or_new query store_rows to_row
  create-row pod uid row w u f h free =
      let ns = namespace_of pod.metadata in
      let name = name_of pod.metadata in
      let (after, up) = upsert-some row w.pods free in
      let w1 = record w { statements = w.statements + 1; pods = after } in
      let (a, b, _, _, _) = to_row-columns j pod uid (e.clock w.statements) row h in
      rw (u, h, f, up)
        (untouched e j ns name (get_pod e j ns name) (get_pod-Keeps e j ns name) w1
          ∙ find-upsert row w.pods after up ns name
          ∙ rw ((has_key_iff ns name row).1 (a, b)) refl)

  any-filter :
      (p q : PodRow → Bool) (rows : List PodRow)
      → any p rows ≡ false
      → any p (filter q rows) ≡ false
  any-filter p q [] h = refl
  any-filter p q (r ∷ rows) h = ground (arith, any-filter p q rows)

  -- A deletion that the database takes leaves no row of the key, and brings no uid.
  pub delete-gone :
      (ns name : String) (uid : Uuid) (w : World)
      → e.faults w.statements ≡ false
      → any (λ r. eqb r.uid uid) w.pods ≡ false
      → (after : List PodRow) × ((delete e j ns name w).1
          ≡ record w { statements = w.statements + 1; pods = after })
        × (find (has_key ns name) after ≡ none)
        × (any (λ r. eqb r.uid uid) after ≡ false)
  unfolding delete query
  delete-gone ns name uid w f u = elim (Bool-cases (any (has_key ns name) w.pods)) [
    | inl a ↦ (
      filter (λ row. not (has_key ns name row)) w.pods,
      rw (f, a) refl,
      find-filter ns name ns name w.pods
          ∙ rw ((eq_iff ns ns).1 refl, (eq_iff name name).1 refl) refl,
      any-filter (λ r. eqb r.uid uid) (λ row. not (has_key ns name row)) w.pods u,
    )
    | inr a ↦ (w.pods, rw (f, a) refl, find-none (has_key ns name) w.pods a, u)
  ]

  -- A deletion that the database takes: the key has no row, and every other key its own.
  pub delete-view :
      (ns name n k : String) (w : World)
      → e.faults w.statements ≡ false
      → row_at n k (delete e j ns name w).1 ≡ (if ns == n && name == k then none else row_at n k w)
  unfolding delete query
  delete-view ns name n k w f = elim (Bool-cases (any (has_key ns name) w.pods)) [
    | inl a ↦ rw (f, a) (find-filter ns name n k w.pods)
    | inr a ↦ elim (Bool-cases (ns == n && name == k)) [
      | inr other ↦ rw (f, a, other) refl
      | inl key ↦
          let e1 : ns ≡ n = (eq_iff ns n).0 (ground arith) in
          let e2 : name ≡ k = (eq_iff name k).0 (ground arith) in
          rw (f, a, key, ← e1, ← e2) (find-none (has_key ns name) w.pods a)
    ]
  ]
