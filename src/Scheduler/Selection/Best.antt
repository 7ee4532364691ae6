-- ===== src/Scheduler/Selection/Best.antt =====
-- What `find_node_for_pod` returns: a node that the pod may be bound to, of the highest score, and
-- of those with that score the last.
use superkube.Base.{
  ◌≡◌, ◌↔◌, ◌⊎◌, inl, inr, refl, sym, ap, ◌∙◌, subst, Bool, true, false≢true, none, some, List, [],
  ◌∷◌, ◌++◌, map, filter, All, ℤ, ◌≤ℤ◌, ltb_ℤ, Bool-cases, and_then, arith,
}
use mathlib.Core.Option.{some-injective}
use superkube.Models.Node.{Node}
use superkube.Models.Pod.{Pod}
use superkube.Scheduler.Float.{F64}
use superkube.Scheduler.Usage.{ScoringStrategy}
use superkube.Scheduler.Labels.Meaning.{◌<ℤ◌}
use superkube.Scheduler.Selection.{max_from, max_by_key, is_candidate, score_for, find_node_for_pod}
use superkube.Scheduler.Selection.Feasible.{IsFeasible, is_candidate_iff}

module _ {A : Type 0} (s : A → ℤ) where
  abbrev scored : A → A × ℤ
  scored a = (a, s a)

  -- `r` is the last of the best among `b` and the list behind it.
  abbrev Wins : A → List A → A × ℤ → Type 0
  Wins b xs r =
      (r.1 ≡ s r.0)
      × (((r.0 ≡ b) × All (λ x. s x <ℤ s b) xs)
          ⊎ ((before : List A) × (after : List A) × (xs ≡ before ++ r.0 ∷ after)
              × (s b ≤ℤ s r.0)
              × All (λ x. s x ≤ℤ s r.0) before
              × All (λ x. s x <ℤ s r.0) after))

  keeps : (b x : A) (xs : List A) (r : A × ℤ) → s x <ℤ s b → Wins b xs r → Wins b (x ∷ xs) r
  keeps b x xs r less (value, w) = elim w [
    | inl (e, below) ↦ (value, inl (e, (less, below)))
    | inr (before, after, split, b_le, le, lt) ↦
        (value, inr (x ∷ before, after, ap (◌∷◌ x) split, b_le, (omega arith, le), lt))
  ]

  yields : (b x : A) (xs : List A) (r : A × ℤ) → s b ≤ℤ s x → Wins x xs r → Wins b (x ∷ xs) r
  yields b x xs r more (value, w) = elim w [
    | inl (e, below) ↦ (value, inr ([], xs, ap (λ h. h ∷ xs) (sym e), rw e more, tt, rw e below))
    | inr (before, after, split, x_le, le, lt) ↦
        (value, inr (x ∷ before, after, ap (◌∷◌ x) split, omega arith, (x_le, le), lt))
  ]

  max_from-Wins : (b : A) (xs : List A) → Wins b xs (max_from (scored b) (map scored xs))
  unfolding max_from
  max_from-Wins b [] = (refl, inl (refl, tt))
  max_from-Wins b (x ∷ xs) = elim (Bool-cases (ltb_ℤ (s x) (s b))) [
    | inl less ↦
        rw (less, max_from)
          (keeps b x xs (max_from (scored b) (map scored xs)) (ground arith) (max_from-Wins b xs))
    | inr more ↦
        rw (more, max_from)
          (yields b x xs (max_from (scored x) (map scored xs)) (ground arith) (max_from-Wins x xs))
  ]

  -- Where the winner stands in a list, and how it compares with the others.
  record IsLastBest (xs : List A) (a : A) : Type 0 where
    before : List A
    after : List A
    split : xs ≡ before ++ a ∷ after
    le_before : All (λ x. s x ≤ℤ s a) before
    lt_after : All (λ x. s x <ℤ s a) after

  max_by_key-IsLastBest :
      (xs : List A) (a : A)
      → and_then (max_by_key (map scored xs)) (λ best. some best.0) ≡ some a
      → IsLastBest xs a
  unfolding max_by_key
  max_by_key-IsLastBest [] a h = cc
  max_by_key-IsLastBest (b ∷ xs) a h =
      subst (IsLastBest (b ∷ xs)) (some-injective _ _ h) (elim (max_from-Wins b xs).1 [
        | inl (e, below) ↦ record {
          before = [];
          after = xs;
          split = ap (λ h. h ∷ xs) (sym e);
          le_before = tt;
          lt_after = rw e below;
        }
        | inr (before, after, split, b_le, le, lt) ↦ record {
          before = b ∷ before;
          after = after;
          split = ap (◌∷◌ b) split;
          le_before = (b_le, le);
          lt_after = lt;
        }
      ])

  max_by_key_none :
      (xs : List A) → and_then (max_by_key (map scored xs)) (λ best. some best.0) ≡ none → xs ≡ []
  unfolding max_by_key
  max_by_key_none [] h = refl
  max_by_key_none (b ∷ xs) h = cc

-- From what `filter` keeps back to the whole list.
module _ {A : Type 0} (p : A → Bool) where
  All-filter {κ} :
      (Q : A → Type κ) (xs : List A) → All Q (filter p xs) → All (λ x. p x ≡ true → Q x) xs
  All-filter Q [] h = tt
  All-filter Q (x ∷ xs) h = elim (Bool-cases (p x)) [
    | inl kept ↦ let t = rw kept at h in ((λ _. t.0), All-filter Q xs t.1)
    | inr out ↦ ((λ k. absurd (false≢true (sym out ∙ k))), All-filter Q xs (rw out at h))
  ]

  abbrev Splits : List A → List A → List A → A → Type 0
  Splits xs ys zs a =
      (us : List A) × (vs : List A) × (xs ≡ us ++ a ∷ vs)
      × (filter p us ≡ ys)
      × (filter p vs ≡ zs)
      × (p a ≡ true)

  filter_split : (xs ys zs : List A) (a : A) → filter p xs ≡ ys ++ a ∷ zs → Splits xs ys zs a
  filter_split [] [] zs a h = cc
  filter_split [] (y ∷ ys) zs a h = cc
  filter_split (x ∷ xs) [] zs a h = elim (Bool-cases (p x)) [
    | inr out ↦
        let (us, vs, e, l, r, ok) = filter_split xs [] zs a (rw out at h) in
        (x ∷ us, vs, ap (◌∷◌ x) e, rw out l, r, ok)
    | inl kept ↦
        let e : x ∷ filter p xs ≡ a ∷ zs = rw kept at h in
        let same : x ≡ a = cc in ([], xs, ap (λ k. k ∷ xs) same, refl, cc, sym (ap p same) ∙ kept)
  ]
  filter_split (x ∷ xs) (y ∷ ys) zs a h = elim (Bool-cases (p x)) [
    | inr out ↦
        let (us, vs, e, l, r, ok) = filter_split xs (y ∷ ys) zs a (rw out at h) in
        (x ∷ us, vs, ap (◌∷◌ x) e, rw out l, r, ok)
    | inl kept ↦
        let eq : x ∷ filter p xs ≡ y ∷ (ys ++ a ∷ zs) = rw kept at h in
        let (us, vs, e, l, r, ok) = filter_split xs ys zs a (cc) in
        (x ∷ us, vs, ap (◌∷◌ x) e, rw kept (cc), r, ok)
  ]

  filter_empty : (xs : List A) → filter p xs ≡ [] → All (λ x. ¬ (p x ≡ true)) xs
  filter_empty [] h = tt
  filter_empty (x ∷ xs) h = elim (Bool-cases (p x)) [
    | inl kept ↦ cc (rw kept at h)
    | inr out ↦ ((λ k. false≢true (sym out ∙ k)), filter_empty xs (rw out at h))
  ]

  empty_filter : (xs : List A) → All (λ x. ¬ (p x ≡ true)) xs → filter p xs ≡ []
  empty_filter [] h = refl
  empty_filter (x ∷ xs) h = elim (Bool-cases (p x)) [
    | inl kept ↦ absurd (h.0 kept)
    | inr out ↦ rw out (empty_filter xs h.1)
  ]

All-map {κ μ} :
    {A : Type 0} {P : A → Type κ} {Q : A → Type μ}
    → ((a : A) → P a → Q a)
    → (xs : List A) → All P xs
    → All Q xs
All-map f [] h = tt
All-map f (x ∷ xs) h = (f x h.0, All-map f xs h.1)

module _ (f : F64) (pod : Pod) (nodes : List Node) (existing : List Pod)
    (strategy : ScoringStrategy) where
  abbrev score : Node → ℤ
  score = score_for f pod existing strategy

  -- `n` is in the list, the pod may be bound to it, and every other node that the pod may be bound
  -- to has no higher score, and a lower one if it stands behind `n`.
  pub record IsChosen (n : Node) : Type 0 where
    pub before : List Node
    pub after : List Node
    pub split : nodes ≡ before ++ n ∷ after
    pub feasible : IsFeasible f pod nodes existing n
    pub best_before : All (λ m. IsFeasible f pod nodes existing m → score m ≤ℤ score n) before
    pub best_after : All (λ m. IsFeasible f pod nodes existing m → score m <ℤ score n) after

  abbrev tests : Node → Bool
  tests = is_candidate f pod nodes existing

  -- A node that `find_node_for_pod` returns is the last of the best nodes for the pod.
  pub find_node-IsChosen :
      (n : Node) → find_node_for_pod f pod nodes existing strategy ≡ some n → IsChosen n
  unfolding find_node_for_pod
  find_node-IsChosen n h =
      let best = max_by_key-IsLastBest score (filter tests nodes) n h in
      let (us, vs, e, l, r, ok) = filter_split tests nodes best.before best.after n best.split in
      let means = λ (m : Node). is_candidate_iff f pod nodes existing m in
      record {
        before = us;
        after = vs;
        split = e;
        feasible = (means n).0 ok;
        best_before =
            All-map (λ m q v. q ((means m).1 v)) us (All-filter tests _ us (rw l best.le_before));
        best_after =
            All-map (λ m q v. q ((means m).1 v)) vs (All-filter tests _ vs (rw r best.lt_after));
      }

  -- It returns none exactly when the pod may be bound to no node of the list.
  pub find_node_none_iff :
      (find_node_for_pod f pod nodes existing strategy ≡ none)
      ↔ All (λ m. ¬ IsFeasible f pod nodes existing m) nodes
  unfolding find_node_for_pod
  find_node_none_iff =
      let means = λ (m : Node). is_candidate_iff f pod nodes existing m in
      (
        λ h.
            All-map (λ m q v. q ((means m).1 v)) nodes
              (filter_empty tests nodes (max_by_key_none score (filter tests nodes) h)),
        λ h.
            rw
              (empty_filter tests nodes (All-map (λ m q k. q ((means m).0 k)) nodes h), max_by_key),
      )
