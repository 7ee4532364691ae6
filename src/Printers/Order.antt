-- ===== src/Printers/Order.antt =====
-- src/server/printers.rs: `entries.sort()`. The order of texts, and that sorting forgets the order
-- of what it sorts.
use native.Mathlib.Omega.{arith}
use superkube.Base.{
  ◌≡◌, refl, sym, ◌∙◌, false≢true, ap, String, Bool, true, false, List, [], ◌∷◌, if◌then◌else◌, eqb,
  ltb, ℕ, Map, some, map, Bool-cases, inl, inr, eq_iff, ◌==◌,
}
use Prim.Native.Char.{Char, code}
use Prim.Native.Nat.{Ordering, compare as compare_ℕ}
use Prim.Native.String.{compare, then}
use Prim.Native.String.compare
use package.text.Mathlib.Text.{is_le}
use package.text.Mathlib.TextEquality.{Char-path}
use mathlib.Core.List.{Perm, Permᴰ}
use mathlib.Core.HLevel.{hedberg}
use mathlib.Core.Logic.{∥∥₁_elim}
use superkube.Printers.Selectors.{not_after, insert_sorted, sort, selector_text, join, or_none}

le_by : ℕ → ℕ → Bool → Bool
le_by m n rest = if ltb m n then true else if eqb m n then rest else false

le_then : (m n : ℕ) (p : Ordering) → is_le ((then) (compare_ℕ m n) p) ≡ le_by m n (is_le p)
unfolding le_by
le_then m n p = ground arith

not_after-cons :
    (c d : Char) (s t : String)
    → not_after (String.◌∷◌ c s) (String.◌∷◌ d t) ≡ le_by (code c) (code d) (not_after s t)
unfolding not_after
not_after-cons c d s t =
    ap is_le (compare.cons-cons c d s t) ∙ le_then (code c) (code d) (compare s t)

not_after-nil : (t : String) → not_after String.[] t ≡ true
unfolding not_after
not_after-nil String.[] = ap is_le compare.nil-nil
not_after-nil (String.◌∷◌ d t) = ap is_le (compare.nil-cons d t)

cons-not_after : (c : Char) (s : String) → not_after (String.◌∷◌ c s) String.[] ≡ false
unfolding not_after
cons-not_after c s = ap is_le (compare.cons-nil c s)

total : (s t : String) → not_after s t ≡ false → not_after t s ≡ true
unfolding le_by
total String.[] t h = cc (h, not_after-nil t)
total (String.◌∷◌ c s) String.[] h = not_after-nil (String.◌∷◌ c s)
total (String.◌∷◌ c s) (String.◌∷◌ d t) h =
    ground (arith, not_after-cons c d s t, not_after-cons d c t s, total s t)

trans : (s t u : String) → not_after s t ≡ true → not_after t u ≡ true → not_after s u ≡ true
unfolding le_by
trans String.[] t u h k = not_after-nil u
trans (String.◌∷◌ c s) String.[] u h k = absurd (false≢true (sym (cons-not_after c s) ∙ h))
trans (String.◌∷◌ c s) (String.◌∷◌ d t) String.[] h k =
    absurd (false≢true (sym (cons-not_after d t) ∙ k))
trans (String.◌∷◌ c s) (String.◌∷◌ d t) (String.◌∷◌ e u) h k =
    ground
      (arith, not_after-cons c d s t, not_after-cons d e t u, not_after-cons c e s u, trans s t u)

antisym : (s t : String) → not_after s t ≡ true → not_after t s ≡ true → s ≡ t
unfolding le_by
antisym String.[] String.[] h k = refl
antisym String.[] (String.◌∷◌ d t) h k = absurd (false≢true (sym (cons-not_after d t) ∙ k))
antisym (String.◌∷◌ c s) String.[] h k = absurd (false≢true (sym (cons-not_after c s) ∙ h))
antisym (String.◌∷◌ c s) (String.◌∷◌ d t) h k =
    λ i. String.◌∷◌ (Char-path c d same_code i) (antisym s t before after i)
  where
    same_code : code c ≡ code d
    same_code = ground (arith, not_after-cons c d s t, not_after-cons d c t s)

    before : not_after s t ≡ true
    before = ground (arith, not_after-cons c d s t, not_after-cons d c t s)

    after : not_after t s ≡ true
    after = ground (arith, not_after-cons c d s t, not_after-cons d c t s)

insert_sorted-cons :
    (s t : String) (us : List String)
    → insert_sorted s (t ∷ us) ≡ (if not_after s t then s ∷ t ∷ us else t ∷ insert_sorted s us)
unfolding insert_sorted
insert_sorted-cons s t us = refl

insert-insert :
    (s t : String) (us : List String)
    → insert_sorted s (insert_sorted t us) ≡ insert_sorted t (insert_sorted s us)
unfolding insert_sorted
insert-insert s t [] = ground (arith, antisym s t, total s t)
insert-insert s t (u ∷ us) = ground (
  arith,
  insert-insert s t us,
  insert_sorted-cons s t (u ∷ us),
  insert_sorted-cons t s (u ∷ us),
  insert_sorted-cons s u us,
  insert_sorted-cons t u us,
  insert_sorted-cons s u (insert_sorted t us),
  insert_sorted-cons t u (insert_sorted s us),
  antisym s t,
  antisym s u,
  antisym t u,
  total s t,
  total s u,
  total t u,
  trans s t u,
  trans t s u,
)

sort-map {ℓ} :
    {A : Type ℓ} (f : A → String) {l₁ l₂ : List A} → Permᴰ l₁ l₂ → sort (map f l₁) ≡ sort (map f l₂)
unfolding sort
sort-map f Permᴰ.nil = refl
sort-map f (Permᴰ.cons {a} {b} {l₁} {l₂} e p) =
    ap (λ x. insert_sorted (f x) (sort (map f l₁))) e ∙ ap (insert_sorted (f b)) (sort-map f p)
sort-map f (Permᴰ.swap {a} {b} {a'} {b'} {l} e g) =
    ap (λ x. insert_sorted (f x) (insert_sorted (f b) (sort (map f l)))) e
    ∙ ap (λ x. insert_sorted (f b') (insert_sorted (f x) (sort (map f l)))) g
    ∙ insert-insert (f b') (f a') (sort (map f l))
sort-map f (Permᴰ.trans p q) = sort-map f p ∙ sort-map f q

String-discrete : Discrete String
String-discrete s t = elim (Bool-cases (s == t)) [
  | inl h ↦ yes ((eq_iff s t).0 h)
  | inr h ↦ no (λ e. false≢true (sym h ∙ (eq_iff s t).1 e))
]

-- The text of a selector is the same in whatever order the map gives its entries.
pub selector_text-Perm :
    (m₁ m₂ : Map String) → Perm m₁ m₂ → selector_text (some m₁) ≡ selector_text (some m₂)
unfolding selector_text
selector_text-Perm m₁ m₂ p =
    ∥∥₁_elim p (hedberg String-discrete _ _) (λ d. ap (λ ls. or_none (join ls)) (sort-map _ d))
