-- ===== src/Base/Decisions.antt =====
-- Boolean tests and the statements that they decide, one lemma for each way to build a test.
use mathlib.Core.Path.{◌≡◌, refl, ap, sym, ◌∙◌}
use mathlib.Core.Logic.{◌↔◌, ◌⊎◌, inl, inr}
use mathlib.Core.Bool.{Bool, true, false, ◌&&◌, ◌||◌, not, false≢true}
use mathlib.Core.Option.{Option, none, some, some-injective}
use mathlib.Core.List.{List, [], ◌∷◌}
use native.Mathlib.Omega.{arith}
use superkube.Base.Tests.{map_or, Bool-cases}
use superkube.Base.Lists.{any, all, filter, All, Any, Elem}

-- `b` decides `P`.
abbrev pub Decides {ℓ} : Bool → Type ℓ → Type ℓ
Decides b P = (b ≡ true) ↔ P

pub and_iff {κ μ} :
    {P : Type κ} {Q : Type μ} (a b : Bool) → Decides a P → Decides b Q → Decides (a && b) (P × Q)
and_iff a b f g =
    (λ h. (f.0 (ground arith), g.0 (ground arith)), λ h. ground (arith, f.1 h.0, g.1 h.1))

pub or_iff {κ μ} :
    {P : Type κ} {Q : Type μ} (a b : Bool) → Decides a P → Decides b Q → Decides (a || b) (P ⊎ Q)
or_iff true b f g = (λ h. inl (f.0 refl), λ h. refl)
or_iff false b f g = (λ h. inr (g.0 h), λ h. elim h [ inl p ↦ cc (f.1 p) | inr q ↦ g.1 q ])

pub not_iff {κ} : {P : Type κ} (a : Bool) → Decides a P → Decides (not a) (¬ P)
not_iff true f = (λ h. absurd (false≢true h), λ n. absurd (n (f.0 refl)))
not_iff false f = (λ _ p. false≢true (f.1 p), λ _. refl)

module _ {ℓ} {A : Type ℓ} (p : A → Bool) where
  pub all_iff {κ} :
      (P : A → Type κ)
      → ((a : A) → Decides (p a) (P a))
      → (xs : List A) → Decides (all p xs) (All P xs)
  all_iff P dec [] = (λ _. tt, λ _. refl)
  all_iff P dec (x ∷ xs) = and_iff (p x) (all p xs) (dec x) (all_iff P dec xs)

  pub any_iff :
      (P : A → Type 0)
      → ((a : A) → Decides (p a) (P a))
      → (xs : List A) → Decides (any p xs) (Any P xs)
  any_iff P dec [] = (λ h. false≢true h, λ h. absurd h)
  any_iff P dec (x ∷ xs) = or_iff (p x) (any p xs) (dec x) (any_iff P dec xs)

  -- A test on what an `Option` holds, if it holds anything.
  pub forall_some_iff {κ} :
      (P : A → Type κ)
      → ((a : A) → Decides (p a) (P a))
      → (o : Option A) → Decides (map_or o true p) ((a : A) → o ≡ some a → P a)
  forall_some_iff P dec none = (λ _ a e. cc, λ _. refl)
  forall_some_iff P dec (some b) =
      (λ h a e. (dec a).0 (sym (ap p (some-injective b a e)) ∙ h), λ h. (dec b).1 (h b refl))

  pub exists_some_iff {κ} :
      (P : A → Type κ)
      → ((a : A) → Decides (p a) (P a))
      → (o : Option A) → Decides (map_or o false p) ((a : A) × (o ≡ some a) × P a)
  exists_some_iff P dec none = (λ h. absurd (false≢true h), λ t. cc (t.1))
  exists_some_iff P dec (some b) =
      (λ h. (b, refl, (dec b).0 h), λ (a, e, x). ap p (some-injective b a e) ∙ (dec a).1 x)

-- What `filter` keeps.
module _ {A : Type 0} (p : A → Bool) where
  pub Elem-filter : (a : A) (xs : List A) → Elem a (filter p xs) ↔ (Elem a xs × (p a ≡ true))
  Elem-filter a [] = (λ h. absurd h, λ h. absurd h.0)
  Elem-filter a (x ∷ xs) = elim (Bool-cases (p x)) [
    | inl kept ↦ rw kept (
      λ h. elim h [
        | inl e ↦ (inl e, ap p (sym e) ∙ kept)
        | inr m ↦ let r = (Elem-filter a xs).0 m in (inr r.0, r.1)
      ],
      λ (m, ok). elim m [ inl e ↦ inl e | inr m ↦ inr ((Elem-filter a xs).1 (m, ok)) ],
    )
    | inr out ↦ rw out (
      λ h. let r = (Elem-filter a xs).0 h in (inr r.0, r.1),
      λ (m, ok). elim m [
        | inl e ↦ absurd (false≢true (sym out ∙ ap p e ∙ ok))
        | inr m ↦ (Elem-filter a xs).1 (m, ok)
      ],
    )
  ]
