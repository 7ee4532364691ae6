-- ===== src/Ipam/Octets.antt =====
-- The set of octets in use, and the search for the first free one.
use superkube.Base.{
  ℕ, zero, suc, ◌+◌, ◌≤◌, ◌<◌, ◌≡◌, inl, inr, Bool-cases, ℕ_discrete, Bool, true, false, ◌||◌,
  Option, none, some, List, [], ◌∷◌, if◌then◌else◌, eqb, arith,
}

-- `BTreeSet::contains`, `insert` and `remove`.
abbrev pub contains : ℕ → List ℕ → Bool
contains o [] = false
contains o (x ∷ xs) = eqb x o || contains o xs

unfoldable pub insert : ℕ → List ℕ → List ℕ
insert o xs = if contains o xs then xs else o ∷ xs

unfoldable pub without : ℕ → List ℕ → List ℕ
without o [] = []
without o (x ∷ xs) = let rest = without o xs in if eqb x o then rest else x ∷ rest

-- `(start..start + count).find(|o| !taken.contains(o))`.
unfoldable pub first_free : ℕ → ℕ → List ℕ → Option ℕ
first_free zero start taken = none
first_free (suc count) start taken =
    let rest = first_free count (start + 1) taken in
    if contains start taken then rest else some start

pub contains-insert :
    (o p : ℕ) (xs : List ℕ) → contains p (insert o xs) ≡ (eqb o p || contains p xs)
unfolding insert
contains-insert o p xs = ground arith

pub contains-without :
    (o p : ℕ) (xs : List ℕ) → contains p (without o xs) ≡ (if eqb o p then false else contains p xs)
unfolding without
contains-without o p [] = ground arith
contains-without o p (x ∷ xs) = ground (arith, contains-without o p xs)

-- What the search finds is in range and free, and everything below it is taken.
pub record IsFirstFree (count start : ℕ) (taken : List ℕ) (o : ℕ) : Type 0 where
  pub above : start ≤ o
  pub below : o < start + count
  pub free : contains o taken ≡ false
  pub first : (p : ℕ) → start ≤ p → p < o → contains p taken ≡ true

IsFirstFree-here :
    (count start o : ℕ) (taken : List ℕ)
    → contains start taken ≡ false
    → start ≡ o
    → IsFirstFree (suc count) start taken o
IsFirstFree-here count start o taken free e = record {
  above = omega arith;
  below = omega arith;
  free = rw (← e) free;
  first = λ p h k. absurd (omega arith);
}

IsFirstFree-later :
    (count start o : ℕ) (taken : List ℕ)
    → contains start taken ≡ true
    → IsFirstFree count (start + 1) taken o
    → IsFirstFree (suc count) start taken o
IsFirstFree-later count start o taken used v = record {
  above = omega arith;
  below = omega arith;
  free = v.free;
  first = λ p h k. elim (ℕ_discrete start p) [
    | yes e ↦ rw (← e) used
    | no ne ↦ v.first p (omega arith) k
  ];
}

pub first_free-IsFirstFree :
    (count start : ℕ) (taken : List ℕ) (o : ℕ)
    → first_free count start taken ≡ some o
    → IsFirstFree count start taken o
unfolding first_free
first_free-IsFirstFree zero start taken o h = cc
first_free-IsFirstFree (suc count) start taken o h = elim (Bool-cases (contains start taken)) [
  | inl used ↦
      IsFirstFree-later count start o taken used
        (first_free-IsFirstFree count (start + 1) taken o (ground arith))
  | inr free ↦ IsFirstFree-here count start o taken free (ground arith)
]

-- The search fails only when every octet of the range is taken.
pub first_free_none :
    (count start : ℕ) (taken : List ℕ)
    → first_free count start taken ≡ none
    → (p : ℕ) → start ≤ p
    → p < start + count
    → contains p taken ≡ true
unfolding first_free
first_free_none zero start taken h p a b = absurd (omega arith)
first_free_none (suc count) start taken h p a b = elim (ℕ_discrete start p) [
  | yes e ↦ rw (← e) (ground arith)
  | no ne ↦ first_free_none count (start + 1) taken (ground arith) p (omega arith) (omega arith)
]
