-- ===== src/Scheduler/Quantity/Units.antt =====
-- Memory quantities that are a whole number with a suffix, and what they read as.
use mathlib.Core.List.{append-nil}
use superkube.Base.{
  ℕ, ◌+◌, ◌*◌, ◌≤◌, ◌≡◌, refl, sym, ap, ◌∙◌, inl, inr, false, some, List, [], ◌∷◌, ◌++◌, All, codes,
  eqb, Option-cases, and_then, arith,
}
use superkube.Scheduler.Float.{F64, F64Laws, u64_max, max_exact}
use superkube.Scheduler.Quantity.{
  codes_eq, strip_suffix, split_suffix, bytes_of, parse_memory_bytes, millicores_of_cores,
  parse_cpu_millicores, suffixes,
}
use superkube.Scheduler.Quantity.Printing.{
  show, IsDigit, IsInk, show_before-digits, trim-ink, All-IsInk, All-IsInk-append,
}

-- IEEE 754 on the integers that an `f64` holds exactly: their digits are read as they are, and
-- products that are exact, rounding and the cast leave no error.
pub record F64Exact (f : F64) : Type 0 where
  pub parse_show : (n : ℕ) → n ≤ max_exact → f.parse (show n) ≡ some (f.of_nat n)
  pub mul_of_nat :
      (a b : ℕ) → a * b ≤ max_exact → f.mul (f.of_nat a) (f.of_nat b) ≡ f.of_nat (a * b)
  pub round_of_nat : (n : ℕ) → n ≤ max_exact → f.round (f.of_nat n) ≡ f.of_nat n
  pub to_u64_of_nat : (n : ℕ) → n ≤ max_exact → f.to_u64 (f.of_nat n) ≡ n

show-IsDigit : (n : ℕ) → All IsDigit (show n)
unfolding show
show-IsDigit n = show_before-digits (n + 1) n [] tt

-- A suffix that does not start with a digit is none of the digits.
strip_suffix-digits :
    (a : ℕ) (s ds t : List ℕ)
    → 58 ≤ a
    → All IsDigit ds
    → strip_suffix (a ∷ s) (ds ++ t) ≡ and_then (strip_suffix (a ∷ s) t) (λ rest. some (ds ++ rest))
unfolding strip_suffix codes_eq
strip_suffix-digits a s [] t h k = elim (Option-cases (strip_suffix (a ∷ s) t)) [
  | inl e ↦ rw e
  | inr (r, e) ↦ rw e
]
strip_suffix-digits a s (c ∷ ds) t h k =
    let other : eqb c a ≡ false = ground (arith, k.0) in
    rw (other, strip_suffix-digits a s ds t h k.1)
      (elim (Option-cases (strip_suffix (a ∷ s) t)) [ inl e ↦ rw e | inr (r, e) ↦ rw e ])

abbrev IsSuffix : List ℕ → Type 0
IsSuffix [] = ⊥
IsSuffix (a ∷ s) = 58 ≤ a

split_suffix-digits :
    (l : List (List ℕ × ℕ)) (ds t : List ℕ)
    → All (λ (e : List ℕ × ℕ). IsSuffix e.0) l
    → All IsDigit ds
    → split_suffix l (ds ++ t) ≡ (ds ++ (split_suffix l t).0, (split_suffix l t).1)
unfolding split_suffix
split_suffix-digits [] ds t h k = refl
split_suffix-digits (([], m) ∷ l) ds t h k = absurd h.0
split_suffix-digits ((a ∷ s, m) ∷ l) ds t h k =
    let skip = strip_suffix-digits a s ds t h.0 k in
    let rest = split_suffix-digits l ds t h.1 k in
    elim (Option-cases (strip_suffix (a ∷ s) t)) [
      | inl e ↦ ground (arith, skip, rest, e)
      | inr (r, e) ↦ ground (arith, skip, e)
    ]

suffixes-IsSuffix : All (λ (e : List ℕ × ℕ). IsSuffix e.0) suffixes
suffixes-IsSuffix = omega arith

module _ (f : F64) (laws : F64Laws f) (exact : F64Exact f) where
  bytes_of-exact :
      (mult n : ℕ)
      → n * mult ≤ max_exact
      → n ≤ max_exact
      → bytes_of f mult (f.of_nat n) ≡ some (n * mult)
  unfolding bytes_of
  bytes_of-exact mult n h k =
      let (low, high, finite) = laws.of_nat_between (n * mult) u64_max (omega arith) in
      let (low', high', finite') = laws.of_nat_between n u64_max (omega arith) in
      rw (
        exact.mul_of_nat n mult h,
        exact.round_of_nat (n * mult) h,
        low,
        high,
        low',
        finite',
        exact.to_u64_of_nat (n * mult) h,
      )

  -- A whole number with a suffix reads as it says.
  pub parse_memory_bytes-show :
      (unit : List ℕ) (mult n : ℕ)
      → All IsInk unit
      → split_suffix suffixes unit ≡ ([], mult)
      → n * mult ≤ max_exact
      → n ≤ max_exact
      → parse_memory_bytes f (show n ++ unit) ≡ some (n * mult)
  unfolding parse_memory_bytes
  parse_memory_bytes-show unit mult n ink split h k =
      let ds = show n in
      let all = show-IsDigit n in
      rw
        (
          trim-ink (ds ++ unit) (All-IsInk-append ds unit all ink),
          split_suffix-digits suffixes ds unit suffixes-IsSuffix all,
          split,
          append-nil ds,
          trim-ink ds (All-IsInk ds all),
          exact.parse_show n k,
        )
        (bytes_of-exact mult n h k)

  millicores_of_cores-exact :
      (n : ℕ) → n * 1000 ≤ max_exact → millicores_of_cores f (f.of_nat n) ≡ some (n * 1000)
  unfolding millicores_of_cores
  millicores_of_cores-exact n h =
      let (low, high, finite) = laws.of_nat_between n u64_max (omega arith) in
      rw (
        exact.mul_of_nat n 1000 h,
        exact.round_of_nat (n * 1000) h,
        low,
        finite,
        exact.to_u64_of_nat (n * 1000) h,
      )

  -- A whole number of cores reads as a thousand millicores each.
  pub parse_cpu_millicores-cores :
      (n : ℕ) → n * 1000 ≤ max_exact → parse_cpu_millicores f (show n) ≡ some (n * 1000)
  unfolding parse_cpu_millicores strip_suffix
  parse_cpu_millicores-cores n h =
      let all = show-IsDigit n in
      let trimmed = trim-ink (show n) (All-IsInk (show n) all) in
      let no_suffix =
        ap (strip_suffix (codes "m")) (sym (append-nil (show n)))
        ∙ strip_suffix-digits b'm' [] (show n) [] (omega arith) all in
      rw (parse_cpu_millicores, trimmed, no_suffix, trimmed, exact.parse_show n (omega (arith, h)))
        (millicores_of_cores-exact n h)
