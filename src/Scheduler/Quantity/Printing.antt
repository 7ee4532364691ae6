-- ===== src/Scheduler/Quantity/Printing.antt =====
-- Quantities that are written as `<n>m` read back, and what is read fits a `u64`.
use superkube.Base.{
  ℕ, zero, suc, ◌+◌, ◌-◌, ◌*◌, ◌/◌, ◌%◌, ◌≤◌, ◌<◌, ◌≡◌, refl, ap, ◌∙◌, inl, inr, ◌⊎◌, ◌≢◌, false,
  Option, none, some, List, [], ◌∷◌, ◌++◌, All, codes, if◌then◌else◌, eqb, Bool-cases, Option-cases,
  and_then, arith,
}
use superkube.Scheduler.Float.{F64, F64Laws, u64_max}
use superkube.Scheduler.Quantity.{
  is_whitespace, trim_start, trim_end, trim, strip_suffix, digits, number, parse_u64,
  parse_cpu_millicores, millicores_of_cores, split_suffix, bytes_of, parse_memory_bytes, suffixes,
}

-- `Display` of a `u64`, in front of `rest`.
unfoldable pub show_before : ℕ → ℕ → List ℕ → List ℕ
show_before zero n rest = rest
show_before (suc fuel) n rest =
    let more = show_before fuel (n / 10) ((48 + n % 10) ∷ rest) in
    if eqb (n / 10) 0 then (48 + n % 10) ∷ rest else more

unfoldable pub show : ℕ → List ℕ
unfolding show_before
show n = show_before (n + 1) n []

-- A decimal digit.
abbrev pub IsDigit : ℕ → Type 0
IsDigit c = (48 ≤ c) × (c ≤ 57)

pub show_before-digits :
    (fuel n : ℕ) (rest : List ℕ) → All IsDigit rest → All IsDigit (show_before fuel n rest)
unfolding show_before
show_before-digits zero n rest h = h
show_before-digits (suc fuel) n rest h = elim (Bool-cases (eqb (n / 10) 0)) [
  | inl last ↦ rw last (omega arith, h)
  | inr more ↦ rw more (show_before-digits fuel (n / 10) _ (omega arith, h))
]

next_digit :
    (limit a n : ℕ) (rest : List ℕ)
    → a ≡ n / 10
    → n ≤ limit
    → digits limit a ((48 + n % 10) ∷ rest) ≡ digits limit n rest
unfolding digits
next_digit limit a n rest e k =
    let value : a * 10 + (48 + n % 10 - 48) ≡ n = omega arith in
    ground (arith, ap (λ (v : ℕ). digits limit v rest) value)

-- Reading what was printed is reading the rest with the number in hand.
digits-show_before :
    (limit fuel n : ℕ) (rest : List ℕ)
    → n < fuel
    → n ≤ limit
    → digits limit 0 (show_before fuel n rest) ≡ digits limit n rest
unfolding show_before digits
digits-show_before limit zero n rest h k = absurd (omega arith)
digits-show_before limit (suc fuel) n rest h k = elim (Bool-cases (eqb (n / 10) 0)) [
  | inl last ↦ rw last (next_digit limit 0 n rest (ground arith) k)
  | inr more ↦ rw more (
      digits-show_before limit fuel (n / 10) ((48 + n % 10) ∷ rest) (ground arith) (omega arith)
      ∙ next_digit limit (n / 10) n rest refl k)
]

abbrev pub IsInk : ℕ → Type 0
IsInk c = is_whitespace c ≡ false

digit-IsInk : (c : ℕ) → IsDigit c → IsInk c
unfolding is_whitespace
digit-IsInk c h = ground arith

trim_start-ink : (cs : List ℕ) → All IsInk cs → trim_start cs ≡ cs
unfolding trim_start
trim_start-ink [] h = refl
trim_start-ink (c ∷ cs) h = rw (h.0)

trim_end-ink : (cs : List ℕ) → All IsInk cs → trim_end cs ≡ cs
unfolding trim_end
trim_end-ink [] h = refl
trim_end-ink (c ∷ []) h = rw (h.0)
trim_end-ink (c ∷ d ∷ ds) h = rw (trim_end-ink (d ∷ ds) h.1)

pub trim-ink : (cs : List ℕ) → All IsInk cs → trim cs ≡ cs
unfolding trim
trim-ink cs h = rw (trim_start-ink cs h) (trim_end-ink cs h)

pub All-IsInk : (cs : List ℕ) → All IsDigit cs → All IsInk cs
All-IsInk [] h = tt
All-IsInk (c ∷ cs) h = (digit-IsInk c h.0, All-IsInk cs h.1)

pub All-IsInk-append : (cs ds : List ℕ) → All IsDigit cs → All IsInk ds → All IsInk (cs ++ ds)
All-IsInk-append [] ds h k = k
All-IsInk-append (c ∷ cs) ds h k = (digit-IsInk c h.0, All-IsInk-append cs ds h.1 k)

m-IsInk : All IsInk (codes "m")
unfolding is_whitespace
m-IsInk = (refl, tt)

strip_suffix-m :
    (cs : List ℕ) → All IsDigit cs → strip_suffix (codes "m") (cs ++ codes "m") ≡ some cs
unfolding strip_suffix
strip_suffix-m [] h = refl
strip_suffix-m (c ∷ cs) h = rw (strip_suffix-m cs h.1) (ground arith)

parse_u64-digits :
    (cs : List ℕ) (n : ℕ)
    → All IsDigit cs
    → cs ≢ []
    → digits u64_max 0 cs ≡ some n
    → parse_u64 cs ≡ some n
unfolding parse_u64
parse_u64-digits [] n h ne e = absurd (ne refl)
parse_u64-digits (c ∷ cs) n h ne e = ground arith

show_before-ne-nil : (fuel n : ℕ) (rest : List ℕ) → n < fuel → show_before fuel n rest ≢ []
unfolding show_before
show_before-ne-nil zero n rest h = absurd (omega arith)
show_before-ne-nil (suc fuel) n rest h = elim (Bool-cases (eqb (n / 10) 0)) [
  | inl last ↦ rw last (λ e. cc)
  | inr more ↦ rw more (show_before-ne-nil fuel (n / 10) _ (ground arith))
]

-- A number up to `u64::MAX` is read back from its digits.
pub parse_u64-show : (n : ℕ) → n ≤ u64_max → parse_u64 (show n) ≡ some n
unfolding show
parse_u64-show n h =
    parse_u64-digits (show n) n (show_before-digits (n + 1) n [] tt)
      (show_before-ne-nil (n + 1) n [] (omega arith))
      (unfold digits in digits-show_before u64_max (n + 1) n [] (omega arith) h)

-- A number of millicores up to `u64::MAX` is read back from `<n>m`.
parse_cpu_millicores-show :
    (f : F64) (n : ℕ) → n ≤ u64_max → parse_cpu_millicores f (show n ++ codes "m") ≡ some n
unfolding parse_cpu_millicores show
parse_cpu_millicores-show f n h =
    let ds = show_before (n + 1) n [] in
    let all = show_before-digits (n + 1) n [] tt in
    rw
      (
        trim-ink (ds ++ codes "m") (All-IsInk-append ds (codes "m") all m-IsInk),
        strip_suffix-m ds all,
        trim-ink ds (All-IsInk ds all),
        parse_cpu_millicores,
      )
      (parse_u64-show n h)

digits-le :
    (limit acc : ℕ) (cs : List ℕ) (n : ℕ) → acc ≤ limit → digits limit acc cs ≡ some n → n ≤ limit
unfolding digits
digits-le limit acc [] n h e = ground arith
digits-le limit acc (c ∷ cs) n h e = ground (arith, digits-le limit (acc * 10 + (c - 48)) cs n)

number-le : (limit : ℕ) (cs : List ℕ) (n : ℕ) → number limit cs ≡ some n → n ≤ limit
unfolding number
number-le limit [] n e = cc
number-le limit (c ∷ cs) n e = digits-le limit 0 (c ∷ cs) n (omega arith) e

parse_u64-le : (cs : List ℕ) (n : ℕ) → parse_u64 cs ≡ some n → n ≤ u64_max
unfolding parse_u64
parse_u64-le [] n e = cc
parse_u64-le (c ∷ cs) n e = ground (arith, number-le u64_max cs n, number-le u64_max (c ∷ cs) n)

module _ (f : F64) (laws : F64Laws f) where
  millicores_of_cores-le :
      (cores : f.Float) (n : ℕ) → millicores_of_cores f cores ≡ some n → n ≤ u64_max
  unfolding millicores_of_cores
  millicores_of_cores-le cores n h =
      ground (arith, laws.to_u64_le (f.round (f.mul cores (f.of_nat 1000))))

  bytes_of-le : (mult : ℕ) (num : f.Float) (n : ℕ) → bytes_of f mult num ≡ some n → n ≤ u64_max
  unfolding bytes_of
  bytes_of-le mult num n h = ground (arith, laws.to_u64_le (f.round (f.mul num (f.of_nat mult))))

  and_then-le :
      (o : Option f.Float) (read : f.Float → Option ℕ) (n : ℕ)
      → ((x : f.Float) → read x ≡ some n → n ≤ u64_max)
      → and_then o read ≡ some n
      → n ≤ u64_max
  and_then-le none read n le h = cc
  and_then-le (some x) read n le h = le x h

  -- What a quantity reads as is a `u64`, for both resources.
  parse_bounds :
      (text : List ℕ) (n : ℕ)
      → (parse_cpu_millicores f text ≡ some n) ⊎ (parse_memory_bytes f text ≡ some n)
      → n ≤ u64_max
  unfolding parse_cpu_millicores parse_memory_bytes
  parse_bounds text n (inl h) = elim (Option-cases (strip_suffix (codes "m") (trim text))) [
    | inr (num, e) ↦ parse_u64-le (trim num) n (rw (e, parse_cpu_millicores) at h)
    | inl e ↦
        and_then-le (f.parse (trim text)) (millicores_of_cores f) n
          (λ x. millicores_of_cores-le x n) (rw (e, parse_cpu_millicores) at h)
  ]
  parse_bounds text n (inr h) =
      let (num_part, mult) = split_suffix suffixes (trim text) in
      and_then-le (f.parse (trim num_part)) (bytes_of f mult) n (λ x. bytes_of-le mult x n) h
