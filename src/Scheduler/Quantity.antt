-- ===== src/Scheduler/Quantity.antt =====
-- src/server/scheduler.rs, `parse_cpu_millicores` and `parse_memory_bytes`, and the text functions
-- of Rust's library that they use. A text is the list of its code points.
pub mod Printing
pub mod Units
use superkube.Base.{
  ℕ, ◌+◌, ◌-◌, ◌*◌, ◌^◌, String, Bool, true, false, ◌&&◌, ◌||◌, not, Option, none, some, List, [],
  ◌∷◌, if◌then◌else◌, leb, eqb, ltb, codes, and_then, ℤ, pos, negsuc, sub_ℕ,
}
use superkube.Scheduler.Float.{F64, u64_max}

-- `char::is_whitespace`: the code points with the Unicode property White_Space.
unfoldable pub is_whitespace : ℕ → Bool
is_whitespace c =
    (leb 9 c && leb c 13)
    || eqb c 32
    || eqb c 0x85
    || eqb c 0xa0
    || eqb c 0x1680
    || (leb 0x2000 c && leb c 0x200a)
    || eqb c 0x2028
    || eqb c 0x2029
    || eqb c 0x202f
    || eqb c 0x205f
    || eqb c 0x3000

unfoldable pub trim_start : List ℕ → List ℕ
unfolding is_whitespace
trim_start [] = []
trim_start (c ∷ cs) = let rest = trim_start cs in if is_whitespace c then rest else c ∷ cs

-- Drops a blank in front of what is left of the rest.
abbrev pub cons_trimmed : ℕ → List ℕ → List ℕ
cons_trimmed c [] = if is_whitespace c then [] else c ∷ []
cons_trimmed c (d ∷ ds) = c ∷ d ∷ ds

unfoldable pub trim_end : List ℕ → List ℕ
unfolding is_whitespace
trim_end [] = []
trim_end (c ∷ cs) = cons_trimmed c (trim_end cs)

unfoldable pub trim : List ℕ → List ℕ
unfolding trim_start trim_end
trim s = trim_end (trim_start s)

unfoldable pub codes_eq : List ℕ → List ℕ → Bool
codes_eq [] [] = true
codes_eq (c ∷ cs) (d ∷ ds) = eqb c d && codes_eq cs ds
codes_eq _ _ = false

-- `str::strip_suffix`, for a suffix that is not empty.
unfoldable pub strip_suffix : List ℕ → List ℕ → Option (List ℕ)
unfolding codes_eq
strip_suffix suffix [] = none
strip_suffix suffix (c ∷ cs) =
    if codes_eq (c ∷ cs) suffix
    then some []
    else and_then (strip_suffix suffix cs) (λ rest. some (c ∷ rest))

-- The digits of a number, refused where the value passes `limit`.
unfoldable pub digits : ℕ → ℕ → List ℕ → Option ℕ
digits limit acc [] = some acc
digits limit acc (c ∷ cs) =
    if leb 48 c && leb c 57 && leb (acc * 10 + (c - 48)) limit
    then digits limit (acc * 10 + (c - 48)) cs
    else none

-- At least one digit.
unfoldable pub number : ℕ → List ℕ → Option ℕ
unfolding digits
number limit [] = none
number limit (c ∷ cs) = digits limit 0 (c ∷ cs)

-- `str::parse::<u64>`.
unfoldable pub parse_u64 : List ℕ → Option ℕ
unfolding number
parse_u64 [] = none
parse_u64 (c ∷ cs) = if eqb c b'+' then number u64_max cs else number u64_max (c ∷ cs)

-- `str::parse::<i64>`.
unfoldable pub parse_i64 : List ℕ → Option ℤ
unfolding number
parse_i64 [] = none
parse_i64 (c ∷ cs) =
    if eqb c b'-'
    then and_then (number (2 ^ 63) cs) (λ n. some (sub_ℕ 0 n))
    else and_then (if eqb c b'+' then number (2 ^ 63 - 1) cs else number (2 ^ 63 - 1) (c ∷ cs))
        (λ n. some (pos n))

-- The suffixes of a memory quantity with their multipliers, in the order of the tests.
abbrev pub suffixes : List (List ℕ × ℕ)
suffixes =
    (codes "Ki", 1024)
    ∷ (codes "Mi", 1024 ^ 2)
    ∷ (codes "Gi", 1024 ^ 3)
    ∷ (codes "Ti", 1024 ^ 4)
    ∷ (codes "Pi", 1024 ^ 5)
    ∷ (codes "Ei", 1024 ^ 6)
    ∷ (codes "k", 1_000)
    ∷ (codes "M", 1_000_000)
    ∷ (codes "G", 1_000_000_000)
    ∷ (codes "T", 1_000_000_000_000)
    ∷ (codes "P", 1_000_000_000_000_000)
    ∷ (codes "E", 1_000_000_000_000_000_000)
    ∷ []

unfoldable pub split_suffix : List (List ℕ × ℕ) → List ℕ → List ℕ × ℕ
unfolding strip_suffix
split_suffix [] s = (s, 1)
split_suffix ((suffix, mult) ∷ rest) s =
    let later = split_suffix rest s in
    elim (strip_suffix suffix s) [ some num_part ↦ (num_part, mult) | none ↦ later ]

module _ (f : F64) where
  open f use {Float, parse, lt, is_finite, of_nat, mul, round, to_u64}

  unfoldable pub millicores_of_cores : Float → Option ℕ
  millicores_of_cores cores =
      if lt cores (of_nat 0) || not (is_finite cores)
      then none
      else some (to_u64 (round (mul cores (of_nat 1000))))

  unfoldable pub parse_cpu_millicores : List ℕ → Option ℕ
  parse_cpu_millicores text =
      let s = trim text in
      elim (strip_suffix (codes "m") s) [
        | some num ↦ parse_u64 (trim num)
        | none ↦ and_then (parse s) millicores_of_cores
      ]

  unfoldable pub bytes_of : ℕ → Float → Option ℕ
  bytes_of mult num =
      let bytes = round (mul num (of_nat mult)) in
      if lt num (of_nat 0) || not (is_finite num)
      then none
      else if lt bytes (of_nat 0) || lt (of_nat u64_max) bytes
      then none
      else some (to_u64 bytes)

  unfoldable pub parse_memory_bytes : List ℕ → Option ℕ
  parse_memory_bytes text =
      let (num_part, mult) = split_suffix suffixes (trim text) in
      and_then (parse (trim num_part)) (bytes_of mult)
