-- ===== src/Scheduler/Float.antt =====
-- The operations on `f64` that the scheduler uses, and what IEEE 754 and Rust's casts say of them.
use superkube.Base.{
  ℕ, ◌+◌, ◌*◌, ◌<◌, ◌≤◌, ◌≡◌, ◌^◌, ◌-◌, Bool, true, false, Option, List, ℤ, pos, ◌≤ℤ◌,
}

abbrev pub u64_max : ℕ
u64_max = 2 ^ 64 - 1

pub record F64 : Type 1 where
  pub Float : Type 0
  -- `str::parse::<f64>`, on the code points of the text.
  pub parse : List ℕ → Option Float
  -- `<` and `f64::is_finite`.
  pub lt : Float → Float → Bool
  pub is_finite : Float → Bool
  -- `n as f64`, also for the literals.
  pub of_nat : ℕ → Float
  pub add : Float → Float → Float
  pub sub : Float → Float → Float
  pub mul : Float → Float → Float
  pub div : Float → Float → Float
  pub round : Float → Float
  -- `x as u64` and `x as i64`, which saturate.
  pub to_u64 : Float → ℕ
  pub to_i64 : Float → ℤ

-- `lo <= x <= hi`, of a number `x`.
abbrev pub Between : (f : F64) → ℕ → ℕ → f.Float → Type 0
Between f lo hi x =
    (f.lt x (f.of_nat lo) ≡ false) × (f.lt (f.of_nat hi) x ≡ false) × (f.is_finite x ≡ true)

-- The integers that an `f64` holds exactly.
abbrev pub max_exact : ℕ
max_exact = 2 ^ 53

-- IEEE 754: each operation rounds the exact result, rounding is monotone and leaves exact values
-- alone; so bounds by integers that are exact carry over. `as f64` rounds likewise, and `as i64`
-- is exact on integers in range.
pub record F64Laws (f : F64) : Type 0 where
  pub of_nat_between : (a b : ℕ) → a ≤ b → Between f 0 b (f.of_nat a)
  pub div_unit :
      (c : ℕ) (x : f.Float) → 0 < c → Between f 0 c x → Between f 0 1 (f.div x (f.of_nat c))
  pub mul_between :
      (hi c : ℕ) (x : f.Float)
      → hi * c ≤ max_exact
      → Between f 0 hi x
      → Between f 0 (hi * c) (f.mul x (f.of_nat c))
  pub sub_between :
      (c : ℕ) (x : f.Float) → c ≤ max_exact → Between f 0 c x → Between f 0 c (f.sub (f.of_nat c) x)
  pub add_between :
      (a b : ℕ) (x y : f.Float)
      → a + b ≤ max_exact
      → Between f 0 a x
      → Between f 0 b y
      → Between f 0 (a + b) (f.add x y)
  pub div_between :
      (hi c : ℕ) (x : f.Float)
      → 0 < c
      → hi * c ≤ max_exact
      → Between f 0 (hi * c) x
      → Between f 0 hi (f.div x (f.of_nat c))
  pub round_between :
      (hi : ℕ) (x : f.Float) → hi ≤ max_exact → Between f 0 hi x → Between f 0 hi (f.round x)
  pub to_i64_between :
      (hi : ℕ) (x : f.Float)
      → hi ≤ max_exact
      → Between f 0 hi x
      → (pos 0 ≤ℤ f.to_i64 x) × (f.to_i64 x ≤ℤ pos hi)
  pub to_u64_le : (x : f.Float) → f.to_u64 x ≤ u64_max
