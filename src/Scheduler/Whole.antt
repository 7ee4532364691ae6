-- ===== src/Scheduler/Whole.antt =====
-- Whole numbers in place of floats, for the tests: they obey the laws that the theorems need.
use superkube.Base.{ℕ, ◌+◌, ◌-◌, ◌*◌, ◌/◌, ◌≤◌, ◌<◌, refl, min, true, ltb, pos, arith}
use superkube.Scheduler.Float.{F64, F64Laws, Between, u64_max}
use superkube.Scheduler.Quantity.{parse_u64}
use superkube.Scheduler.Quantity.Printing.{parse_u64-show}
use superkube.Scheduler.Quantity.Units.{F64Exact}

abbrev pub whole : F64
whole = record {
  Float = ℕ;
  parse = parse_u64;
  lt = ltb;
  is_finite = λ x. true;
  of_nat = λ n. n;
  add = λ a b. a + b;
  sub = λ a b. a - b;
  mul = λ a b. a * b;
  div = λ a b. a / b;
  round = λ x. x;
  to_u64 = λ x. min x u64_max;
  to_i64 = λ x. pos x;
}

not_above : (a b : ℕ) → a ≤ b → Between whole 0 b a
not_above a b h = (ground arith, ground arith, refl)

at_most : (a b : ℕ) → Between whole 0 b a → a ≤ b
at_most a b h = ground arith

div_le : (x hi c : ℕ) → 0 < c → x ≤ hi * c → x / c ≤ hi
div_le x hi c h k = grind arith

mul_le : (x y c : ℕ) → x ≤ y → x * c ≤ y * c
mul_le x y c h = grind arith

pub whole-F64Laws : F64Laws whole
whole-F64Laws = record {
  of_nat_between = λ a b h. not_above a b h;
  div_unit = λ c x h v. not_above (x / c) 1 (div_le x 1 c h (omega (arith, at_most x c v)));
  mul_between = λ hi c x h v. not_above (x * c) (hi * c) (mul_le x hi c (at_most x hi v));
  sub_between = λ c x h v. not_above (c - x) c (omega arith);
  add_between =
      λ a b x y h v w. not_above (x + y) (a + b) (omega (arith, at_most x a v, at_most y b w));
  div_between = λ hi c x h k v. not_above (x / c) hi (div_le x hi c h (at_most x (hi * c) v));
  round_between = λ hi x h v. v;
  to_i64_between = λ hi x h v. (omega arith, omega (arith, at_most x hi v));
  to_u64_le = λ x. omega arith;
}

pub whole-F64Exact : F64Exact whole
whole-F64Exact = record {
  parse_show = λ n h. parse_u64-show n (omega arith);
  mul_of_nat = λ a b h. refl;
  round_of_nat = λ n h. refl;
  to_u64_of_nat = λ n h. omega arith;
}
