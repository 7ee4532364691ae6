-- ===== src/Scheduler/Usage/Score.antt =====
-- Every score is a percentage.
use superkube.Base.{
  subst, ℕ, ◌+◌, ◌*◌, ◌≤◌, ◌<◌, ◌≡◌, inl, inr, Option, none, some, List, ltb, eqb, min, pos, ◌≤ℤ◌,
  Bool-cases, if◌then◌else◌, arith,
}
use superkube.Models.Node.{Node}
use superkube.Models.Pod.{Pod}
use superkube.Scheduler.Float.{F64, F64Laws, Between}
use superkube.Scheduler.Usage.{
  ScoringStrategy, least_allocated, most_allocated, saturating_add, percent, add_percent,
  score_node, allocatable_cpu, allocatable_mem,
}

module _ (f : F64) (laws : F64Laws f) where
  percent-Between :
      (strategy : ScoringStrategy) (used c : ℕ)
      → 0 < c
      → used ≤ c
      → Between f 0 100 (percent f strategy used c)
  unfolding percent
  percent-Between least_allocated used c h k =
      laws.sub_between 100 _ (omega arith) (
        laws.mul_between 1 100 _ (omega arith) (laws.div_unit c _ h (laws.of_nat_between used c k)))
  percent-Between most_allocated used c h k =
      laws.mul_between 1 100 _ (omega arith) (laws.div_unit c _ h (laws.of_nat_between used c k))

  -- The sum of the percentages of `n` resources, two at most.
  abbrev IsSum : ℕ → f.Float × ℕ → Type 0
  IsSum most acc = (acc.1 ≤ most) × Between f 0 (100 * acc.1) acc.0

  next_sum :
      (strategy : ScoringStrategy) (n used c : ℕ) (sum : f.Float)
      → n ≤ 1
      → 0 < c
      → used ≤ c
      → Between f 0 (100 * n) sum
      → Between f 0 (100 * (n + 1)) (f.add sum (percent f strategy used c))
  next_sum strategy n used c sum few h k v =
      let total : 100 * n + 100 ≡ 100 * (n + 1) = omega arith in
      subst (λ k. Between f 0 k (f.add sum (percent f strategy used c))) total
        (laws.add_between (100 * n) 100 sum _ (omega arith) v (percent-Between strategy used c h k))

  add_percent-IsSum :
      (strategy : ScoringStrategy) (used request most : ℕ) (o : Option ℕ) (acc : f.Float × ℕ)
      → most ≤ 1
      → IsSum most acc
      → IsSum (most + 1) (add_percent f strategy used request o acc)
  unfolding add_percent
  add_percent-IsSum strategy used request most none acc m v = (omega arith, v.1)
  add_percent-IsSum strategy used request most (some c) (sum, n) m (few, v) =
      elim (Bool-cases (ltb 0 c)) [
        | inr zero ↦ rw zero (omega arith, v)
        | inl some_c ↦ rw some_c (
          omega arith,
          next_sum strategy n (min (saturating_add used request) c) c sum (omega arith)
              (ground arith) (omega arith) v,
        )
      ]

  average_bounds :
      (acc : f.Float × ℕ)
      → IsSum 2 acc
      → let s = if eqb acc.1 0 then pos 0 else f.to_i64 (f.round (f.div acc.0 (f.of_nat acc.1))) in
        (pos 0 ≤ℤ s) × (s ≤ℤ pos 100)
  average_bounds (sum, n) (few, v) = elim (Bool-cases (eqb n 0)) [
    | inl none_read ↦ rw none_read (omega arith)
    | inr read ↦ rw read (
        laws.to_i64_between 100 _ (omega arith) (
          laws.round_between 100 _ (omega arith)
            (laws.div_between 100 n sum (ground arith) (omega arith) v)))
  ]

  -- With the laws of IEEE 754 a score lies in 0..=100, whatever the node, the pods and the strategy.
  pub score_node_bounds :
      (node : Node) (existing : List Pod) (cpu mem : ℕ) (strategy : ScoringStrategy)
      → (pos 0 ≤ℤ score_node f node existing cpu mem strategy)
        × (score_node f node existing cpu mem strategy ≤ℤ pos 100)
  unfolding score_node
  score_node_bounds node existing cpu mem strategy = average_bounds _ (
      add_percent-IsSum strategy _ mem 1 (allocatable_mem f node) _ (omega arith) (
        add_percent-IsSum strategy _ cpu 0 (allocatable_cpu f node) _ (omega arith)
          (omega arith, laws.of_nat_between 0 0 (omega arith))))
