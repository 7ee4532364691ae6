-- ===== src/Scheduler/Usage.antt =====
-- src/server/scheduler.rs: requests, usage, fit and score of a node.
pub mod Score
pub mod Requests
pub mod Saturation
use superkube.Base.{
  ℕ, ◌+◌, min, String, Bool, true, false, ◌&&◌, ◌||◌, not, Option, none, some, List, [], ◌∷◌, ◌==◌,
  if◌then◌else◌, ltb, codes, get, and_then, unwrap_or, ℤ, pos, eqb, map_or,
}
use superkube.Models.Meta.{name_of}
use superkube.Models.Pod.{Pod, Container, PodPhase, succeeded, failed}
use superkube.Models.Node.{Node}
use superkube.Scheduler.Float.{F64, u64_max}
use superkube.Scheduler.Quantity.{parse_cpu_millicores, parse_memory_bytes}

-- `u64::saturating_add`.
abbrev pub saturating_add : ℕ → ℕ → ℕ
saturating_add a b = min (a + b) u64_max

pub data ScoringStrategy : Type 0 where
  least_allocated most_allocated : ScoringStrategy

unfoldable pub is_terminal : PodPhase → Bool
is_terminal succeeded = true
is_terminal failed = true
is_terminal _ = false

abbrev pub node_name_is : Pod → String → Bool
node_name_is p name = map_or p.spec.node_name false (λ n. n == name)

-- The pods that `sum_used_on_node` counts for a node.
unfoldable pub uses_node : String → Pod → Bool
unfolding is_terminal
uses_node name p = node_name_is p name && map_or p.status true (λ s. not (is_terminal s.phase))

-- Whether one resource has room; a request of zero and a missing allocatable always fit.
unfoldable pub fits : ℕ → ℕ → Option ℕ → Bool
fits used request none = true
fits used request (some alloc) = eqb request 0 || not (ltb alloc (saturating_add used request))

module _ (f : F64) where
  -- What one container asks for; unreadable quantities count as zero.
  unfoldable pub container_requests : Container → ℕ × ℕ
  container_requests c = elim (and_then c.resources (λ r. r.requests)) [
    | none ↦ (0, 0)
    | some reqs ↦ (
      unwrap_or (and_then (get "cpu" reqs) (λ v. parse_cpu_millicores f (codes v))) 0,
      unwrap_or (and_then (get "memory" reqs) (λ v. parse_memory_bytes f (codes v))) 0,
    )
  ]

  unfoldable pub sum_requests : ℕ × ℕ → List Container → ℕ × ℕ
  unfolding container_requests
  sum_requests sums [] = sums
  sum_requests sums (c ∷ cs) =
      let (cpu, mem) = container_requests c in
      sum_requests (saturating_add sums.0 cpu, saturating_add sums.1 mem) cs

  unfoldable pub sum_pod_requests : Pod → ℕ × ℕ
  unfolding sum_requests
  sum_pod_requests pod = sum_requests (0, 0) pod.spec.containers

  unfoldable pub sum_used : String → ℕ × ℕ → List Pod → ℕ × ℕ
  unfolding uses_node sum_pod_requests
  sum_used name sums [] = sums
  sum_used name sums (p ∷ ps) =
      let (cpu, mem) = sum_pod_requests p in
      sum_used name
        (if uses_node name p then (saturating_add sums.0 cpu, saturating_add sums.1 mem) else sums)
        ps

  unfoldable pub sum_used_on_node : Node → List Pod → ℕ × ℕ
  unfolding sum_used
  sum_used_on_node node existing_pods = sum_used (name_of node.metadata) (0, 0) existing_pods

  unfoldable pub allocatable_cpu : Node → Option ℕ
  allocatable_cpu node =
      and_then (and_then node.status (λ s. s.allocatable))
        (λ a. and_then (get "cpu" a) (λ v. parse_cpu_millicores f (codes v)))

  unfoldable pub allocatable_mem : Node → Option ℕ
  allocatable_mem node =
      and_then (and_then node.status (λ s. s.allocatable))
        (λ a. and_then (get "memory" a) (λ v. parse_memory_bytes f (codes v)))

  unfoldable pub node_fits : Node → List Pod → ℕ → ℕ → Bool
  unfolding fits sum_used_on_node allocatable_cpu allocatable_mem
  node_fits node existing_pods pod_cpu_m pod_mem_b =
      let (used_cpu_m, used_mem_b) = sum_used_on_node node existing_pods in
      fits used_cpu_m pod_cpu_m (allocatable_cpu node)
      && fits used_mem_b pod_mem_b (allocatable_mem node)

  open f use {Float, of_nat, add, sub, mul, div, round, to_i64}

  -- The percentage that one resource adds to a score.
  unfoldable pub percent : ScoringStrategy → ℕ → ℕ → Float
  percent strategy used_after c =
      let used_pct = mul (div (of_nat used_after) (of_nat c)) (of_nat 100) in
      elim strategy [ least_allocated ↦ sub (of_nat 100) used_pct | most_allocated ↦ used_pct ]

  -- One resource's step of `score_node`: the sum so far and the number of resources in it.
  unfoldable pub add_percent : ScoringStrategy → ℕ → ℕ → Option ℕ → Float × ℕ → Float × ℕ
  unfolding percent
  add_percent strategy used request none acc = acc
  add_percent strategy used request (some c) acc =
      if ltb 0 c
      then (add acc.0 (percent strategy (min (saturating_add used request) c) c), acc.1 + 1)
      else acc

  unfoldable pub score_node : Node → List Pod → ℕ → ℕ → ScoringStrategy → ℤ
  unfolding add_percent sum_used_on_node allocatable_cpu allocatable_mem
  score_node node existing_pods pod_cpu_m pod_mem_b strategy =
      let (used_cpu_m, used_mem_b) = sum_used_on_node node existing_pods in
      let with_cpu =
        add_percent strategy used_cpu_m pod_cpu_m (allocatable_cpu node) (of_nat 0, 0) in
      let (sum, n) = add_percent strategy used_mem_b pod_mem_b (allocatable_mem node) with_cpu in
      if eqb n 0 then pos 0 else to_i64 (round (div sum (of_nat n)))

-- A pod with its node name filled in, as a binding is recorded.
abbrev pub bound_to : Pod → String → Pod
bound_to pod name = record pod { spec = record pod.spec { node_name = some name } }
