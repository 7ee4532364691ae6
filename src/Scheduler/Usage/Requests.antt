-- ===== src/Scheduler/Usage/Requests.antt =====
-- What the containers of a pod ask for and which pods count for a node, apart from the loops of
-- src/server/scheduler.rs; and that `sum_pod_requests` and the test of `sum_used_on_node` agree.
use superkube.Base.{
  inl, inr, ℕ, ◌+◌, ◌≤◌, ◌≡◌, refl, ◌∙◌, Bool, true, false, Option, some, List, [], ◌∷◌, filter,
  map, min, String, arith, ◌==◌, ◌&&◌, not, none, map_or, and_then, unwrap_or, get, codes,
  Option-cases,
}
use superkube.Models.Pod.{
  Pod, PodPhase, PodStatus, Container, pending, running, succeeded, failed, unknown,
}
use superkube.Scheduler.Quantity.{parse_cpu_millicores, parse_memory_bytes}
use superkube.Scheduler.Float.{F64, u64_max}
use superkube.Scheduler.Usage.{
  saturating_add, is_terminal, uses_node, container_requests, sum_requests, sum_pod_requests,
}

unfoldable pub sum : List ℕ → ℕ
sum [] = 0
sum (x ∷ xs) = x + sum xs

-- What a container asks for of a resource; what is missing or cannot be read counts as zero.
abbrev pub asked : (List ℕ → Option ℕ) → String → Container → ℕ
asked read key c =
    unwrap_or
      (and_then (and_then c.resources (λ r. r.requests))
        (λ reqs. and_then (get key reqs) (λ v. read (codes v))))
      0

-- Whether a pod in a phase has not ended.
abbrev pub is_live : PodPhase → Bool
is_live pending = true
is_live running = true
is_live unknown = true
is_live succeeded = false
is_live failed = false

-- Whether a pod is bound to the node and has not ended; one without a status has not.
abbrev pub counts_for : String → Option String → Option PodStatus → Bool
counts_for name none status = false
counts_for name (some node) none = node == name
counts_for name (some node) (some s) = node == name && is_live s.phase

-- The requests of all containers of the pods that count for the node, without a cap.
unfoldable pub requested : (Container → ℕ) → String → List Pod → ℕ
unfolding sum
requested ask name ps = sum (
    map (λ (p : Pod). sum (map ask p.spec.containers))
      (filter (λ (p : Pod). counts_for name p.spec.node_name p.status) ps))

terminal_live : (p : PodPhase) → not (is_terminal p) ≡ is_live p
unfolding is_terminal
terminal_live pending = refl
terminal_live running = refl
terminal_live succeeded = refl
terminal_live failed = refl
terminal_live unknown = refl

pub uses_node_iff :
    (name : String) (p : Pod) → uses_node name p ≡ counts_for name p.spec.node_name p.status
unfolding uses_node
uses_node_iff name p = by_parts p.spec.node_name p.status
  where
    by_parts :
        (node : Option String) (o : Option PodStatus)
        → (map_or node false (λ n. n == name) && map_or o true (λ s. not (is_terminal s.phase)))
          ≡ counts_for name node o
    by_parts none o = refl
    by_parts (some node) none = ground arith
    by_parts (some node) (some s) = rw (terminal_live s.phase) refl

module _ (f : F64) where
  -- Both resources of a container.
  abbrev pub cpu_asked : Container → ℕ
  cpu_asked = asked (parse_cpu_millicores f) "cpu"

  abbrev pub mem_asked : Container → ℕ
  mem_asked = asked (parse_memory_bytes f) "memory"

  container_requests_lem : (c : Container) → container_requests f c ≡ (cpu_asked c, mem_asked c)
  unfolding container_requests
  container_requests_lem c = elim (Option-cases (and_then c.resources (λ r. r.requests))) [
    | inl e ↦ rw (container_requests, e) refl
    | inr (reqs, e) ↦ rw (container_requests, e) refl
  ]

  sum_requests-capped :
      (c m : ℕ) (cs : List Container)
      → c ≤ u64_max
      → m ≤ u64_max
      → sum_requests f (c, m) cs
        ≡ (min (c + sum (map cpu_asked cs)) u64_max, min (m + sum (map mem_asked cs)) u64_max)
  unfolding sum_requests sum
  sum_requests-capped c m [] hc hm = ground arith
  sum_requests-capped c m (x ∷ cs) hc hm = rw (container_requests_lem x) (
      sum_requests-capped (saturating_add c (cpu_asked x)) (saturating_add m (mem_asked x)) cs
        (omega arith) (omega arith)
      ∙ ground arith)

  pub sum_pod_requests-capped :
      (p : Pod)
      → sum_pod_requests f p ≡ (
        min (sum (map cpu_asked p.spec.containers)) u64_max,
        min (sum (map mem_asked p.spec.containers)) u64_max,
      )
  unfolding sum_pod_requests
  sum_pod_requests-capped p =
      sum_requests-capped 0 0 p.spec.containers (omega arith) (omega arith) ∙ ground arith
