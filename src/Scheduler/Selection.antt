-- ===== src/Scheduler/Selection.antt =====
-- src/server/scheduler.rs: `ScoringStrategy::from_env` and `find_node_for_pod`.
pub mod Feasible
pub mod Best
use superkube.Base.{
  ℕ, ◌+◌, String, Bool, true, ◌&&◌, ◌||◌, Option, none, some, List, [], ◌∷◌, if◌then◌else◌, leb,
  any, all, filter, map, map_or, and_then, codes, ℤ, ltb_ℤ,
}
use superkube.Models.Meta.{namespace_of, labels_of}
use superkube.Models.Affinity.{Affinity, PodAffinityTerm}
use superkube.Models.Node.{Node}
use superkube.Models.Pod.{Pod}
use superkube.Scheduler.Float.{F64}
use superkube.Scheduler.Quantity.{trim, codes_eq}
use superkube.Scheduler.Usage.{
  ScoringStrategy, least_allocated, most_allocated, sum_pod_requests, node_fits, score_node,
}
use superkube.Scheduler.Labels.{is_node_ready, has_labels, node_matches_term}
use superkube.Scheduler.Topology.{pod_affinity_satisfied}

-- `str::to_ascii_lowercase`.
to_ascii_lowercase : List ℕ → List ℕ
to_ascii_lowercase = map (λ c. if leb b'A' c && leb c b'Z' then c + 32 else c)

-- The value of SUPERKUBE_SCHEDULER_SCORING, if it is set.
pub from_env : Option String → ScoringStrategy
unfolding to_ascii_lowercase trim codes_eq
from_env none = least_allocated
from_env (some v) =
    let v = to_ascii_lowercase (trim (codes v)) in
    if codes_eq v (codes "most")
      || codes_eq v (codes "mostallocated")
      || codes_eq v (codes "most-allocated")
      || codes_eq v (codes "binpack")
      || codes_eq v (codes "bin-pack")
    then most_allocated
    else least_allocated

-- The tests of the loop, in their order. `spec.nodeSelector`:
unfoldable pub node_selector_ok : Pod → Node → Bool
unfolding has_labels
node_selector_ok pod node =
    map_or pod.spec.node_selector true (λ selector. has_labels selector (labels_of node.metadata))

-- Required node affinity: one of the terms.
unfoldable pub node_affinity_ok : Pod → Node → Bool
unfolding node_matches_term
node_affinity_ok pod node =
    map_or
      (and_then (and_then pod.spec.affinity (λ a. a.node_affinity))
        (λ na. na.required_during_scheduling_ignored_during_execution))
      true (λ required. any (node_matches_term node) required.node_selector_terms)

unfoldable pub pod_affinity_ok : Pod → List Node → List Pod → Node → Bool
unfolding pod_affinity_satisfied
pod_affinity_ok pod nodes existing_pods node =
    map_or (and_then pod.spec.affinity (λ a. a.pod_affinity)) true (λ pa.
      all
        (λ term.
          pod_affinity_satisfied node nodes existing_pods term (namespace_of pod.metadata) true)
        pa.required_during_scheduling_ignored_during_execution)

unfoldable pub pod_anti_affinity_ok : Pod → List Node → List Pod → Node → Bool
unfolding pod_affinity_satisfied
pod_anti_affinity_ok pod nodes existing_pods node =
    map_or (and_then pod.spec.affinity (λ a. a.pod_anti_affinity)) true (λ paa.
      all
        (λ term.
          pod_affinity_satisfied node nodes existing_pods term (namespace_of pod.metadata)
            Bool.false)
        paa.required_during_scheduling_ignored_during_execution)

-- `Iterator::max_by_key`: of equal keys the last one wins.
unfoldable pub max_from {ℓ} : {A : Type ℓ} → A × ℤ → List (A × ℤ) → A × ℤ
max_from best [] = best
max_from best (x ∷ xs) = max_from (if ltb_ℤ x.1 best.1 then best else x) xs

unfoldable pub max_by_key {ℓ} : {A : Type ℓ} → List (A × ℤ) → Option (A × ℤ)
unfolding max_from
max_by_key [] = none
max_by_key (x ∷ xs) = some (max_from x xs)

module _ (f : F64) where
  unfoldable pub is_candidate : Pod → List Node → List Pod → Node → Bool
  unfolding node_selector_ok node_affinity_ok pod_affinity_ok pod_anti_affinity_ok
  is_candidate pod nodes existing_pods node =
      is_node_ready node
      && node_selector_ok pod node
      && node_affinity_ok pod node
      && pod_affinity_ok pod nodes existing_pods node
      && pod_anti_affinity_ok pod nodes existing_pods node
      && (let (pod_cpu_m, pod_mem_b) = sum_pod_requests f pod in
          node_fits f node existing_pods pod_cpu_m pod_mem_b)

  unfoldable pub score_for : Pod → List Pod → ScoringStrategy → Node → ℤ
  score_for pod existing_pods strategy node =
      let (pod_cpu_m, pod_mem_b) = sum_pod_requests f pod in
      score_node f node existing_pods pod_cpu_m pod_mem_b strategy

  -- `none` is the error "No suitable node found for pod".
  unfoldable pub find_node_for_pod : Pod → List Node → List Pod → ScoringStrategy → Option Node
  unfolding max_by_key is_candidate score_for
  find_node_for_pod pod nodes existing_pods strategy =
      let candidates = filter (is_candidate pod nodes existing_pods) nodes in
      let scored = map (λ n. (n, score_for pod existing_pods strategy n)) candidates in
      and_then (max_by_key scored) (λ best. some best.0)
