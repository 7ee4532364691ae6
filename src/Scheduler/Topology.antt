-- ===== src/Scheduler/Topology.antt =====
-- src/server/scheduler.rs: `topology_value` and `pod_affinity_satisfied`.
use superkube.Base.{
  String, Bool, false, ◌&&◌, not, Option, List, [], ◌∷◌, ◌==◌, if◌then◌else◌, Map, get, any, map,
  map_or, and_then,
}
use superkube.Models.Meta.{name_of, namespace_of, labels_of}
use superkube.Models.Affinity.{PodAffinityTerm}
use superkube.Models.Node.{Node}
use superkube.Models.Pod.{Pod}
use superkube.Scheduler.Labels.{selector_matches}

unfoldable pub topology_value : Node → String → Option String
topology_value node key = get key (labels_of node.metadata)

-- `Iterator::collect` into a `HashMap`: a later entry of a key replaces an earlier one.
unfoldable pub collect {ℓ} : {V : Type ℓ} → Map V → Map V → Map V
collect acc [] = acc
collect acc ((k, v) ∷ entries) = collect ((k, v) ∷ acc) entries

unfoldable pub node_topology : String → List Node → Map (Option String)
unfolding topology_value collect
node_topology key nodes = collect [] (map (λ n. (name_of n.metadata, topology_value n key)) nodes)

-- Two topology values agree only if both are there.
unfoldable pub same_value : Option String → Option String → Bool
same_value a b = map_or a false (λ x. map_or b false (λ y. x == y))

unfoldable pub allowed_namespaces : PodAffinityTerm → String → List String
allowed_namespaces term pod_namespace = elim term.namespaces [
  | [] ↦ pod_namespace ∷ []
  | ns ∷ rest ↦ ns ∷ rest
]

-- Whether an existing pod is one that the term speaks of, in the candidate's topology domain.
unfoldable pub shares_domain : Node → List Node → PodAffinityTerm → String → Pod → Bool
unfolding topology_value node_topology same_value allowed_namespaces
shares_domain candidate nodes term pod_namespace p =
    any (λ n. n == namespace_of p.metadata) (allowed_namespaces term pod_namespace)
    && selector_matches term.label_selector (labels_of p.metadata)
    && map_or p.spec.node_name false (λ pod_node.
      same_value (and_then (get pod_node (node_topology term.topology_key nodes)) (λ topo. topo))
        (topology_value candidate term.topology_key))

unfoldable pub pod_affinity_satisfied :
    Node → List Node → List Pod → PodAffinityTerm → String → Bool → Bool
unfolding shares_domain
pod_affinity_satisfied candidate nodes existing_pods term pod_namespace affinity =
    let any_match = any (shares_domain candidate nodes term pod_namespace) existing_pods in
    if affinity then any_match else not any_match
