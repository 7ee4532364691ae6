-- ===== src/Scheduler/Selection/Feasible.antt =====
-- The candidates of the scheduling loop, described apart from its tests.
use superkube.Base.{
  ℕ, ◌≤◌, ◌≡◌, ◌≢◌, ◌↔◌, refl, String, true, Option, none, some, List, eq_iff, Map, get, All, Any,
  Decides, and_iff, all_iff, any, any_iff, not_iff, exists_some_iff, forall_some_iff, and_then,
  arith,
}
use superkube.Models.Meta.{namespace_of, labels_of}
use superkube.Models.Affinity.{
  NodeSelectorTerm, PodAffinityTerm, NodeSelector, PodAffinity, PodAntiAffinity,
}
use superkube.Models.Node.{Node, NodeCondition, NodeConditionType, ConditionStatus, ready}
use superkube.Models.Pod.{Pod}
use superkube.Scheduler.Float.{F64}
use superkube.Scheduler.Usage.{
  saturating_add, sum_pod_requests, sum_used_on_node, allocatable_cpu, allocatable_mem, fits,
  node_fits,
}
use superkube.Scheduler.Labels.{
  is_node_ready, node_matches_term, selector_matches, is_ready_type, is_status_true,
}
use superkube.Scheduler.Labels.Meaning.{HasLabels, has_labels_iff, Meets, match_expression_iff}
use superkube.Scheduler.Topology.{topology_value, node_topology, allowed_namespaces, shares_domain}
use superkube.Scheduler.Selection.{
  node_selector_ok, node_affinity_ok, pod_affinity_ok, pod_anti_affinity_ok, is_candidate,
}

-- The node does not report conditions, or one of them is Ready with status True.
abbrev pub ReportsReady : Node → Type 0
ReportsReady node =
    (conditions : List NodeCondition)
    → and_then node.status (λ s. s.conditions) ≡ some conditions
    → Any (λ c. (c.condition_type ≡ ready) × (c.status ≡ ConditionStatus.true)) conditions

abbrev pub MeetsTerm : Node → NodeSelectorTerm → Type 0
MeetsTerm node term =
    All (λ req. Meets req (get req.key (labels_of node.metadata))) term.match_expressions

-- The existing pod is one that the term selects, and its node has the candidate's topology value.
abbrev pub SharesDomain : Node → List Node → PodAffinityTerm → String → Pod → Type 0
SharesDomain candidate nodes term pod_namespace p =
    ((Any (λ n. n ≡ namespace_of p.metadata) (allowed_namespaces term pod_namespace)
        × (selector_matches term.label_selector (labels_of p.metadata) ≡ true))
      × ((pod_node : String) × (p.spec.node_name ≡ some pod_node)
          × ((x : String) × (and_then (get pod_node (node_topology term.topology_key nodes))
                  (λ topo. topo)
                ≡ some x)
              × ((y : String) × (topology_value candidate term.topology_key ≡ some y) × (x ≡ y)))))

-- A request that is not zero leaves the usage within what the node offers, where it says that.
abbrev pub HasRoom : ℕ → ℕ → Option ℕ → Type 0
HasRoom used request alloc =
    (a : ℕ) → alloc ≡ some a → request ≢ 0 → saturating_add used request ≤ a

is_ready_type_iff : (t : NodeConditionType) → Decides (is_ready_type t) (t ≡ ready)
unfolding is_ready_type
is_ready_type_iff ready = (λ _. refl, λ _. refl)
is_ready_type_iff _ = (λ h. cc, λ h. cc)

is_status_true_iff : (s : ConditionStatus) → Decides (is_status_true s) (s ≡ ConditionStatus.true)
unfolding is_status_true
is_status_true_iff ConditionStatus.true = (λ _. refl, λ _. refl)
is_status_true_iff _ = (λ h. cc, λ h. cc)

is_node_ready_iff : (node : Node) → Decides (is_node_ready node) (ReportsReady node)
unfolding is_node_ready
is_node_ready_iff node =
    forall_some_iff _ _
      (any_iff _ _
        (λ c. and_iff _ _ (is_ready_type_iff c.condition_type) (is_status_true_iff c.status)))
      (and_then node.status (λ s. s.conditions))

node_matches_term_iff :
    (node : Node) (term : NodeSelectorTerm)
    → Decides (node_matches_term node term) (MeetsTerm node term)
unfolding node_matches_term
node_matches_term_iff node term =
    all_iff _ _ (λ req. match_expression_iff req (labels_of node.metadata)) term.match_expressions

shares_domain_iff :
    (candidate : Node) (nodes : List Node) (term : PodAffinityTerm) (ns : String) (p : Pod)
    → Decides (shares_domain candidate nodes term ns p) (SharesDomain candidate nodes term ns p)
unfolding shares_domain
shares_domain_iff candidate nodes term ns p =
    and_iff _ _
      (and_iff _ _
        (any_iff _ _ (λ n. eq_iff n (namespace_of p.metadata)) (allowed_namespaces term ns))
        (λ h. h, λ h. h))
      (exists_some_iff _ _
        (λ pod_node.
          exists_some_iff _ _
            (λ x.
              exists_some_iff _ _ (λ y. eq_iff x y) (topology_value candidate term.topology_key))
            (and_then (get pod_node (node_topology term.topology_key nodes)) (λ topo. topo)))
        p.spec.node_name)

fits_iff :
    (used request : ℕ) (alloc : Option ℕ)
    → Decides (fits used request alloc) (HasRoom used request alloc)
unfolding fits
fits_iff used request none = (λ _ a e. cc, λ _. refl)
fits_iff used request (some b) = (λ h a e nz. ground arith, λ h. ground (arith, h b refl))

-- The required terms of the three kinds of affinity, if the pod has any.
abbrev pub required_node_affinity : Pod → Option NodeSelector
required_node_affinity pod =
    and_then (and_then pod.spec.affinity (λ a. a.node_affinity))
      (λ na. na.required_during_scheduling_ignored_during_execution)

abbrev pub pod_affinity_of : Pod → Option PodAffinity
pod_affinity_of pod = and_then pod.spec.affinity (λ a. a.pod_affinity)

abbrev pub pod_anti_affinity_of : Pod → Option PodAntiAffinity
pod_anti_affinity_of pod = and_then pod.spec.affinity (λ a. a.pod_anti_affinity)

-- A node that a pod may be bound to.
pub record IsFeasible (f : F64) (pod : Pod) (nodes : List Node) (existing : List Pod) (node : Node)
    : Type 0 where
  pub ready_node : ReportsReady node
  pub selected :
      (selector : Map String)
      → pod.spec.node_selector ≡ some selector
      → HasLabels selector (labels_of node.metadata)
  pub node_affinity :
      (required : NodeSelector)
      → required_node_affinity pod ≡ some required
      → Any (MeetsTerm node) required.node_selector_terms
  pub near :
      (pa : PodAffinity)
      → pod_affinity_of pod ≡ some pa
      → All
          (λ term. Any (SharesDomain node nodes term (namespace_of pod.metadata)) existing)
          pa.required_during_scheduling_ignored_during_execution
  pub apart :
      (paa : PodAntiAffinity)
      → pod_anti_affinity_of pod ≡ some paa
      → All
          (λ term. ¬ Any (SharesDomain node nodes term (namespace_of pod.metadata)) existing)
          paa.required_during_scheduling_ignored_during_execution
  pub cpu_room :
      HasRoom
        (sum_used_on_node f node existing).0
        (sum_pod_requests f pod).0
        (allocatable_cpu f node)
  pub mem_room :
      HasRoom
        (sum_used_on_node f node existing).1
        (sum_pod_requests f pod).1
        (allocatable_mem f node)

module _ (f : F64) (pod : Pod) (nodes : List Node) (existing : List Pod) (node : Node) where
  node_selector_ok_iff : Decides (node_selector_ok pod node) (
      (selector : Map String)
      → pod.spec.node_selector ≡ some selector
      → HasLabels selector (labels_of node.metadata))
  unfolding node_selector_ok
  node_selector_ok_iff =
      forall_some_iff _ _ (λ selector. has_labels_iff selector (labels_of node.metadata))
        pod.spec.node_selector

  node_affinity_ok_iff : Decides (node_affinity_ok pod node) (
      (required : NodeSelector)
      → required_node_affinity pod ≡ some required
      → Any (MeetsTerm node) required.node_selector_terms)
  unfolding node_affinity_ok
  node_affinity_ok_iff =
      forall_some_iff _ _
        (λ required. any_iff _ _ (node_matches_term_iff node) required.node_selector_terms)
        (required_node_affinity pod)

  shares_any_iff :
      (term : PodAffinityTerm)
      → Decides
          (any (shares_domain node nodes term (namespace_of pod.metadata)) existing)
          (Any (SharesDomain node nodes term (namespace_of pod.metadata)) existing)
  shares_any_iff term =
      any_iff _ _ (shares_domain_iff node nodes term (namespace_of pod.metadata)) existing

  pod_affinity_ok_iff : Decides (pod_affinity_ok pod nodes existing node) (
      (pa : PodAffinity)
      → pod_affinity_of pod ≡ some pa
      → All
          (λ term. Any (SharesDomain node nodes term (namespace_of pod.metadata)) existing)
          pa.required_during_scheduling_ignored_during_execution)
  unfolding pod_affinity_ok
  pod_affinity_ok_iff =
      forall_some_iff _ _
        (λ pa. all_iff _ _ shares_any_iff pa.required_during_scheduling_ignored_during_execution)
        (pod_affinity_of pod)

  pod_anti_affinity_ok_iff : Decides (pod_anti_affinity_ok pod nodes existing node) (
      (paa : PodAntiAffinity)
      → pod_anti_affinity_of pod ≡ some paa
      → All
          (λ term. ¬ Any (SharesDomain node nodes term (namespace_of pod.metadata)) existing)
          paa.required_during_scheduling_ignored_during_execution)
  unfolding pod_anti_affinity_ok
  pod_anti_affinity_ok_iff =
      forall_some_iff _ _
        (λ paa.
          all_iff _ _ (λ term. not_iff _ (shares_any_iff term))
            paa.required_during_scheduling_ignored_during_execution)
        (pod_anti_affinity_of pod)

  node_fits_iff :
      Decides (node_fits f node existing (sum_pod_requests f pod).0 (sum_pod_requests f pod).1) (
        HasRoom
          (sum_used_on_node f node existing).0
          (sum_pod_requests f pod).0
          (allocatable_cpu f node)
        × HasRoom
            (sum_used_on_node f node existing).1
            (sum_pod_requests f pod).1
            (allocatable_mem f node))
  unfolding node_fits
  node_fits_iff =
      and_iff _ _ (fits_iff _ _ (allocatable_cpu f node)) (fits_iff _ _ (allocatable_mem f node))

  -- The loop keeps a node as a candidate exactly when the pod may be bound to it: the node does not
  -- report that it is not ready, has the labels of the node selector, meets a required node
  -- affinity term, shares the topology of a pod that each required pod affinity term selects and of
  -- none that a required anti-affinity term selects, and has room for the requests.
  pub is_candidate_iff :
      (is_candidate f pod nodes existing node ≡ true) ↔ IsFeasible f pod nodes existing node
  unfolding is_candidate
  is_candidate_iff =
      let ready_selected = and_iff _ _ (is_node_ready_iff node) node_selector_ok_iff in
      let on_node = and_iff _ _ ready_selected node_affinity_ok_iff in
      let with_near = and_iff _ _ on_node pod_affinity_ok_iff in
      let with_apart = and_iff _ _ with_near pod_anti_affinity_ok_iff in
      let tests = and_iff _ _ with_apart node_fits_iff in
      (
        λ h.
            let t = tests.0 h in
            record {
              ready_node = t.0.0.0.0.0;
              selected = t.0.0.0.0.1;
              node_affinity = t.0.0.0.1;
              near = t.0.0.1;
              apart = t.0.1;
              cpu_room = t.1.0;
              mem_room = t.1.1;
            },
        λ v. tests.1 (
          ((((v.ready_node, v.selected), v.node_affinity), v.near), v.apart),
          (v.cpu_room, v.mem_room),
        ),
      )
