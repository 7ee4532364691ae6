-- ===== src/Models/Affinity.antt =====
-- src/models/affinity.rs: scheduling preferences.
use superkube.Base.{String, Option, List, ℤ}
use superkube.Models.Meta.{LabelSelector}

pub record NodeSelectorRequirement : Type 0 where
  pub key : String
  pub operator : String
  pub values : List String

pub record NodeSelectorTerm : Type 0 where
  pub match_expressions : List NodeSelectorRequirement
  pub match_fields : List NodeSelectorRequirement

pub record NodeSelector : Type 0 where
  pub node_selector_terms : List NodeSelectorTerm

pub record PreferredSchedulingTerm : Type 0 where
  pub weight : ℤ
  pub preference : NodeSelectorTerm

pub record NodeAffinity : Type 0 where
  pub required_during_scheduling_ignored_during_execution : Option NodeSelector
  pub preferred_during_scheduling_ignored_during_execution : List PreferredSchedulingTerm

pub record PodAffinityTerm : Type 0 where
  pub label_selector : Option LabelSelector
  pub namespaces : List String
  pub topology_key : String

pub record WeightedPodAffinityTerm : Type 0 where
  pub weight : ℤ
  pub pod_affinity_term : PodAffinityTerm

pub record PodAffinity : Type 0 where
  pub required_during_scheduling_ignored_during_execution : List PodAffinityTerm
  pub preferred_during_scheduling_ignored_during_execution : List WeightedPodAffinityTerm

pub record PodAntiAffinity : Type 0 where
  pub required_during_scheduling_ignored_during_execution : List PodAffinityTerm
  pub preferred_during_scheduling_ignored_during_execution : List WeightedPodAffinityTerm

pub record Affinity : Type 0 where
  pub node_affinity : Option NodeAffinity
  pub pod_affinity : Option PodAffinity
  pub pod_anti_affinity : Option PodAntiAffinity
