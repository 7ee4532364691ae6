-- ===== src/Scheduler/Pass/Tests.antt =====
-- A pass with two pods over two nodes.
use superkube.Base.{
  String, ◌≢◌, ap, sym, ◌∙◌, false, false≢true, none, some, List, [], ◌∷◌, All, inl, inr, eq_iff,
  arith,
}
use superkube.Models.Meta.{name_of}
use superkube.Models.Node.{Node}
use superkube.Store.{Env, World, empty_world}
use superkube.Store.Rows.{Json, Codec}
use superkube.Scheduler.Usage.{least_allocated, sum_used_on_node, sum_used}
use superkube.Scheduler.Usage.Saturation.{InCapacity}
use superkube.Scheduler.Pass.{schedule_all, schedule_pod}
use superkube.Scheduler.Pass.Capacity.{HaveUniqueNames, schedule_all-InCapacity}
use superkube.Scheduler.Pass.Outcome.{Scheduled, schedule_pod_lem}
use superkube.Scheduler.Whole.{whole}
use superkube.Scheduler.Tests.{web, node_a, node_b}

abbrev blank : {A : Type 0} → Codec A
blank = record { encode = λ a. some "null"; encode_option = λ o. some "null"; decode = λ t. none }

abbrev json : Json
json = record {
  labels = blank;
  spec = blank;
  statuses = blank;
  owners = blank;
  addresses = blank;
  node_info = blank;
}

abbrev env : Env
env = record {
  random = λ n. n;
  short = λ u. "0a1b2c3d";
  hex = λ u. "a1b2c3d";
  clock = λ n. n;
  faults = λ n. false;
}

abbrev world : World
world = empty_world

abbrev nodes : List Node
nodes = node_a ∷ node_b ∷ []

abbrev a_name : String
a_name = "a"

apart : a_name ≢ "b"
apart e = false≢true ((eq_iff "a" "b").1 e)

abbrev name : Node → String
name n = name_of n.metadata

names : HaveUniqueNames nodes
names x y (inl a) (inl b) e = sym a ∙ b
names x y (inl a) (inr (inl b)) e = absurd (apart (ap name a ∙ e ∙ sym (ap name b)))
names x y (inr (inl a)) (inl b) e = absurd (apart (ap name b ∙ sym e ∙ sym (ap name a)))
names x y (inr (inl a)) (inr (inl b)) e = sym a ∙ b
names x y (inl a) (inr (inr t)) e = absurd t
names x y (inr (inl a)) (inr (inr t)) e = absurd t
names x y (inr (inr t)) _ e = absurd t

idle : (n : Node) → InCapacity whole [] n
unfolding sum_used_on_node sum_used
idle n = record { cpu = λ a e. omega arith; mem = λ a e. omega arith }

schedule_all-InCapacity_example :
    All
      (InCapacity whole
        (schedule_all env json whole least_allocated (web ∷ web ∷ []) nodes [] world).0)
      nodes
schedule_all-InCapacity_example =
    schedule_all-InCapacity env json whole least_allocated (web ∷ web ∷ []) nodes [] world names
      (idle node_a, (idle node_b, tt))

schedule_pod_example :
    Scheduled env json whole least_allocated web nodes [] world
      (schedule_pod env json whole least_allocated web nodes [] world)
schedule_pod_example = schedule_pod_lem env json whole least_allocated web nodes [] world
