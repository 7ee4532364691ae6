-- ===== src/Scheduler/Labels.antt =====
-- src/server/scheduler.rs: `is_node_ready`, and the matching of labels against selectors.
pub mod Meaning
use superkube.Base.{
  String, Bool, true, false, ◌&&◌, not, Option, none, some, List, [], ◌==◌, if◌then◌else◌, Map, get,
  any, all, is_some, is_none, map_or, and_then, head?, codes, ltb_ℤ, unwrap_or,
}
use superkube.Models.Meta.{LabelSelector, LabelSelectorRequirement, labels_of}
use superkube.Models.Affinity.{NodeSelectorRequirement, NodeSelectorTerm}
use superkube.Models.Node.{Node, NodeConditionType, ConditionStatus, ready}
use superkube.Scheduler.Quantity.{parse_i64}

unfoldable pub is_ready_type : NodeConditionType → Bool
is_ready_type ready = true
is_ready_type _ = false

unfoldable pub is_status_true : ConditionStatus → Bool
is_status_true ConditionStatus.true = true
is_status_true _ = false

unfoldable pub is_node_ready : Node → Bool
unfolding is_ready_type is_status_true
is_node_ready node =
    map_or (and_then node.status (λ s. s.conditions)) true
      (any (λ c. is_ready_type c.condition_type && is_status_true c.status))

-- `selector.iter().all(|(k, v)| labels.get(k) == Some(v))`.
unfoldable pub has_label : Map String → String × String → Bool
has_label labels (k, v) = map_or (get k labels) false (λ w. w == v)

unfoldable pub has_labels : Map String → Map String → Bool
unfolding has_label
has_labels selector labels = all (has_label labels) selector

-- `Gt` and `Lt`: both sides read as `i64`, the right one the first of the values.
unfoldable pub compare_first : Bool → Option String → List String → Bool
compare_first greater val values = map_or (and_then val (λ v. parse_i64 (codes v))) false (λ a.
    map_or (and_then (head? values) (λ x. parse_i64 (codes x))) false
      (λ b. if greater then ltb_ℤ b a else ltb_ℤ a b))

unfoldable pub match_expression : NodeSelectorRequirement → Map String → Bool
unfolding compare_first
match_expression req labels =
    let val = get req.key labels in
    if req.operator == "In"
    then map_or val false (λ v. any (λ x. x == v) req.values)
    else if req.operator == "NotIn"
    then map_or val true (λ v. all (λ x. not (x == v)) req.values)
    else if req.operator == "Exists"
    then is_some val
    else if req.operator == "DoesNotExist"
    then is_none val
    else if req.operator == "Gt"
    then compare_first true val req.values
    else if req.operator == "Lt"
    then compare_first false val req.values
    else true

unfoldable pub node_matches_term : Node → NodeSelectorTerm → Bool
unfolding match_expression
node_matches_term node term =
    all (λ req. match_expression req (labels_of node.metadata)) term.match_expressions

unfoldable pub requirement_matches : LabelSelectorRequirement → Map String → Bool
requirement_matches req labels =
    let val = get req.key labels in
    let values = unwrap_or req.values [] in
    if req.operator == "In"
    then map_or val false (λ v. any (λ x. x == v) values)
    else if req.operator == "NotIn"
    then map_or val true (λ v. all (λ x. not (x == v)) values)
    else if req.operator == "Exists"
    then is_some val
    else if req.operator == "DoesNotExist"
    then is_none val
    else true

unfoldable pub selector_matches : Option LabelSelector → Map String → Bool
unfolding has_labels requirement_matches
selector_matches none labels = true
selector_matches (some s) labels =
    map_or s.match_labels true (λ ml. has_labels ml labels)
    && map_or s.match_expressions true (all (λ req. requirement_matches req labels))
