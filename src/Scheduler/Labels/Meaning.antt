-- ===== src/Scheduler/Labels/Meaning.antt =====
-- What the label tests of the scheduler mean, as the Kubernetes documentation words it.
use superkube.Base.{
  ◌≡◌, ◌≢◌, ◌↔◌, inl, inr, sym, ap, ◌∙◌, subst, String, Bool, true, false, false≢true, not, Option,
  none, some, List, ◌==◌, eq_iff, Map, get, all, All, Elem, Decides, all_iff, any_iff, not_iff,
  exists_some_iff, forall_some_iff, and_then, head?, codes, ltb_ℤ, Bool-cases, Option-cases, arith,
  ℤ, ◌<◌, ◌+◌, pos_part, neg_part,
}
use superkube.Models.Affinity.{NodeSelectorRequirement}
use superkube.Scheduler.Quantity.{parse_i64}
use superkube.Scheduler.Labels.{has_label, has_labels, compare_first, match_expression}

abbrev pub HasLabels : Map String → Map String → Type 0
HasLabels selector labels = All (λ kv. get kv.0 labels ≡ some kv.1) selector

eq_text_iff : (v : String) (x : String) → Decides (x == v) (x ≡ v)
eq_text_iff v x = eq_iff x v

has_label_iff :
    (labels : Map String) (kv : String × String)
    → Decides (has_label labels kv) (get kv.0 labels ≡ some kv.1)
unfolding has_label
has_label_iff labels (k, v) = elim (Option-cases (get k labels)) [
  | inl e ↦ rw e (λ h. absurd (false≢true h), λ h. cc)
  | inr (w, e) ↦ rw e (λ h. ap some ((eq_iff w v).0 h), λ h. ground (arith, eq_iff w v))
]

-- `has_labels` holds when the labels have each key of the selector with its value.
pub has_labels_iff :
    (selector labels : Map String)
    → Decides (has_labels selector labels) (HasLabels selector labels)
unfolding has_labels
has_labels_iff selector labels = all_iff (has_label labels) _ (has_label_iff labels) selector

-- `a < b` on integers.
infix 50 ◌<ℤ◌
abbrev pub ◌<ℤ◌ : ℤ → ℤ → Type 0
◌<ℤ◌ a b = pos_part a + neg_part b < pos_part b + neg_part a

-- A text read as an `i64`.
abbrev pub read : Option String → Option ℤ
read o = and_then o (λ v. parse_i64 (codes v))

-- When a label meets a requirement, by the operator. An unknown operator is met.
pub data Meets (req : NodeSelectorRequirement) (val : Option String) : Type 0 where
  is_in : (v : String) → req.operator ≡ "In" → val ≡ some v → Elem v req.values → Meets req val
  is_not_in :
      req.operator ≡ "NotIn"
      → ((v : String) → val ≡ some v → All (λ x. x ≢ v) req.values)
      → Meets req val
  exists : (v : String) → req.operator ≡ "Exists" → val ≡ some v → Meets req val
  does_not_exist : req.operator ≡ "DoesNotExist" → val ≡ none → Meets req val
  greater :
      (a b : ℤ)
      → req.operator ≡ "Gt"
      → read val ≡ some a
      → read (head? req.values) ≡ some b
      → b <ℤ a
      → Meets req val
  less :
      (a b : ℤ)
      → req.operator ≡ "Lt"
      → read val ≡ some a
      → read (head? req.values) ≡ some b
      → a <ℤ b
      → Meets req val
  unknown :
      req.operator ≢ "In"
      → req.operator ≢ "NotIn"
      → req.operator ≢ "Exists"
      → req.operator ≢ "DoesNotExist"
      → req.operator ≢ "Gt"
      → req.operator ≢ "Lt"
      → Meets req val

not_eq_text_iff : (v : String) (x : String) → Decides (not (x == v)) (x ≢ v)
not_eq_text_iff v x = not_iff (x == v) (eq_iff x v)

not_in_iff :
    (values : List String) (v : String)
    → Decides (all (λ x. not (x == v)) values) (All (λ x. x ≢ v) values)
not_in_iff values v = all_iff _ _ (not_eq_text_iff v) values

ltb_ℤ_iff : (a b : ℤ) → Decides (ltb_ℤ a b) (a <ℤ b)
ltb_ℤ_iff a b = ground arith

-- The two readings that `Gt` and `Lt` compare, and how.
Compares : (ℤ → ℤ → Type 0) → Option String → List String → Type 0
Compares P val values =
    (a : ℤ) × (read val ≡ some a) × ((b : ℤ) × (read (head? values) ≡ some b) × P a b)

greater_iff :
    (val : Option String) (values : List String)
    → Decides (compare_first true val values) (Compares (λ a b. b <ℤ a) val values)
unfolding compare_first Compares
greater_iff val values =
    exists_some_iff _ _ (λ a. exists_some_iff _ _ (λ b. ltb_ℤ_iff b a) (read (head? values)))
      (read val)

less_iff :
    (val : Option String) (values : List String)
    → Decides (compare_first false val values) (Compares (λ a b. a <ℤ b) val values)
unfolding compare_first Compares
less_iff val values =
    exists_some_iff _ _ (λ a. exists_some_iff _ _ (λ b. ltb_ℤ_iff a b) (read (head? values)))
      (read val)

Meets-match :
    (req : NodeSelectorRequirement) (labels : Map String)
    → Meets req (get req.key labels)
    → match_expression req labels ≡ true
unfolding match_expression Compares
Meets-match req labels (is_in v op has m) =
    rw (op, has) ((any_iff _ _ (eq_text_iff v) req.values).1 m)
Meets-match req labels (is_not_in op out) =
    rw op ((forall_some_iff _ _ (not_in_iff req.values) (get req.key labels)).1 out)
Meets-match req labels (exists v op has) = rw (op, has)
Meets-match req labels (does_not_exist op absent) = rw (op, absent)
Meets-match req labels (greater a b op ra rb lt) =
    rw op ((greater_iff (get req.key labels) req.values).1 (a, ra, (b, rb, lt)))
Meets-match req labels (less a b op ra rb lt) =
    rw op ((less_iff (get req.key labels) req.values).1 (a, ra, (b, rb, lt)))
Meets-match req labels (unknown a b c d e g) = ground (
  arith,
  eq_iff req.operator "In",
  eq_iff req.operator "NotIn",
  eq_iff req.operator "Exists",
  eq_iff req.operator "DoesNotExist",
  eq_iff req.operator "Gt",
  eq_iff req.operator "Lt",
)

-- The operator is one of the six, or none of them.
Named : String → String → Bool → Type 0
Named operator name true = operator ≡ name
Named operator name false = operator ≢ name

Named-cases : (operator name : String) → Named operator name (operator == name)
unfolding Named
Named-cases operator name = elim (Bool-cases (operator == name)) [
  | inl e ↦ rw e ((eq_iff operator name).0 e)
  | inr e ↦ rw e (λ same. false≢true (sym e ∙ (eq_iff operator name).1 same))
]

match-Meets :
    (req : NodeSelectorRequirement) (labels : Map String)
    → match_expression req labels ≡ true
    → Meets req (get req.key labels)
unfolding match_expression Compares Named
match-Meets req labels h =
    let val = get req.key labels in
    let test = λ (name : String). Bool-cases (req.operator == name) in
    let is =
      λ (name : String) (e : (req.operator == name) ≡ true). (eq_iff req.operator name).0 e in
    let is_no = λ (name : String) (e : (req.operator == name) ≡ false).
      subst (Named req.operator name) e (Named-cases req.operator name) in
    elim (test "In") [
      | inl op ↦
          let (v, has, m) =
            (exists_some_iff _ _ (λ v. any_iff _ _ (eq_text_iff v) req.values) val).0
              (rw op at h) in
          is_in v (is "In" op) has m
      | inr a ↦ elim (test "NotIn") [
        | inl op ↦
            is_not_in (is "NotIn" op)
              ((forall_some_iff _ _ (not_in_iff req.values) val).0 (rw (a, op) at h))
        | inr b ↦ elim (test "Exists") [
          | inl op ↦ elim (Option-cases val) [
            | inl e ↦ absurd (false≢true (rw (a, b, op, e) at h))
            | inr (v, e) ↦ exists v (is "Exists" op) e
          ]
          | inr c ↦ elim (test "DoesNotExist") [
            | inl op ↦ elim (Option-cases val) [
              | inl e ↦ does_not_exist (is "DoesNotExist" op) e
              | inr (v, e) ↦ absurd (false≢true (rw (a, b, c, op, e) at h))
            ]
            | inr d ↦ elim (test "Gt") [
              | inl op ↦
                  let (x, rx, (y, ry, lt)) =
                    (greater_iff val req.values).0 (rw (a, b, c, d, op) at h) in
                  greater x y (is "Gt" op) rx ry lt
              | inr e ↦ elim (test "Lt") [
                | inl op ↦
                    let (x, rx, (y, ry, lt)) =
                      (less_iff val req.values).0 (rw (a, b, c, d, e, op) at h) in
                    less x y (is "Lt" op) rx ry lt
                | inr g ↦
                    unknown (is_no "In" a) (is_no "NotIn" b) (is_no "Exists" c)
                      (is_no "DoesNotExist" d) (is_no "Gt" e) (is_no "Lt" g)
              ]
            ]
          ]
        ]
      ]
    ]

-- A requirement of node affinity matches exactly when the label meets it.
pub match_expression_iff :
    (req : NodeSelectorRequirement) (labels : Map String)
    → (match_expression req labels ≡ true) ↔ Meets req (get req.key labels)
match_expression_iff req labels = (match-Meets req labels, Meets-match req labels)
