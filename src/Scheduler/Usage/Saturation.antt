-- ===== src/Scheduler/Usage/Saturation.antt =====
-- What a node's usage is: the plain sum over the pods that count for it, capped at `u64::MAX`.
-- And how it grows when one more pod is bound.
use superkube.Base.{
  inl, inr, ℕ, ◌+◌, ◌≤◌, ◌≡◌, ◌≢◌, refl, sym, ◌∙◌, Bool, true, false, Option, some, List, [], ◌∷◌,
  ◌++◌, map, min, String, if◌then◌else◌, Bool-cases, eq_iff, arith, ◌==◌, ℕ_discrete, subst,
  false≢true,
}
use superkube.Models.Meta.{name_of}
use superkube.Models.Node.{Node}
use superkube.Models.Pod.{Pod}
use superkube.Scheduler.Float.{F64, u64_max}
use superkube.Scheduler.Usage.{
  saturating_add, uses_node, sum_pod_requests, sum_used, sum_used_on_node, allocatable_cpu,
  allocatable_mem, bound_to,
}
use superkube.Scheduler.Selection.Feasible.{HasRoom}
use superkube.Scheduler.Usage.Requests.{
  sum, requested, counts_for, cpu_asked, mem_asked, uses_node_iff, sum_pod_requests-capped,
}

module _ (f : F64) (name : String) where
  capped : ℕ × ℕ → List Pod → ℕ × ℕ
  unfolding requested sum
  capped sums ps = (
    min (sums.0 + requested (cpu_asked f) name ps) u64_max,
    min (sums.1 + requested (mem_asked f) name ps) u64_max,
  )

  sum_used-capped :
      (c m : ℕ) (ps : List Pod)
      → c ≤ u64_max
      → m ≤ u64_max
      → sum_used f name (c, m) ps ≡ capped (c, m) ps
  unfolding sum_used capped
  sum_used-capped c m [] hc hm = ground arith
  sum_used-capped c m (p ∷ ps) hc hm =
      elim (Bool-cases (counts_for name p.spec.node_name p.status)) [
        | inr out ↦ rw (uses_node_iff name p, out) (sum_used-capped c m ps hc hm)
        | inl counted ↦
            let requests = sum_pod_requests-capped f p in
            rw (uses_node_iff name p, counted, requests)
              (sum_used-capped
                  (saturating_add c (min (sum (map (cpu_asked f) p.spec.containers)) u64_max))
                  (saturating_add m (min (sum (map (mem_asked f) p.spec.containers)) u64_max)) ps
                  (omega arith) (omega arith)
                ∙ ground arith)
      ]

  sum_used-append :
      (ps : List Pod) (p : Pod) (sums : ℕ × ℕ)
      → sum_used f name sums (ps ++ p ∷ []) ≡ sum_used f name (sum_used f name sums ps) (p ∷ [])
  unfolding sum_used
  sum_used-append [] p sums = refl
  sum_used-append (q ∷ ps) p sums = sum_used-append ps p _

-- The usage of a node is, for each resource, the sum of what the containers ask for of the pods
-- that are bound to it and have not ended, capped at `u64::MAX`; a request that is missing or
-- cannot be read counts as zero.
pub sum_used_on_node_lem :
    (f : F64) (node : Node) (ps : List Pod)
    → sum_used_on_node f node ps ≡ (
      min (requested (cpu_asked f) (name_of node.metadata) ps) u64_max,
      min (requested (mem_asked f) (name_of node.metadata) ps) u64_max,
    )
unfolding sum_used_on_node capped
sum_used_on_node_lem f node ps =
    sum_used-capped f (name_of node.metadata) 0 0 ps (omega arith) (omega arith) ∙ ground arith

usage_max :
    (f : F64) (node : Node) (ps : List Pod)
    → ((sum_used_on_node f node ps).0 ≤ u64_max) × ((sum_used_on_node f node ps).1 ≤ u64_max)
usage_max f node ps = rw sum_used_on_node_lem (omega arith)

-- From usage `u` to `after` by requests `r` at most.
abbrev pub Grown : ℕ × ℕ → ℕ × ℕ → ℕ × ℕ → Type 0
Grown r u after =
    (after.0 ≤ saturating_add u.0 r.0)
    × (after.1 ≤ saturating_add u.1 r.1)
    × (r.0 ≡ 0 → after.0 ≤ u.0)
    × (r.1 ≡ 0 → after.1 ≤ u.1)

if-Grown :
    (counted : Bool) (r u : ℕ × ℕ)
    → (u.0 ≤ u64_max) × (u.1 ≤ u64_max)
    → Grown r u (if counted then (saturating_add u.0 r.0, saturating_add u.1 r.1) else u)
if-Grown true r u h = omega arith
if-Grown false r u h = omega arith

-- The usage of a node is within what it offers, where it says that.
abbrev pub Within : ℕ → Option ℕ → Type 0
Within used alloc = (a : ℕ) → alloc ≡ some a → used ≤ a

room_step :
    (u r after : ℕ) (alloc : Option ℕ)
    → after ≤ saturating_add u r
    → (r ≡ 0 → after ≤ u)
    → HasRoom u r alloc
    → Within u alloc
    → Within after alloc
room_step u r after alloc grows stays room within a e = elim (ℕ_discrete r 0) [
  | yes z ↦ omega (arith, stays z, within a e)
  | no nz ↦ omega (arith, room a e nz)
]

module _ (f : F64) where
  pub record InCapacity (pods : List Pod) (node : Node) : Type 0 where
    pub cpu : Within (sum_used_on_node f node pods).0 (allocatable_cpu f node)
    pub mem : Within (sum_used_on_node f node pods).1 (allocatable_mem f node)

  module _ (node : Node) (name : String) (pods : List Pod) (pod : Pod) where
    -- A binding to another node leaves the usage.
    pub usage_elsewhere :
        name ≢ name_of node.metadata
        → sum_used_on_node f node (pods ++ bound_to pod name ∷ []) ≡ sum_used_on_node f node pods
    unfolding sum_used_on_node sum_used
    usage_elsewhere ne =
        sum_used-append f (name_of node.metadata) pods (bound_to pod name) (0, 0)
        ∙ ground (arith, eq_iff name (name_of node.metadata))

    -- A binding to the node adds the requests, or nothing if the pod has ended.
    pub usage_here :
        name ≡ name_of node.metadata
        → Grown
            (sum_pod_requests f pod)
            (sum_used_on_node f node pods)
            (sum_used_on_node f node (pods ++ bound_to pod name ∷ []))
    unfolding sum_used_on_node sum_used sum_pod_requests
    usage_here e = rw (sum_used-append f (name_of node.metadata) pods (bound_to pod name) (0, 0)) (
        if-Grown (uses_node (name_of node.metadata) (bound_to pod name)) _ _
          (usage_max f node pods))

  -- If each node of the list has a name of its own and is within capacity, it stays so when a pod
  -- is bound to a node that the pod may be bound to.
  pub InCapacity-bind :
      (pods : List Pod) (pod : Pod) (chosen node : Node)
      → (name_of chosen.metadata ≡ name_of node.metadata → chosen ≡ node)
      → HasRoom
          (sum_used_on_node f chosen pods).0
          (sum_pod_requests f pod).0
          (allocatable_cpu f chosen)
      → HasRoom
          (sum_used_on_node f chosen pods).1
          (sum_pod_requests f pod).1
          (allocatable_mem f chosen)
      → InCapacity pods node
      → InCapacity (pods ++ bound_to pod (name_of chosen.metadata) ∷ []) node
  InCapacity-bind pods pod chosen node unique cpu mem v =
      let name = name_of chosen.metadata in
      elim (Bool-cases (name == name_of node.metadata)) [
        | inr ne ↦
            let elsewhere =
              usage_elsewhere node name pods pod (λ e. false≢true (sym ne ∙ (eq_iff name _).1 e)) in
            record { cpu = λ a e. rw elsewhere (v.cpu a e); mem = λ a e. rw elsewhere (v.mem a e) }
        | inl same ↦
            let e = (eq_iff name (name_of node.metadata)).0 same in
            let g = usage_here node name pods pod e in
            let here = unique e in
            record {
              cpu =
                  room_step _ _ _ (allocatable_cpu f node) g.0 g.2
                    (subst
                      (λ n.
                        HasRoom (sum_used_on_node f n pods).0 (sum_pod_requests f pod).0
                          (allocatable_cpu f n))
                      here cpu)
                    v.cpu;
              mem =
                  room_step _ _ _ (allocatable_mem f node) g.1 g.3
                    (subst
                      (λ n.
                        HasRoom (sum_used_on_node f n pods).1 (sum_pod_requests f pod).1
                          (allocatable_mem f n))
                      here mem)
                    v.mem;
            }
      ]
