-- ===== src/Scheduler/Pass/Capacity.antt =====
-- A pass of the scheduler overcommits no node.
use superkube.Base.{
  ◌≡◌, refl, sym, subst, Option, none, some, String, List, [], ◌∷◌, ◌++◌, All, Elem, Bool-cases,
  inl, inr, ◌⊎◌,
}
use superkube.Models.Meta.{name_of, namespace_of}
use superkube.Models.Node.{Node}
use superkube.Models.Pod.{Pod}
use superkube.Store.{Env, World, ok, err, Error, database, query, new_v4}
use superkube.PodRepository.{get_pod, bind_to_node}
use superkube.EventRepository.{emit_event}
use superkube.Store.Rows.{Json}
use superkube.Scheduler.Float.{F64}
use superkube.Scheduler.Usage.{ScoringStrategy, bound_to}
use superkube.Scheduler.Usage.Saturation.{InCapacity, InCapacity-bind}
use superkube.Scheduler.Selection.{find_node_for_pod}
use superkube.Scheduler.Selection.Best.{find_node-IsChosen, IsChosen}
use superkube.Scheduler.Pass.{
  recorded, publish_found, publish_current, publish_modified, schedule_on, schedule_pod,
  schedule_all,
}

-- Each node of the list has a name of its own.
abbrev pub HaveUniqueNames : List Node → Type 0
HaveUniqueNames nodes =
    (a b : Node) → Elem a nodes → Elem b nodes → name_of a.metadata ≡ name_of b.metadata → a ≡ b

Elem-append : {A : Type 0} (xs ys : List A) (a : A) → Elem a (xs ++ a ∷ ys)
Elem-append [] ys a = inl refl
Elem-append (x ∷ xs) ys a = inr (Elem-append xs ys a)

All-over {κ} :
    {A : Type 0} (P Q : A → Type κ) (whole xs : List A)
    → ((a : A) → Elem a xs → Elem a whole)
    → ((a : A) → Elem a whole → P a → Q a)
    → All P xs
    → All Q xs
All-over P Q whole [] within f all = tt
All-over P Q whole (x ∷ xs) within f all =
    (f x (within x (inl refl)) all.0, All-over P Q whole xs (λ a i. within a (inr i)) f all.1)

module _ (e : Env) (j : Json) (f : F64) (strategy : ScoringStrategy) where
  recorded-InCapacity :
      (pod : Pod) (nodes : List Node) (existing : List Pod) (chosen : Node)
      → HaveUniqueNames nodes
      → IsChosen f pod nodes existing strategy chosen
      → All (InCapacity f existing) nodes
      → All (InCapacity f (existing ++ bound_to pod (name_of chosen.metadata) ∷ [])) nodes
  recorded-InCapacity pod nodes existing chosen unique best all =
      let there =
        subst (Elem chosen) (sym best.split) (Elem-append best.before best.after chosen) in
      All-over (InCapacity f existing) _ nodes nodes (λ a i. i)
        (λ node i.
          InCapacity-bind f existing pod chosen node (unique chosen node there i)
            best.feasible.cpu_room best.feasible.mem_room)
        all

  pub publish_current_ok :
      (ns name : String) (w : World) → (publish_current e j f strategy ns name w).0 ≡ ok tt
  unfolding publish_current publish_found publish_modified
  publish_current_ok ns name w =
      elim (get_pod e j ns name w).0
        as (λ r. (publish_found e j f strategy ns name r (get_pod e j ns name w).1).0 ≡ ok tt) [
          | ok pod ↦ refl
          | err x ↦ refl
        ]

  -- A pod for which there is a node is bound to it, or the database has refused the binding.
  schedule_on_result :
      (pod : Pod) (n : Node) (w : World)
      → ((schedule_on e j f strategy pod (some n) w).0 ≡ ok (name_of n.metadata))
        ⊎ ((x : Error) × ((schedule_on e j f strategy pod (some n) w).0 ≡ err x))
  unfolding schedule_on bind_to_node query emit_event new_v4
  schedule_on_result pod n w = elim (Bool-cases (e.faults w.statements)) [
    | inl f ↦ inr (database, rw f refl)
    | inr f ↦
        inl (rw (f, publish_current_ok (namespace_of pod.metadata) (name_of pod.metadata)) refl)
  ]

  schedule_on-InCapacity :
      (pod : Pod) (nodes : List Node) (existing : List Pod) (w : World) (o : Option Node)
      → ((n : Node)
          → o ≡ some n
          → All (InCapacity f (existing ++ bound_to pod (name_of n.metadata) ∷ [])) nodes)
      → All (InCapacity f existing) nodes
      → All (InCapacity f (recorded pod existing (schedule_on e j f strategy pod o w).0)) nodes
  unfolding schedule_on recorded
  schedule_on-InCapacity pod nodes existing w none after all = all
  schedule_on-InCapacity pod nodes existing w (some n) after all =
      elim (schedule_on_result pod n w) [
        | inl bound ↦ rw bound (after n refl)
        | inr (x, failed) ↦ rw failed all
      ]

  schedule_pod-InCapacity :
      (pod : Pod) (nodes : List Node) (existing : List Pod) (w : World)
      → HaveUniqueNames nodes
      → All (InCapacity f existing) nodes
      → All
          (InCapacity f
            (recorded pod existing (schedule_pod e j f strategy pod nodes existing w).0))
          nodes
  unfolding schedule_pod
  schedule_pod-InCapacity pod nodes existing w unique all =
      schedule_on-InCapacity pod nodes existing w (find_node_for_pod f pod nodes existing strategy)
        (λ n h.
          recorded-InCapacity pod nodes existing n unique
            (find_node-IsChosen f pod nodes existing strategy n h) all)
        all

  -- If each node of the list has a name of its own and is within what it offers by the pods that the
  -- pass knows of, it still is so after the loop over the pending pods, whatever the database
  -- refuses on the way.
  pub schedule_all-InCapacity :
      (pods : List Pod) (nodes : List Node) (existing : List Pod) (w : World)
      → HaveUniqueNames nodes
      → All (InCapacity f existing) nodes
      → All (InCapacity f (schedule_all e j f strategy pods nodes existing w).0) nodes
  unfolding schedule_all
  schedule_all-InCapacity [] nodes existing w unique all = all
  schedule_all-InCapacity (pod ∷ pods) nodes existing w unique all =
      let (r, w') = schedule_pod e j f strategy pod nodes existing w in
      schedule_all-InCapacity pods nodes (recorded pod existing r) w' unique
        (schedule_pod-InCapacity pod nodes existing w unique all)
