-- ===== src/Scheduler/Pass/Outcome.antt =====
-- What one call of `schedule_pod` returns and does to the table of pods.
use superkube.Base.{
  ◌≡◌, refl, ap, ◌∙◌, ◌⊎◌, inl, inr, Option, none, some, String, List, true, All, ◌==◌, ◌&&◌,
  if◌then◌else◌, find, map_or, Bool-cases,
}
use superkube.Models.Meta.{name_of, namespace_of}
use superkube.Models.Event.{normal}
use superkube.Models.Node.{Node}
use superkube.Models.Pod.{Pod}
use superkube.Store.{Env, World, Result, ok, err, internal, database, query, new_v4, ◌>>◌, pure}
use superkube.Store.Frame.{Keeps, bind-Keeps}
use superkube.Store.Rows.{Json}
use superkube.PodRepository.{has_key, get_pod, bind_to_node}
use superkube.PodRepository.Reading.{pods_of, get_pod-Keeps}
use superkube.PodRepository.Binding.{bind_to_node_lem}
use superkube.EventRepository.{emit_event}
use superkube.EventRepository.Recording.{emit_event_lem}
use superkube.Scheduler.Float.{F64}
use superkube.Scheduler.Usage.{ScoringStrategy}
use superkube.Scheduler.Selection.{find_node_for_pod}
use superkube.Scheduler.Selection.Feasible.{IsFeasible}
use superkube.Scheduler.Selection.Best.{IsChosen, find_node-IsChosen, find_node_none_iff}
use superkube.Scheduler.Pass.{
  publish_modified, publish_found, publish_current, pod_ref, schedule_on, schedule_pod,
}
use superkube.Scheduler.Pass.Capacity.{publish_current_ok}

-- The row of the pod's key has the node; every other key has its row.
abbrev pub BoundTo : Env → Pod → String → World → World → Type 0
BoundTo e pod node_name w w' =
    (ns name : String)
    → find (has_key ns name) w'.pods ≡ (
        if namespace_of pod.metadata == ns && name_of pod.metadata == name
        then map_or (find (has_key ns name) w.pods) none (λ row.
          some (record row { node_name = some node_name; updated_at = e.clock w.statements }))
        else find (has_key ns name) w.pods)

module _ (e : Env) (j : Json) (f : F64) (strategy : ScoringStrategy) where
  publish_found-Keeps :
      (ns name : String) (r : Result Pod) → Keeps pods_of (publish_found e j f strategy ns name r)
  unfolding publish_found publish_modified
  publish_found-Keeps ns name (ok pod) w = refl
  publish_found-Keeps ns name (err x) w = refl

  publish_current-Keeps :
      (ns name : String) → Keeps pods_of (publish_current e j f strategy ns name)
  unfolding publish_current
  publish_current-Keeps ns name w =
      let (r, w') = get_pod e j ns name w in
      publish_found-Keeps ns name r w' ∙ get_pod-Keeps e j ns name w

  emit_event-Keeps :
      (pod : Pod) (ns message : String)
      → Keeps pods_of (emit_event e (pod_ref pod) ns normal "Scheduled" message "scheduler")
  emit_event-Keeps pod ns message w =
      ap (λ t. t.0) (emit_event_lem e (pod_ref pod) ns normal "Scheduled" message "scheduler" w).1

  -- What follows a binding that the database has taken.
  announce-Keeps :
      (pod : Pod) (ns name message node_name : String)
      → Keeps pods_of (
          publish_current e j f strategy ns name
          >> (emit_event e (pod_ref pod) ns normal "Scheduled" message "scheduler"
              >> pure node_name))
  announce-Keeps pod ns name message node_name =
      let emit = emit_event e (pod_ref pod) ns normal "Scheduled" message "scheduler" in
      bind-Keeps pods_of (publish_current e j f strategy ns name) (λ _. emit >> pure node_name)
        (publish_current-Keeps ns name)
        (λ _.
          bind-Keeps pods_of emit (λ _. pure node_name) (emit_event-Keeps pod ns message)
            (λ _ w. refl))

  refused_on :
      (pod : Pod) (n : Node) (w : World)
      → e.faults w.statements ≡ true
      → ((schedule_on e j f strategy pod (some n) w).0 ≡ err database)
        × ((schedule_on e j f strategy pod (some n) w).1.pods ≡ w.pods)
  unfolding schedule_on bind_to_node query
  refused_on pod n w refused = (rw refused refl, rw refused refl)

  schedule_on_lem :
      (pod : Pod) (n : Node) (w : World)
      → ((e.faults w.statements ≡ true)
          × ((schedule_on e j f strategy pod (some n) w).0 ≡ err database)
          × ((schedule_on e j f strategy pod (some n) w).1.pods ≡ w.pods))
        ⊎ (((schedule_on e j f strategy pod (some n) w).0 ≡ ok (name_of n.metadata))
            × BoundTo e pod (name_of n.metadata) w (schedule_on e j f strategy pod (some n) w).1)
  unfolding schedule_on emit_event new_v4
  schedule_on_lem pod n w = elim (Bool-cases (e.faults w.statements)) [
    | inl refused ↦ let (failed, same) = refused_on pod n w refused in inl (refused, failed, same)
    | inr taken ↦
        let ns = namespace_of pod.metadata in
        let name = name_of pod.metadata in
        let (after, bound, finds) = bind_to_node_lem e j ns name (name_of n.metadata) w taken in
        inr (
          rw (bound, publish_current_ok e j f strategy ns name) refl,
          λ k m. rw bound (ap (find (has_key k m)) (announce-Keeps pod _ _ _ _ _) ∙ finds k m),
        )
  ]

  -- The three ways in which a call of `schedule_pod` ends.
  pub Scheduled : Pod → List Node → List Pod → World → Result String × World → Type 0
  Scheduled pod nodes existing w (r, w') =
      (All (λ m. ¬ IsFeasible f pod nodes existing m) nodes
        × (r ≡ err (internal "No suitable node found for pod"))
        × (w' ≡ w))
      ⊎ ((n : Node) × IsChosen f pod nodes existing strategy n
          × (((e.faults w.statements ≡ true) × (r ≡ err database) × (w'.pods ≡ w.pods))
              ⊎ ((r ≡ ok (name_of n.metadata)) × BoundTo e pod (name_of n.metadata) w w')))

  outcome :
      (pod : Pod) (nodes : List Node) (existing : List Pod) (w : World) (o : Option Node)
      → find_node_for_pod f pod nodes existing strategy ≡ o
      → Scheduled pod nodes existing w (schedule_on e j f strategy pod o w)
  unfolding schedule_on Scheduled
  outcome pod nodes existing w none h =
      inl ((find_node_none_iff f pod nodes existing strategy).0 h, refl, refl)
  outcome pod nodes existing w (some n) h =
      inr (n, find_node-IsChosen f pod nodes existing strategy n h, schedule_on_lem pod n w)

  -- `schedule_pod` ends in one of three ways: the pod may be bound to no node of the list, the call
  -- fails and nothing is changed; or the database refuses the binding to the chosen node, the call
  -- fails and the table of pods stays; or the call returns the name of the chosen node, the row of
  -- the pod's key has that node, and every other key has its row, whatever is refused after that.
  pub schedule_pod_lem :
      (pod : Pod) (nodes : List Node) (existing : List Pod) (w : World)
      → Scheduled pod nodes existing w (schedule_pod e j f strategy pod nodes existing w)
  unfolding schedule_pod
  schedule_pod_lem pod nodes existing w =
      outcome pod nodes existing w (find_node_for_pod f pod nodes existing strategy) refl
