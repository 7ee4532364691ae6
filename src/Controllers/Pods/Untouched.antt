-- ===== src/Controllers/Pods/Untouched.antt =====
-- Which pods `reconcile_pods` leaves alone.
use superkube.Base.{
  ◌≡◌, refl, sym, false≢true, ◌∙◌, String, Bool, true, false, ◌&&◌, ◌||◌, ◌⊎◌, inl, inr, Bool-cases,
  Option, none, some, List, [], ◌∷◌, ◌==◌, if◌then◌else◌, any, map_or, All, append,
}
use superkube.Models.Meta.{Uuid, name_of, namespace_of}
use superkube.Models.Event.{warning}
use superkube.Models.Pod.{Pod}
use superkube.Store.{Env, World, Result, ok, err, ◌>>◌, pure, ignore, new_v4}
use superkube.Store.Rows.{Json}
use superkube.Store.Bus.{modified, deleted}
use superkube.Store.Frame.{Keeps, bind-Keeps}
use superkube.PodRepository.{get_pod, delete, update_status}
use superkube.PodRepository.Keyed.{row_at, untouched, create-Keeps, delete-Keeps}
use superkube.PodRepository.Status.{update_status-Keeps}
use superkube.PodRepository.Reading.{pods_of, get_pod-Keeps}
use superkube.Controllers.Frame.{publish-Keeps, emit_event-Keeps, each-Keeps}
use superkube.Controllers.Owned.{publish, each, pod_ref}
use superkube.Controllers.Pods.{
  is_stranded, is_respun, respun_pod, failed_status, publish_found, republish, report, recreate,
  mark_failed, check_node, respin, reconcile_pod,
}

-- Whether the pass has something to do for the pod: it runs on a node that is not ready, or it has
-- failed, has no owner, and is to be restarted.
unfoldable pub is_concerned : List String → Pod → Bool
unfolding is_stranded is_respun
is_concerned ready pod = map_or pod.spec.node_name false (is_stranded ready pod) || is_respun pod

abbrev pub has_pod_key : String → String → Pod → Bool
has_pod_key n k pod = namespace_of pod.metadata == n && name_of pod.metadata == k

or_false : (a b : Bool) → (a || b) ≡ false → (a ≡ false) × (b ≡ false)
or_false false b h = (refl, h)
or_false true b h = absurd (false≢true (sym h))

neither :
    (a b c : Bool)
    → (a && (b || c)) ≡ false
    → ((a ≡ false) ⊎ (b ≡ false)) × ((a ≡ false) ⊎ (c ≡ false))
neither false b c h = (inl refl, inl refl)
neither true false c h = (inr refl, inr h)
neither true true c h = absurd (false≢true (sym h))

module _ (e : Env) (j : Json) where
  publish_found-Keeps :
      (ns name : String) (found : Result Pod) → Keeps pods_of (publish_found e j ns name found)
  unfolding publish_found
  publish_found-Keeps ns name (err x) = λ w. refl
  publish_found-Keeps ns name (ok pod) = publish-Keeps modified ns name pod

  pub republish-Keeps : (pod : Pod) → Keeps pods_of (republish e j pod)
  unfolding republish
  republish-Keeps pod w =
      let ns = namespace_of pod.metadata in
      let name = name_of pod.metadata in
      let (found, w') = get_pod e j ns name w in
      publish_found-Keeps ns name found w' ∙ get_pod-Keeps e j ns name w

  pub report-Keeps : (pod : Pod) (node_name : String) → Keeps pods_of (report e j pod node_name)
  unfolding report
  report-Keeps pod node_name =
      emit_event-Keeps e (pod_ref pod) (namespace_of pod.metadata) warning "NodeNotReady"
        (append "Node " (append node_name " stopped reporting ready, pod marked Failed"))
        "node-controller"

module _ (e : Env) (j : Json) (n k : String) where
  mark_failed-Keeps :
      (pod : Pod) (node_name : String)
      → has_pod_key n k pod ≡ false
      → Keeps (row_at n k) (mark_failed e j pod node_name)
  unfolding mark_failed
  mark_failed-Keeps pod node_name other =
      let status =
        update_status e j (namespace_of pod.metadata) (name_of pod.metadata) (failed_status pod) in
      bind-Keeps (row_at n k) (ignore status) (λ _. republish e j pod >> report e j pod node_name)
        (update_status-Keeps e j _ _ n k (failed_status pod) other)
        (λ _.
          bind-Keeps (row_at n k) (republish e j pod) (λ _. report e j pod node_name)
            (untouched e j n k (republish e j pod) (republish-Keeps e j pod))
            (λ _. untouched e j n k (report e j pod node_name) (report-Keeps e j pod node_name)))

  recreate-Keeps :
      (pod : Pod) (uid : Uuid)
      → has_pod_key n k pod ≡ false
      → Keeps (row_at n k) (recreate e j pod uid)
  unfolding recreate publish respun_pod
  recreate-Keeps pod uid other w = create-Keeps e j n k (respun_pod pod uid) other w

  respin-Keeps : (pod : Pod) → has_pod_key n k pod ≡ false → Keeps (row_at n k) (respin e j pod)
  unfolding respin publish new_v4
  respin-Keeps pod other w =
      let gone = (delete e j (namespace_of pod.metadata) (name_of pod.metadata) w).1 in
      let drawn =
        (new_v4 e
          (publish deleted (namespace_of pod.metadata) (name_of pod.metadata) pod gone).1).1 in
      recreate-Keeps pod (e.random gone.drawn) other drawn ∙ delete-Keeps e j n k _ _ other w

  check_node-Keeps :
      (ready : List String) (pod : Pod) (node : Option String)
      → (has_pod_key n k pod ≡ false) ⊎ (map_or node false (is_stranded ready pod) ≡ false)
      → Keeps (row_at n k) (check_node e j ready pod node)
  unfolding check_node
  check_node-Keeps ready pod none h = λ w. refl
  check_node-Keeps ready pod (some node) (inr s) = λ w. rw s refl
  check_node-Keeps ready pod (some node) (inl other) = λ w.
      elim (Bool-cases (is_stranded ready pod node)) [
        | inl s ↦ rw s (mark_failed-Keeps pod node other w)
        | inr s ↦ rw s refl
      ]

  either-Keeps :
      (pod : Pod)
      → (has_pod_key n k pod ≡ false) ⊎ (is_respun pod ≡ false)
      → Keeps (row_at n k) (if is_respun pod then respin e j pod else pure tt)
  either-Keeps pod (inr r) w = rw r refl
  either-Keeps pod (inl other) w = elim (Bool-cases (is_respun pod)) [
    | inl r ↦ rw r (respin-Keeps pod other w)
    | inr r ↦ rw r refl
  ]

  -- One round of the loop changes the row of no other pod, and none at all where nothing is to be
  -- done.
  reconcile_pod-Keeps :
      (ready : List String) (pod : Pod)
      → (has_pod_key n k pod && is_concerned ready pod) ≡ false
      → Keeps (row_at n k) (reconcile_pod e j ready pod)
  unfolding reconcile_pod is_concerned
  reconcile_pod-Keeps ready pod h =
      let (marks, respins) =
        neither (has_pod_key n k pod) (map_or pod.spec.node_name false (is_stranded ready pod))
          (is_respun pod) h in
      bind-Keeps (row_at n k) (check_node e j ready pod pod.spec.node_name)
        (λ _. if is_respun pod then respin e j pod else pure tt)
        (check_node-Keeps ready pod pod.spec.node_name marks) (λ _. either-Keeps pod respins)

  each_quiet :
      (ready : List String) (pods : List Pod)
      → any (λ pod. has_pod_key n k pod && is_concerned ready pod) pods ≡ false
      → All (λ pod. Keeps (row_at n k) (reconcile_pod e j ready pod)) pods
  each_quiet ready [] h = tt
  each_quiet ready (pod ∷ pods) h =
      let (first, rest) = or_false _ _ h in
      (reconcile_pod-Keeps ready pod first, each_quiet ready pods rest)

  -- The loop over the listed pods, whatever the database refuses: a key keeps its row where no
  -- listed pod of that key runs on a node that is not ready, or has failed without an owner and is
  -- to be restarted.
  pub reconcile_pods-Keeps :
      (ready : List String) (pods : List Pod) (w : World)
      → any (λ pod. has_pod_key n k pod && is_concerned ready pod) pods ≡ false
      → row_at n k (each pods (reconcile_pod e j ready) w).1 ≡ row_at n k w
  reconcile_pods-Keeps ready pods w h =
      each-Keeps (row_at n k) pods (reconcile_pod e j ready) (each_quiet ready pods h) w
