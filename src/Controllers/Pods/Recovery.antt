-- ===== src/Controllers/Pods/Recovery.antt =====
-- What `reconcile_pods` does to a pod whose node is not ready, and to one that has failed.
use superkube.Base.{
  ◌+◌, ◌≡◌, refl, ap, ◌∙◌, String, true, false, false≢true, inr, none, some, List, any, find, eqb,
  map_or, and_then, arith, eq_iff, Elem, inl, Bool-cases, ◌==◌, [], ◌∷◌, Option,
}
use superkube.Models.Meta.{Uuid, name_of, namespace_of}
use superkube.Models.Pod.{
  Pod, PodPhase, PodStatus, phase_eq, running, failed, pending, succeeded, unknown,
}
use superkube.Store.{Env, World, ◌>>◌, pure, new_v4}
use superkube.Store.Rows.{Json, PodRow}
use superkube.PodRepository.Conversions.{to_row}
use superkube.PodRepository.Keyed.{row_at, create-row, delete-gone, to_row-columns}
use superkube.PodRepository.Status.{with_status, update_status_lem}
use superkube.Store.Frame.{Keeps, bind-Keeps}
use superkube.PodRepository.{has_key}
use superkube.PodRepository.Reading.{pods_of}
use superkube.Controllers.Owned.{publish}
use superkube.Controllers.Pods.{
  phase_of, is_stranded, is_respun, respun_pod, failed_status, republish, report, recreate,
  mark_failed, check_node, respin, reconcile_pod,
}
use superkube.Controllers.Pods.Untouched.{republish-Keeps, report-Keeps}

-- A phase is not two.
one_phase : (p : PodPhase) → phase_eq p running ≡ true → phase_eq p failed ≡ false
one_phase running h = refl
one_phase pending h = absurd (false≢true h)
one_phase succeeded h = absurd (false≢true h)
one_phase failed h = absurd (false≢true h)
one_phase unknown h = absurd (false≢true h)

stranded_runs :
    (ready : List String) (pod : Pod) (node : String)
    → is_stranded ready pod node ≡ true
    → phase_eq (phase_of pod) running ≡ true
unfolding is_stranded
stranded_runs ready pod node h = ground (arith, h)

stranded_stays :
    (ready : List String) (pod : Pod) (node : String)
    → is_stranded ready pod node ≡ true
    → is_respun pod ≡ false
unfolding is_respun
stranded_stays ready pod node h =
    let p = one_phase (phase_of pod) (stranded_runs ready pod node h) in ground (arith, p)

none_of :
    (node : String) (ready : List String) → ¬ Elem node ready → any (λ n. n == node) ready ≡ false
none_of node [] away = refl
none_of node (n ∷ ready) away =
    let rest = none_of node ready (λ m. away (inr m)) in
    elim (Bool-cases (n == node)) [
      | inl same ↦ absurd (away (inl ((eq_iff n node).0 same)))
      | inr other ↦ rw (other, rest) refl
    ]

runs_away :
    (ready : List String) (pod : Pod) (status : PodStatus) (node : String)
    → ¬ Elem node ready
    → pod.status ≡ some status
    → status.phase ≡ running
    → is_stranded ready pod node ≡ true
unfolding is_stranded
runs_away ready pod status node away has_status runs =
    let phase =
      ap (λ (o : Option PodStatus). phase_eq (map_or o pending (λ s. s.phase)) running) has_status
      ∙ ap (λ p. phase_eq p running) runs in
    rw (none_of node ready away) phase

module _ (e : Env) (j : Json) where
  -- What the loop leaves of a pod that is stranded.
  stranded_row :
      (ready : List String) (pod : Pod) (node statuses : String) (w : World)
      → pod.spec.node_name ≡ some node
      → is_stranded ready pod node ≡ true
      → e.faults w.statements ≡ false
      → j.statuses.encode_option none ≡ some statuses
      → row_at (namespace_of pod.metadata) (name_of pod.metadata) (reconcile_pod e j ready pod w).1
        ≡ map_or
            (row_at (namespace_of pod.metadata) (name_of pod.metadata) w)
            none
            (λ row. some (with_status (failed_status pod) statuses (e.clock w.statements) row))
  unfolding reconcile_pod check_node mark_failed
  stranded_row ready pod node statuses w at s f h =
      let ns = namespace_of pod.metadata in
      let name = name_of pod.metadata in
      let (after, run, views) = update_status_lem e j ns name (failed_status pod) statuses w f h in
      let w1 = record w { statements = w.statements + 1; pods = after } in
      let told = republish e j pod >> report e j pod node in
      let quiet : Keeps pods_of told =
        bind-Keeps pods_of (republish e j pod) (λ _. report e j pod node) (republish-Keeps e j pod)
          (λ _. report-Keeps e j pod node) in
      rw (at, s, run, stranded_stays ready pod node s)
        (ap (find (has_key ns name)) (bind-Keeps pods_of told (λ _. pure tt) quiet (λ _ w. refl) w1)
          ∙ views ns name
          ∙ rw ((eq_iff ns ns).1 refl, (eq_iff name name).1 refl) refl)

  -- A pod whose status says Running, on a node that is not among the ready ones, where the database
  -- takes the first statement and JSON writes the empty container statuses: after the pass its row,
  -- if it has one, has the status Failed, no pod IP, the host IP of the pod's status, the empty
  -- container statuses and a new time of update, and is otherwise as before; so the pass does no
  -- more to the row, with an owner or without.
  pub reconcile_pod_stranded :
      (ready : List String) (pod : Pod) (status : PodStatus) (node statuses : String) (w : World)
      → pod.spec.node_name ≡ some node
      → ¬ Elem node ready
      → pod.status ≡ some status
      → status.phase ≡ running
      → e.faults w.statements ≡ false
      → j.statuses.encode_option none ≡ some statuses
      → row_at (namespace_of pod.metadata) (name_of pod.metadata) (reconcile_pod e j ready pod w).1
        ≡ map_or (row_at (namespace_of pod.metadata) (name_of pod.metadata) w) none (λ row.
          some (record row {
            status = "Failed";
            pod_ip = none;
            host_ip = status.host_ip;
            container_statuses = statuses;
            updated_at = e.clock w.statements;
          }))
  reconcile_pod_stranded ready pod status node statuses w at away has_status runs f h =
      stranded_row ready pod node statuses w at
        (runs_away ready pod status node away has_status runs) f h
      ∙ ap
          (λ (o : Option PodStatus).
            map_or (row_at (namespace_of pod.metadata) (name_of pod.metadata) w) none (λ row.
              some (record row {
                status = "Failed";
                pod_ip = none;
                host_ip = and_then o (λ s. s.host_ip);
                container_statuses = statuses;
                updated_at = e.clock w.statements;
              })))
          has_status

  recreate_lem :
      (pod : Pod) (uid : Uuid) (row : PodRow) (w : World)
      → e.faults w.statements ≡ false
      → to_row j (respun_pod pod uid) uid (e.clock w.statements) ≡ some row
      → any (λ r. eqb r.uid uid) w.pods ≡ false
      → row_at (namespace_of pod.metadata) (name_of pod.metadata) w ≡ none
      → row_at (namespace_of pod.metadata) (name_of pod.metadata) (recreate e j pod uid w).1
        ≡ some row
  unfolding recreate publish respun_pod
  recreate_lem pod uid row w f h u gone =
      let (_, _, _, _, same) =
        to_row-columns j (respun_pod pod uid) uid (e.clock w.statements) row h in
      create-row e j (respun_pod pod uid) uid row w refl f h (inr (rw same u)) ∙ rw gone refl

  -- A failed pod without an owner that is to be restarted, where the database takes the first two
  -- statements, JSON writes the new pod, and its uid is not in the table: the key has a row that is
  -- pending and has no node.
  pub respin_lem :
      (pod : Pod) (row : PodRow) (w : World)
      → e.faults w.statements ≡ false
      → e.faults (w.statements + 1) ≡ false
      → to_row j (respun_pod pod (e.random w.drawn)) (e.random w.drawn) (e.clock (w.statements + 1))
        ≡ some row
      → any (λ r. eqb r.uid (e.random w.drawn)) w.pods ≡ false
      → (row_at (namespace_of pod.metadata) (name_of pod.metadata) (respin e j pod w).1 ≡ some row)
        × (row.status ≡ "Pending")
        × (row.node_name ≡ none)
  unfolding respin publish new_v4 respun_pod
  respin_lem pod row w f f1 h u =
      let uid = e.random w.drawn in
      let (after, run, gone, free) =
        delete-gone e j (namespace_of pod.metadata) (name_of pod.metadata) uid w f u in
      let (_, _, status, node, _) =
        to_row-columns j (respun_pod pod uid) uid (e.clock (w.statements + 1)) row h in
      (rw run (recreate_lem pod uid row _ f1 h free gone), status, node)
