-- ===== src/Agent/Reports.antt =====
-- src/node/agent.rs: what `reconcile_pod` tells the server in every case: the engines may refuse
-- containers, and the server events.
use mathlib.Core.List.{append-nil, append_assoc, map-append}
use superkube.Base.{
  String, Bool, true, false, ◌&&◌, ◌||◌, not, Option, none, some, List, [], ◌∷◌, ◌++◌, ◌≡◌, refl,
  sym, ◌∙◌, ap, subst, append, all, map, if◌then◌else◌, arith,
}
use superkube.Anyhow.{Anyhow, done, error, ok_or_else}
use superkube.Models.Meta.{Uuid, DateTime, name_of, namespace_of}
use superkube.Models.Pod.{
  Pod, PodPhase, Container, ContainerStatus, pending, running, failed, phase_eq,
}
use superkube.Runtime.{ContainerInfo, find_container}
use superkube.Agent.{Agent, Outside, Action, Request, put_pod_status, continue, ◌>>=◌, lift, looked}
use superkube.Agent.Publishing.{report_by}
use superkube.Agent.Statuses.{
  Tally, first_tally, is_empty, tallied, tallied_failure, status_of, failed_container_status,
  key_of, phase_of, status_pod, container_name,
}
use superkube.Agent.Pods.{
  after_start, started_or_failed, start_missing, visit_observed, visit, visit_all, report,
  reconcile_containers, reconcile_pod,
}

-- The names in a list of statuses.
abbrev pub names_in : List ContainerStatus → List String
names_in ss = map (λ s. s.name) ss

abbrev pub all_ready : List ContainerStatus → Bool
all_ready ss = all (λ (s : ContainerStatus). s.ready) ss

-- Where all run and none failed, all statuses are ready.
abbrev pub sound : Tally → Bool
sound t = t.any_failed || (not t.all_running || all_ready t.container_statuses)

all_ready-append :
    (ss : List ContainerStatus) (s : ContainerStatus)
    → all_ready (ss ++ s ∷ []) ≡ (all_ready ss && s.ready)
all_ready-append [] s = ground arith
all_ready-append (r ∷ ss) s = ground (arith, all_ready-append ss s)

-- One more container was visited.
record Visited (c : Container) (t t' : Tally) : Type 0 where
  names : names_in t'.container_statuses ≡ names_in t.container_statuses ++ c.name ∷ []
  is_sound : sound t ≡ true → sound t' ≡ true

names_in-append :
    (ss : List ContainerStatus) (s : ContainerStatus)
    → names_in (ss ++ s ∷ []) ≡ names_in ss ++ s.name ∷ []
names_in-append ss s = map-append (λ (s : ContainerStatus). s.name) ss (s ∷ [])

Visited-tallied :
    (c : Container) (info : ContainerInfo) (from : Option DateTime) (t : Tally)
    → Visited c t (tallied c info from t)
unfolding tallied
Visited-tallied c info from t = record {
  names = names_in-append t.container_statuses (status_of c info);
  is_sound = λ h. ground (arith, all_ready-append t.container_statuses (status_of c info));
}

Visited-failure :
    (c : Container) (message : String) (t : Tally) → Visited c t (tallied_failure c message t)
unfolding tallied_failure
Visited-failure c message t = record {
  names = names_in-append t.container_statuses (failed_container_status c message);
  is_sound = λ h. refl;
}

-- A step that succeeded was made by two that did.
continued :
    {H A B : Type 0} (r : Anyhow A) (f : A → Action H B) (w : Agent H) {b : B}
    → (continue r f w).0 ≡ done b
    → (a : A) × (r ≡ done a) × ((f a w).0 ≡ done b)
continued (done a) f w h = (a, refl, h)
continued (error message) f w h = cc

done-injective : {A : Type 0} {a b : A} → done a ≡ done b → a ≡ b
done-injective h = cc

module _ {H : Type 0} (o : Outside H) (pod : Pod) (uid : Uuid) where
  after_start_gives :
      (c : Container) (t : Tally) (info : ContainerInfo) (w : Agent H) (t' : Tally)
      → (after_start o pod uid c t info w).0 ≡ done t'
      → Visited c t t'
  unfolding after_start
  after_start_gives c t info w t' h =
      subst (Visited c t) (done-injective h) (Visited-tallied c info _ t)

  started_or_failed_gives :
      (c : Container) (t : Tally) (r : Anyhow String) (w : Agent H) (t' : Tally)
      → (started_or_failed o pod uid c t r w).0 ≡ done t'
      → Visited c t t'
  unfolding started_or_failed
  started_or_failed_gives c t (done id) w t' h =
      let name = container_name (name_of pod.metadata) c in
      let missing = append "created container " (append name " but cannot find it") in
      let (found, e, k) =
        continued (find_container o.engines name (looked o w).host)
          (λ found. lift (ok_or_else found missing) >>= after_start o pod uid c t) (looked o w) h in
      let (info, e', k') =
        continued (ok_or_else found missing) (after_start o pod uid c t) (looked o w) k in
      after_start_gives c t info (looked o w) t' k'
  started_or_failed_gives c t (error message) w t' h =
      subst (Visited c t) (done-injective h) (Visited-failure c message t)

  start_missing_gives :
      (c : Container) (t : Tally) (w : Agent H) (t' : Tally)
      → (start_missing o pod uid c t w).0 ≡ done t'
      → Visited c t t'
  unfolding start_missing
  start_missing_gives c t w t' h = started_or_failed_gives c t _ _ t' h

  visit_observed_gives :
      (c : Container) (t : Tally) (observed : Option ContainerInfo) (w : Agent H) (t' : Tally)
      → (visit_observed o pod uid c t observed w).0 ≡ done t'
      → Visited c t t'
  unfolding visit_observed
  visit_observed_gives c t none w t' h = start_missing_gives c t w t' h
  visit_observed_gives c t (some info) w t' h =
      subst (Visited c t) (done-injective h) (Visited-tallied c info _ t)

  visit_gives :
      (c : Container) (t : Tally) (w : Agent H) (t' : Tally)
      → (visit o pod uid c t w).0 ≡ done t'
      → Visited c t t'
  unfolding visit
  visit_gives c t w t' h =
      let (found, e, k) =
        continued
          (find_container o.engines (container_name (name_of pod.metadata) c) (looked o w).host)
          (λ observed. visit_observed o pod uid c t observed) (looked o w) h in
      visit_observed_gives c t found (looked o w) t' k

  visit_all_gives :
      (cs : List Container) (t : Tally) (w : Agent H) (t' : Tally)
      → (visit_all o pod uid cs t w).0 ≡ done t'
      → (names_in t'.container_statuses
          ≡ names_in t.container_statuses ++ map (λ (c : Container). c.name) cs)
        × (sound t ≡ true → sound t' ≡ true)
  unfolding visit_all
  visit_all_gives [] t w t' h = (
    subst (λ (u : Tally). names_in u.container_statuses ≡ names_in t.container_statuses ++ [])
        (done-injective h) (sym (append-nil (names_in t.container_statuses))),
    λ s. subst (λ (u : Tally). sound u ≡ true) (done-injective h) s,
  )
  visit_all_gives (c ∷ cs) t w t' h =
      let (t'', e, k) =
        continued (visit o pod uid c t w).0 (λ u. visit_all o pod uid cs u)
          (visit o pod uid c t w).1 h in
      let first = visit_gives c t w t'' e in
      let rest = visit_all_gives cs t'' (visit o pod uid c t w).1 t' k in
      (
        rest.0
            ∙ ap (λ ns. ns ++ map (λ (c : Container). c.name) cs) first.names
            ∙ append_assoc (names_in t.container_statuses) (c.name ∷ [])
                (map (λ (c : Container). c.name) cs),
        λ s. rest.1 (first.is_sound s),
      )

phase_by_sound :
    (f r : Bool) (ss : List ContainerStatus)
    → (f || (not r || all_ready ss)) ≡ true
    → (not (
          phase_eq
            (if f then failed else if r && not (is_empty ss) then running else pending)
            running)
        || all_ready ss)
      ≡ true
phase_by_sound true r ss h = refl
phase_by_sound false false ss h = refl
phase_by_sound false true [] h = refl
phase_by_sound false true (s ∷ ss) h = h

module _ {H : Type 0} (o : Outside H) where
  -- The last request of a `reconcile_pod` that succeeded, of a pod with containers, is the status
  -- of the pod: it has one status for each container, in their order, also of those that could not
  -- be started, and its phase is Running only where each of them is ready.
  pub reconcile_pod_reports :
      (pod : Pod) (uid : Uuid) (c : Container) (cs : List Container) (w : Agent H)
      → pod.metadata.uid ≡ some uid
      → pod.spec.containers ≡ c ∷ cs
      → (reconcile_pod o pod w).0 ≡ done tt
      → (before : List Request) × (phase : PodPhase) × (ip : Option String) × (ss : List
          ContainerStatus)
        × (start : DateTime) × ((reconcile_pod o pod w).1.sent
            ≡ before
              ++ put_pod_status
                  (namespace_of pod.metadata)
                  (name_of pod.metadata)
                  (status_pod (key_of pod) phase ip ss start)
                ∷ [])
        × (names_in ss ≡ map (λ (c : Container). c.name) (c ∷ cs))
        × ((not (phase_eq phase running) || all_ready ss) ≡ true)
  unfolding reconcile_pod
  reconcile_pod_reports pod uid c cs w has_uid has_containers h =
      let step =
        ap
          (λ u.
            continue (ok_or_else u "Pod has no UID")
              (λ i. reconcile_containers o pod i pod.spec.containers) w)
          has_uid
        ∙ ap (λ l. reconcile_containers o pod uid l w) has_containers in
      let (t, e, k) =
        continued (visit_all o pod uid (c ∷ cs) first_tally w).0 (report o (key_of pod) uid)
          (visit_all o pod uid (c ∷ cs) first_tally w).1
          (sym (ap (λ (p : Anyhow (Unit {0}) × Agent H). p.0) step) ∙ h) in
      let (names, is_sound) = visit_all_gives o pod uid (c ∷ cs) first_tally w t e in
      let w' = (visit_all o pod uid (c ∷ cs) first_tally w).1 in
      let (host, (at, sent)) =
        report_by o (key_of pod) uid (phase_of t) t.container_statuses t.earliest_start t.runtime_ip
          w' in
      (
        w'.sent,
        phase_of t,
        _,
        t.container_statuses,
        at,
        ap (λ (p : Anyhow (Unit {0}) × Agent H). p.1.sent) step
            ∙ ap (λ r. (continue r (report o (key_of pod) uid) w').1.sent) e
            ∙ sent,
        names,
        phase_by_sound t.any_failed t.all_running t.container_statuses (is_sound refl),
      )
