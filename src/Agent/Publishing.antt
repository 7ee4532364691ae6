-- ===== src/Agent/Publishing.antt =====
-- src/node/agent.rs, `publish_pod_status`: what a report sends, and what it leaves alone.
use superkube.Base.{
  String, Option, none, some, List, [], ◌∷◌, ◌++◌, ◌≡◌, refl, ap, unwrap_or, Bool-cases, inl, inr,
}
use superkube.Anyhow.{Anyhow, done, error}
use superkube.Models.Meta.{Uuid, DateTime}
use superkube.Models.Pod.{PodPhase, ContainerStatus}
use superkube.Agent.{
  AgentState, Agent, Outside, put_pod_status, PodKey, now, continue, Response, is_success, ◌>>=◌,
}
use superkube.Agent.Statuses.{Tally, phase_of, status_pod, fallback_ip}
use superkube.Agent.Pods.{publish_pod_status, publish_answered, address}

module _ {H : Type 0} (o : Outside H) where
  answered-same : (r : Anyhow Response) (w : Agent H) → (continue r (publish_answered o) w).1 ≡ w
  unfolding publish_answered
  answered-same (error message) w = refl
  answered-same (done r) w = elim (Bool-cases (is_success r)) [ inl e ↦ rw e | inr e ↦ rw e ]

  publish_state :
      (key : PodKey) (phase : PodPhase) (ip : Option String) (ss : List ContainerStatus)
      (start : Option DateTime) (w : Agent H)
      → (publish_pod_status o key phase ip ss start w).1.state ≡ w.state
  unfolding publish_pod_status
  publish_state (ns, name) phase ip ss start w =
      ap (λ (v : Agent H). v.state) (answered-same (o.answer w.sent _) _)

  -- The ports in memory are left alone.
  pub report-ports :
      (key : PodKey) (uid : Uuid) (t : Tally) (ip : Option String) (w : Agent H)
      → ((address o key uid ip >>= λ a.
            publish_pod_status o key (phase_of t) (some a) t.container_statuses t.earliest_start)
          w).1.state.pod_ports
        ≡ w.state.pod_ports
  unfolding address
  report-ports key uid t (some ip) w =
      ap (λ (s : AgentState). s.pod_ports) (publish_state key (phase_of t) _ _ t.earliest_start _)
  report-ports key uid t none w =
      ap (λ (s : AgentState). s.pod_ports) (publish_state key (phase_of t) _ _ t.earliest_start w)

  -- A report is one request, whatever its answer is, and leaves the host.
  publish_sent :
      (key : PodKey) (phase : PodPhase) (ip : Option String) (ss : List ContainerStatus)
      (start : Option DateTime) (w : Agent H)
      → let w' = (publish_pod_status o key phase ip ss start w).1 in
        (w'.host ≡ w.host)
        × (w'.sent
            ≡ w.sent
              ++ put_pod_status key.0 key.1 (status_pod key phase ip ss (unwrap_or start (now o w)))
                ∷ [])
  unfolding publish_pod_status
  publish_sent (ns, name) phase ip ss start w = (
    ap (λ (v : Agent H). v.host) (answered-same (o.answer w.sent _) _),
    ap (λ (v : Agent H). v.sent) (answered-same (o.answer w.sent _) _),
  )

  pub report_by :
      (key : PodKey) (uid : Uuid) (phase : PodPhase) (ss : List ContainerStatus)
      (start : Option DateTime) (ip : Option String) (w : Agent H)
      → let w' =
          ((address o key uid ip >>= λ a. publish_pod_status o key phase (some a) ss start) w).1 in
        (w'.host ≡ w.host)
        × ((at : DateTime) × (w'.sent
              ≡ w.sent
                ++ put_pod_status key.0 key.1 (
                    status_pod key phase
                      (some (unwrap_or ip (fallback_ip w.state.pod_cidr_prefix uid)))
                      ss
                      at)
                  ∷ []))
  unfolding address
  report_by key uid phase ss start (some ip) w =
      let (host, sent) = publish_sent key phase (some ip) ss start _ in (host, (_, sent))
  report_by key uid phase ss start none w =
      let (host, sent) = publish_sent key phase _ ss start w in (host, (_, sent))
