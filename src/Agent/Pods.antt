-- ===== src/Agent/Pods.antt =====
-- src/node/agent.rs: `reconcile_pod`, and what it tells the server of a pod.
use superkube.Base.{
  String, Option, none, some, List, [], ◌∷◌, pos, append, if◌then◌else◌, unwrap_or,
}
use superkube.Anyhow.{Anyhow, done, error, ok_or_else}
use superkube.Models.Meta.{Uuid, DateTime, default_object_meta, name_of, namespace_of}
use superkube.Models.Pod.{Pod, PodPhase, Container, ContainerStatus}
use superkube.Models.Event.{Event, EventType, normal, warning}
use superkube.Runtime.{ContainerInfo, find_container, for_class, start}
use superkube.Agent.{
  Outside, Action, post_event, put_pod_status, Response, is_success, ◌>>=◌, ◌>>◌, pure, lift,
  modify, attempt, send, watch, act, now, new_v4, insert, same_pod, PodKey,
}
use superkube.Agent.Statuses.{
  Tally, container_name, fallback_ip, first_tally, indexed, key_of, phase_of, status_pod, tallied,
  tallied_failure,
}

module _ {H : Type 0} (o : Outside H) where
  unfoldable pub emit_event : Pod → EventType → String → String → Action H (Unit {0})
  unfolding send new_v4
  emit_event pod typ reason message = do
    id ← new_v4 o
    uid ← new_v4 o
    λ w.
        let event : Event = record {
          type_meta = record { api_version = some "v1"; kind = some "Event" };
          metadata = record default_object_meta {
            name = some (append (name_of pod.metadata) (append "." (o.hex id)));
            namespace = some (namespace_of pod.metadata);
            uid = some uid;
          };
          involved_object = record {
            api_version = some "v1";
            kind = some "Pod";
            name = some (name_of pod.metadata);
            namespace = some (namespace_of pod.metadata);
            uid = pod.metadata.uid;
            resource_version = none;
            field_path = none;
          };
          reason = some reason;
          message = some message;
          source = some (record { component = some "kubelet"; host = some w.state.name });
          first_timestamp = some (now o w);
          last_timestamp = some (now o w);
          count = some (pos 1);
          event_type = some typ;
          event_time = some (now o w);
          action = none;
          reporting_controller = some "superkube/kubelet";
          reporting_instance = some w.state.name;
        } in
        let (r, w') = send o (post_event (namespace_of pod.metadata) event) w in (done tt, w')

  -- The container was created; it is looked up again for its state.
  unfoldable pub after_start : Pod → Uuid → Container → Tally → ContainerInfo → Action H Tally
  unfolding emit_event indexed tallied
  after_start pod uid container t info = do
    emit_event pod normal "Pulled"
        (append "Successfully pulled image \"" (append container.image "\""))
    emit_event pod normal "Created" (append "Created container " container.name)
    emit_event pod normal "Started" (append "Started container " container.name)
    modify (indexed uid (key_of pod) container info)
    pure (tallied container info (if info.running then info.started_at else none) t)

  unfoldable pub started_or_failed : Pod → Uuid → Container → Tally → Anyhow String → Action H Tally
  unfolding after_start emit_event tallied_failure
  started_or_failed pod uid container t (done id) = do
    let name = container_name (name_of pod.metadata) container
    found ← watch o (find_container o.engines name)
    info ← lift (ok_or_else found (append "created container " (append name " but cannot find it")))
    after_start pod uid container t info
  started_or_failed pod uid container t (error err) = do
    emit_event pod warning "Failed"
        (append "Failed to start container " (append container.name (append ": " err)))
    pure (tallied_failure container err t)

  -- A container that no engine has is started.
  unfoldable pub start_missing : Pod → Uuid → Container → Tally → Action H Tally
  unfolding emit_event started_or_failed
  start_missing pod uid container t = do
    emit_event pod normal "Pulling" (append "Pulling image \"" (append container.image "\""))
    let engine = for_class o.debug o.engines pod.spec.runtime_class_name
    started ←
        attempt
          (act o (start o.debug engine (container_name (name_of pod.metadata) container) container))
    started_or_failed pod uid container t started

  unfoldable pub visit_observed :
      Pod → Uuid → Container → Tally → Option ContainerInfo → Action H Tally
  unfolding start_missing indexed tallied
  visit_observed pod uid container t none = start_missing pod uid container t
  visit_observed pod uid container t (some info) = do
    modify (indexed uid (key_of pod) container info)
    pure (tallied container info info.started_at t)

  -- One round of the loop over the containers.
  unfoldable pub visit : Pod → Uuid → Container → Tally → Action H Tally
  unfolding visit_observed
  visit pod uid container t = do
    observed ← watch o (find_container o.engines (container_name (name_of pod.metadata) container))
    visit_observed pod uid container t observed

  unfoldable pub visit_all : Pod → Uuid → List Container → Tally → Action H Tally
  unfolding visit
  visit_all pod uid [] t = pure t
  visit_all pod uid (c ∷ cs) t = do t' ← visit pod uid c t; visit_all pod uid cs t'

  -- The `pod_ip` of the status.
  unfoldable pub address : PodKey → Uuid → Option String → Action H String
  unfolding fallback_ip
  address key uid (some ip) = do
    modify (λ s. record s { pod_ips = insert same_pod key ip s.pod_ips })
    pure ip
  address key uid none = λ w. (done (fallback_ip w.state.pod_cidr_prefix uid), w)

  abbrev pub body_text : Response → String
  body_text r = unwrap_or r.text ""

  unfoldable pub publish_answered : Response → Action H (Unit {0})
  publish_answered response =
      if is_success response
      then pure tt
      else lift (error (append "Failed to update pod status: " (body_text response)))

  unfoldable pub publish_pod_status :
      PodKey
      → PodPhase
      → Option String
      → List ContainerStatus
      → Option DateTime
      → Action H (Unit {0})
  unfolding send status_pod publish_answered
  publish_pod_status (namespace, name) phase pod_ip container_statuses start_time = do
    response ← λ w.
        let start = unwrap_or start_time (now o w) in
        let pod = status_pod (namespace, name) phase pod_ip container_statuses start in
        send o (put_pod_status namespace name pod) w
    publish_answered response

  unfoldable pub report : PodKey → Uuid → Tally → Action H (Unit {0})
  unfolding address publish_pod_status
  report key uid t = do
    pod_ip ← address key uid t.runtime_ip
    publish_pod_status key (phase_of t) (some pod_ip) t.container_statuses t.earliest_start

  -- A pod without containers is left alone.
  unfoldable pub reconcile_containers : Pod → Uuid → List Container → Action H (Unit {0})
  unfolding visit_all report
  reconcile_containers pod uid [] = pure tt
  reconcile_containers pod uid (c ∷ cs) = do
    t ← visit_all pod uid (c ∷ cs) first_tally
    report (key_of pod) uid t

  unfoldable pub reconcile_pod : Pod → Action H (Unit {0})
  unfolding reconcile_containers
  reconcile_pod pod = do
    uid ← lift (ok_or_else pod.metadata.uid "Pod has no UID")
    reconcile_containers pod uid pod.spec.containers
