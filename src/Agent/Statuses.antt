-- ===== src/Agent/Statuses.antt =====
-- src/node/agent.rs: the statuses of containers, what `reconcile_pod` gathers of them, and the pod
-- that a report sends.
use superkube.Base.{
  ◌+◌, ◌%◌, String, Bool, true, false, ◌&&◌, ◌||◌, not, Option, none, some, List, [], ◌∷◌, ◌++◌, ℤ,
  pos, negsuc, append, show_text, if◌then◌else◌, unwrap_or, min, eqb,
}
use superkube.Models.Meta.{Uuid, DateTime, default_object_meta, name_of, namespace_of}
use superkube.Models.Pod.{
  Pod, PodPhase, PodStatus, Container, ContainerStatus, ContainerState, pending, running, failed,
  status_of_phase,
}
use superkube.Runtime.{ContainerInfo, PortMapping, start}
use superkube.Agent.{AgentState, lookup, insert, same_pod, same_container, PodKey, Dict}
use superkube.PodRepository.Conversions.{default_spec}

abbrev pub no_state : ContainerState
no_state = record { waiting = none; running = none; terminated = none }

abbrev pub is_zero : ℤ → Bool
is_zero (pos n) = eqb n 0
is_zero (negsuc n) = false

-- `if info.running { .. } else if let Some(exit) = info.exit_code { .. } else { .. }`.
unfoldable pub container_state_by : Bool → Option ℤ → ContainerInfo → ContainerState
container_state_by true exit info = record no_state {
  running = some (record { started_at = info.started_at });
}
container_state_by false (some exit) info = record no_state {
  terminated = some (record {
    exit_code = exit;
    signal = none;
    reason = some (if is_zero exit then "Completed" else "Error");
    message = none;
    started_at = info.started_at;
    finished_at = none;
    container_id = some info.id;
  });
}
container_state_by false none info = record no_state {
  waiting = some (record { reason = some "ContainerCreating"; message = none });
}

unfoldable pub container_state : ContainerInfo → ContainerState
unfolding container_state_by
container_state info = container_state_by info.running info.exit_code info

unfoldable pub failed_container_status : Container → String → ContainerStatus
failed_container_status container err = record {
  name = container.name;
  ready = false;
  restart_count = pos 0;
  image = container.image;
  image_id = container.image;
  container_id = none;
  state = some (record no_state {
    waiting = some (record { reason = some "CreateContainerError"; message = some err });
  });
  last_state = none;
  started = some false;
}

-- The `ContainerStatus` of a container that an engine has.
unfoldable pub status_of : Container → ContainerInfo → ContainerStatus
unfolding container_state
status_of container info = record {
  name = container.name;
  ready = info.running;
  restart_count = info.restart_count;
  image = container.image;
  image_id = container.image;
  container_id = some info.id;
  state = some (container_state info);
  last_state = none;
  started = some info.running;
}

-- The variables of the loop over the containers.
pub record Tally : Type 0 where
  pub container_statuses : List ContainerStatus
  pub all_running : Bool
  pub any_failed : Bool
  pub earliest_start : Option DateTime
  pub runtime_ip : Option String

abbrev pub first_tally : Tally
first_tally = record {
  container_statuses = [];
  all_running = true;
  any_failed = false;
  earliest_start = none;
  runtime_ip = none;
}

abbrev pub or_ip : Option String → Option String → Option String
or_ip (some ip) real = some ip
or_ip none real = real

-- `if let Some(t) = info.started_at { earliest_start = Some(..) }`.
abbrev pub earlier : Option DateTime → Option DateTime → Option DateTime
earlier none cur = cur
earlier (some t) none = some t
earlier (some t) (some cur) = some (min cur t)

abbrev pub has_failed : ContainerInfo → Bool
has_failed info = not info.running && not (is_zero (unwrap_or info.exit_code (pos 0)))

-- What a container that an engine has adds; `start` is the time that counts for the pod.
unfoldable pub tallied : Container → ContainerInfo → Option DateTime → Tally → Tally
unfolding status_of
tallied container info start t = record {
  container_statuses = t.container_statuses ++ status_of container info ∷ [];
  all_running = t.all_running && info.running;
  any_failed = t.any_failed || has_failed info;
  earliest_start = earlier start t.earliest_start;
  runtime_ip = or_ip t.runtime_ip info.ip;
}

unfoldable pub tallied_failure : Container → String → Tally → Tally
unfolding failed_container_status
tallied_failure container err t = record t {
  container_statuses = t.container_statuses ++ failed_container_status container err ∷ [];
  any_failed = true;
}

-- `if !info.port_mappings.is_empty() { entry(..).or_default().extend(..) }`.
unfoldable pub extended :
    PodKey → List PortMapping → Dict PodKey (List PortMapping) → Dict PodKey (List PortMapping)
extended key [] ports = ports
extended key (m ∷ ms) ports =
    insert same_pod key (unwrap_or (lookup same_pod key ports) [] ++ m ∷ ms) ports

-- The indexes in memory.
unfoldable pub indexed : Uuid → PodKey → Container → ContainerInfo → AgentState → AgentState
unfolding extended
indexed uid key container info s = record s {
  containers = insert eqb uid info.id s.containers;
  pod_containers = insert same_container (key, container.name) info.id s.pod_containers;
  pod_ports = extended key info.port_mappings s.pod_ports;
}

abbrev pub key_of : Pod → PodKey
key_of pod = (namespace_of pod.metadata, name_of pod.metadata)

-- `docker_name`.
abbrev pub container_name : String → Container → String
container_name pod_name container = append pod_name (append "-" container.name)

-- The last octet is the UUID's, so that the fallback does not change.
unfoldable pub fallback_ip : String → Uuid → String
unfolding show_text
fallback_ip prefix uid = append prefix (append "." (show_text (uid % 254 + 1)))

abbrev pub is_empty {ℓ} : {A : Type ℓ} → List A → Bool
is_empty [] = true
is_empty (x ∷ xs) = false

abbrev pub phase_of : Tally → PodPhase
phase_of t =
    if t.any_failed
    then failed
    else if t.all_running && not (is_empty t.container_statuses)
    then running
    else pending

-- The pod that a report sends: it has no more than its key and its status.
unfoldable pub status_pod :
    PodKey → PodPhase → Option String → List ContainerStatus → DateTime → Pod
status_pod (namespace, name) phase pod_ip container_statuses start =
    let status : PodStatus = record (status_of_phase phase) {
      pod_ip = pod_ip;
      host_ip = some "127.0.0.1";
      start_time = some start;
      container_statuses = some container_statuses;
    } in
    record {
      type_meta = record { api_version = some "v1"; kind = some "Pod" };
      metadata = record default_object_meta { name = some name; namespace = some namespace };
      spec = default_spec;
      status = some status;
    }
