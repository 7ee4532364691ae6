-- ===== src/PodRepository/Conversions.antt =====
-- src/db/repository.rs: the JSON helpers, the columns that `create` binds, and `row_to_pod`.
use superkube.Base.{
  String, false, ◌||◌, Option, none, some, [], ◌==◌, if◌then◌else◌, map_or, and_then, unwrap_or,
}
use superkube.Models.Meta.{Uuid, DateTime, name_of, namespace_of}
use superkube.Models.Pod.{
  Pod, PodSpec, PodStatus, PodPhase, pending, running, succeeded, failed, unknown, phase_text,
}
use superkube.Store.Rows.{Json, Codec, PodRow}

unfoldable pub json_from_opt : {A : Type 0} → Codec A → String → Option A
json_from_opt c s = if s == "" || s == "null" then none else c.decode s

unfoldable pub json_from : {A : Type 0} → Codec A → A → String → A
json_from c default s = if s == "" then default else unwrap_or (c.decode s) default

-- `PodSpec::default()`.
abbrev pub default_spec : PodSpec
default_spec = record {
  containers = [];
  restart_policy = none;
  node_selector = none;
  node_name = none;
  service_account_name = none;
  host_network = false;
  affinity = none;
  runtime_class_name = none;
}

unfoldable pub statuses_text : Json → Option PodStatus → String
statuses_text j none = "[]"
statuses_text j (some s) = unwrap_or (j.statuses.encode_option s.container_statuses) "[]"

-- The row that `create` inserts; `none` is an error of `json_str`.
unfoldable pub to_row : Json → Pod → Uuid → DateTime → Option PodRow
unfolding statuses_text
to_row j pod uid now = and_then (j.labels.encode_option pod.metadata.labels) (λ labels.
    and_then (j.labels.encode_option pod.metadata.annotations) (λ annotations.
      and_then (j.spec.encode pod.spec) (λ spec.
        and_then (j.owners.encode_option pod.metadata.owner_references) (λ owners. some (record {
          uid = uid;
          name = name_of pod.metadata;
          namespace = namespace_of pod.metadata;
          labels = labels;
          annotations = annotations;
          spec = spec;
          status = map_or pod.status "Pending" (λ s. phase_text s.phase);
          node_name = pod.spec.node_name;
          pod_ip = and_then pod.status (λ s. s.pod_ip);
          host_ip = and_then pod.status (λ s. s.host_ip);
          container_statuses = statuses_text j pod.status;
          owner_reference = owners;
          created_at = now;
          updated_at = now;
        })))))

unfoldable pub phase_of_text : String → PodPhase
phase_of_text s =
    if s == "Running"
    then running
    else if s == "Succeeded"
    then succeeded
    else if s == "Failed"
    then failed
    else if s == "Unknown"
    then unknown
    else pending

-- `if let Some(node) = node_name { pod.spec.node_name = Some(node) }`.
unfoldable pub with_node : Option String → PodSpec → PodSpec
with_node none spec = spec
with_node (some node) spec = record spec { node_name = some node }

unfoldable pub row_to_pod : Json → PodRow → Pod
unfolding json_from_opt json_from phase_of_text with_node
row_to_pod j row = record {
  type_meta = record { api_version = some "v1"; kind = some "Pod" };
  metadata = record {
    name = some row.name;
    namespace = some row.namespace;
    uid = some row.uid;
    resource_version = none;
    labels = json_from_opt j.labels row.labels;
    annotations = json_from_opt j.labels row.annotations;
    creation_timestamp = some row.created_at;
    owner_references = json_from_opt j.owners row.owner_reference;
  };
  spec = with_node row.node_name (json_from j.spec default_spec row.spec);
  status = some (record {
    phase = phase_of_text row.status;
    conditions = none;
    pod_ip = row.pod_ip;
    pod_i_ps = none;
    host_ip = row.host_ip;
    start_time = none;
    container_statuses = json_from_opt j.statuses row.container_statuses;
    message = none;
    reason = none;
  });
}
