-- ===== src/PodRepository/RoundTrip.antt =====
-- What of a pod survives the database: the row that `create` writes, read back.
use superkube.Base.{
  ◌≡◌, ◌≢◌, refl, sym, ap, ◌∙◌, String, false, Option, none, some, List, [], ◌==◌, eq_iff,
  if◌then◌else◌, Bool-cases, Option-cases, map_or, and_then, inl, inr, is_some,
}
use mathlib.Core.Option.{some-injective, none-ne-some}
use superkube.Models.Meta.{Uuid, DateTime, name_of, namespace_of}
use superkube.Models.Pod.{
  Pod, PodSpec, PodStatus, PodPhase, pending, running, succeeded, failed, unknown, phase_text,
  ContainerStatus,
}
use superkube.Store.Rows.{Json, JsonLaws, Codec, CodecLaws, PodRow}
use superkube.PodRepository.Conversions.{
  json_from_opt, json_from, default_spec, statuses_text, to_row, phase_of_text, with_node,
  row_to_pod,
}

-- The container statuses, or an empty list where there are none to write.
abbrev pub stored_statuses : Json → Option PodStatus → Option (List ContainerStatus)
stored_statuses j none = some []
stored_statuses j (some s) =
    if is_some (j.statuses.encode_option s.container_statuses)
    then s.container_statuses
    else some []

-- The pod that comes back: kind, version, uid and creation time are set, and a missing name,
-- namespace, phase or status filled in; resource version, conditions, `podIPs`, start time, message
-- and reason are gone.
abbrev pub stored : Json → Pod → Uuid → DateTime → Pod
stored j pod uid created = record {
  type_meta = record { api_version = some "v1"; kind = some "Pod" };
  metadata = record pod.metadata {
    name = some (name_of pod.metadata);
    namespace = some (namespace_of pod.metadata);
    uid = some uid;
    resource_version = none;
    creation_timestamp = some created;
  };
  spec = pod.spec;
  status = some (record {
    phase = map_or pod.status pending (λ s. s.phase);
    conditions = none;
    pod_ip = and_then pod.status (λ s. s.pod_ip);
    pod_i_ps = none;
    host_ip = and_then pod.status (λ s. s.host_ip);
    start_time = none;
    container_statuses = stored_statuses j pod.status;
    message = none;
    reason = none;
  });
}

phase_of_text-phase_text : (p : PodPhase) → phase_of_text (phase_text p) ≡ p
unfolding phase_of_text
phase_of_text-phase_text pending = refl
phase_of_text-phase_text running = refl
phase_of_text-phase_text succeeded = refl
phase_of_text-phase_text failed = refl
phase_of_text-phase_text unknown = refl

status_phase :
    (o : Option PodStatus)
    → phase_of_text (map_or o "Pending" (λ s. phase_text s.phase)) ≡ map_or o pending (λ s. s.phase)
unfolding phase_of_text
status_phase none = refl
status_phase (some s) = phase_of_text-phase_text s.phase

with_node_same : (o : Option String) (spec : PodSpec) → spec.node_name ≡ o → with_node o spec ≡ spec
unfolding with_node
with_node_same none spec e = refl
with_node_same (some node) spec e = λ i. record spec { node_name = sym e i }

and_then-some :
    {A B : Type 0} (o : Option A) (f : A → Option B) (b : B)
    → and_then o f ≡ some b
    → (a : A) × (o ≡ some a) × (f a ≡ some b)
and_then-some o f b h = elim (Option-cases o) [
  | inl e ↦ absurd (none-ne-some _ (ap (λ o. and_then o f) (sym e) ∙ h))
  | inr (a, e) ↦ (a, e, ap (λ o. and_then o f) (sym e) ∙ h)
]

module _ {A : Type 0} (c : Codec A) (laws : CodecLaws c) where
  not_blank : (t s : String) → t ≢ s → (t == s) ≡ false
  not_blank t s ne = elim (Bool-cases (t == s)) [
    | inl e ↦ absurd (ne ((eq_iff t s).0 e))
    | inr e ↦ e
  ]

  json_from_opt-encode :
      (o : Option A) (t : String) → c.encode_option o ≡ some t → json_from_opt c t ≡ o
  unfolding json_from_opt
  json_from_opt-encode none t h =
      let null : t ≡ "null" = some-injective _ _ (sym h ∙ laws.encode_none) in rw null refl
  json_from_opt-encode (some a) t h =
      let e = sym (laws.encode_some a) ∙ h in
      let no = laws.not_null a t e in
      rw (not_blank t "" no.0, not_blank t "null" no.1) (laws.decode-encode a t e)

  json_from-encode : (default a : A) (t : String) → c.encode a ≡ some t → json_from c default t ≡ a
  unfolding json_from
  json_from-encode default a t e =
      rw (not_blank t "" (laws.not_null a t e).0) (rw (laws.decode-encode a t e))

module _ (j : Json) (laws : JsonLaws j) where
  statuses_back :
      (o : Option PodStatus) → json_from_opt j.statuses (statuses_text j o) ≡ stored_statuses j o
  unfolding statuses_text json_from_opt
  statuses_back none = laws.no_statuses
  statuses_back (some s) = elim (Option-cases (j.statuses.encode_option s.container_statuses)) [
    | inl e ↦ rw e laws.no_statuses
    | inr (t, e) ↦ rw e (
        unfold json_from_opt in
        json_from_opt-encode j.statuses laws.statuses s.container_statuses t e)
  ]

  -- With the laws of JSON, the row that is written of a pod, read back: labels, annotations, owners,
  -- spec, phase, pod IP, host IP and container statuses are kept, except that container statuses
  -- which JSON cannot write become the empty list, as do missing ones of a pod without a status,
  -- whose phase becomes Pending; kind and version are those of a pod, uid and creation time those of
  -- the row, name and namespace are filled in where missing; resource version, conditions, `podIPs`,
  -- start time, message and reason are lost.
  pub row_to_pod-to_row :
      (pod : Pod) (uid : Uuid) (now : DateTime) (row : PodRow)
      → to_row j pod uid now ≡ some row
      → row_to_pod j row ≡ stored j pod uid now
  unfolding row_to_pod to_row statuses_text
  row_to_pod-to_row pod uid now row h =
      let (labels, l, h1) = and_then-some (j.labels.encode_option pod.metadata.labels) _ row h in
      let (annotations, a, h2) =
        and_then-some (j.labels.encode_option pod.metadata.annotations) _ row h1 in
      let (spec, s, h3) = and_then-some (j.spec.encode pod.spec) _ row h2 in
      let (owners, o, h4) =
        and_then-some (j.owners.encode_option pod.metadata.owner_references) _ row h3 in
      ap (row_to_pod j) (sym (some-injective _ _ h4))
      ∙ rw
          (
            json_from_opt-encode j.labels laws.labels _ _ l,
            json_from_opt-encode j.labels laws.labels _ _ a,
            json_from-encode j.spec laws.spec default_spec _ _ s,
            json_from_opt-encode j.owners laws.owners _ _ o,
            with_node_same _ pod.spec refl,
            status_phase pod.status,
            statuses_back pod.status,
          )
          refl
