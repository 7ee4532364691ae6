-- ===== src/Controllers/Owned.antt =====
-- What the controllers share: events of the bus, owners, the pods of a template, and loops over
-- objects.
use superkube.Base.{
  ℕ, zero, suc, String, Bool, true, false, Option, none, some, List, [], ◌∷◌, ◌++◌, any, map_or,
  eqb, length, ℤ, pos, negsuc, ◌-◌, wrap_i32,
}
use superkube.Models.Meta.{Uuid, ObjectMeta, OwnerReference, default_object_meta}
use superkube.Models.Service.{ObjectReference}
use superkube.Models.Pod.{
  Pod, PodSpec, PodTemplateSpec, pending, running, phase_eq, status_of_phase,
}
use superkube.Store.{Action, ok, ◌>>◌, pure, ignore}
use superkube.Store.Bus.{WatchEventType, Object}

-- `Bus::publish_added`, `publish_modified` and `publish_deleted` of a pod: the local broadcast.
unfoldable pub publish : WatchEventType → String → String → Pod → Action (Unit {0})
publish event_type namespace name pod w = (
  ok tt,
  record w {
    published =
        w.published
        ++ record {
          kind = "Pod";
          namespace = some namespace;
          name = name;
          event_type = event_type;
          object = Object.pod pod;
        }
          ∷ [];
  },
)

-- `for` loops whose body may fail without an effect on the loop.
unfoldable pub each {ℓ} : {A : Type ℓ} → List A → (A → Action (Unit {0})) → Action (Unit {0})
each [] body = pure tt
each (x ∷ xs) body = ignore (body x) >> each xs body

unfoldable pub times : ℕ → Action (Unit {0}) → Action (Unit {0})
times zero body = pure tt
times (suc n) body = ignore body >> times n body

-- An owner reference with the uid, where there is one.
unfoldable pub is_owned_by : Option Uuid → Pod → Bool
is_owned_by uid pod =
    map_or pod.metadata.owner_references false
      (λ refs. any (λ (r : OwnerReference). map_or uid false (eqb r.uid)) refs)

-- `len() as i32`.
abbrev pub len_i32 {ℓ} : {A : Type ℓ} → List A → ℤ
len_i32 xs = wrap_i32 (pos (length xs))

abbrev pub is_running : Pod → Bool
is_running pod = map_or pod.status false (λ s. phase_eq s.phase running)

-- `as usize`, of 64 bits.
unfoldable pub as_usize : ℤ → ℕ
as_usize (pos n) = n
as_usize (negsuc n) = 18446744073709551615 - n

-- The one owner reference of a pod that a controller creates.
abbrev pub owner_ref : String → String → Uuid → OwnerReference
owner_ref kind name uid = record {
  api_version = "apps/v1";
  kind = kind;
  name = name;
  uid = uid;
  controller = some true;
  block_owner_deletion = some true;
}

-- A pod from a template, for an owner.
abbrev pub templated : String → String → Uuid → PodTemplateSpec → PodSpec → OwnerReference → Pod
templated namespace name uid template spec owner = record {
  type_meta = record { api_version = some "v1"; kind = some "Pod" };
  metadata = record default_object_meta {
    name = some name;
    namespace = some namespace;
    uid = some uid;
    labels = template.metadata.labels;
    annotations = template.metadata.annotations;
    owner_references = some (owner ∷ []);
  };
  spec = spec;
  status = some (status_of_phase pending);
}

-- `deployment_ref` and its like.
abbrev pub workload_ref : String → ObjectMeta → ObjectReference
workload_ref kind metadata = record {
  api_version = some "apps/v1";
  kind = some kind;
  name = metadata.name;
  namespace = metadata.namespace;
  uid = metadata.uid;
  resource_version = none;
  field_path = none;
}

abbrev pub pod_ref : Pod → ObjectReference
pod_ref pod = record {
  api_version = some "v1";
  kind = some "Pod";
  name = pod.metadata.name;
  namespace = pod.metadata.namespace;
  uid = pod.metadata.uid;
  resource_version = none;
  field_path = none;
}
