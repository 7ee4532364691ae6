-- ===== src/NamespaceRepository.antt =====
-- src/db/repository.rs, `NamespaceRepository`: the statements of Store.Repository on its table,
-- whose rows have the empty namespace.
mod Deletion
mod Tests
use superkube.Base.{
  ℕ, ◌+◌, String, Bool, true, false, Option, none, some, List, [], ◌∷◌, ◌==◌, ◌||◌, if◌then◌else◌,
  leb, length, filter, map, map_or, and_then, append, show_text, ltb,
}
use superkube.Models.Meta.{Uuid, DateTime, default_object_meta, name_of}
use superkube.Models.Namespace.{
  Namespace, NamespaceSpec, NamespacePhase, active, terminating, phase_text,
}
use superkube.PodRepository.Conversions.{json_from_opt}
use superkube.Store.{Env, World, Action, Result, ok, err, bad_request, query, ◌>>=◌, ◌>>◌, fail}
use superkube.Store.Rows.{Json, Codec, NamespaceRow}
use superkube.Store.Repository.{Layout, get_object, create_object, delete_object}

insert_asc : NamespaceRow → List NamespaceRow → List NamespaceRow
insert_asc row [] = row ∷ []
insert_asc row (r ∷ rows) =
    let later = r ∷ insert_asc row rows in
    if leb row.created_at r.created_at then row ∷ r ∷ rows else later

-- The oldest rows first.
unfoldable pub order_asc : List NamespaceRow → List NamespaceRow
unfolding insert_asc
order_asc [] = []
order_asc (r ∷ rows) = insert_asc r (order_asc rows)

unfoldable pub is_system : String → Bool
is_system name =
    name == "default" || name == "kube-system" || name == "kube-public" || name == "kube-node-lease"

-- `SELECT COUNT(*) FROM pods WHERE namespace = ?`.
unfoldable pub count_pods : String → World → ℕ
count_pods name w = length (filter (λ row. row.namespace == name) w.pods)

module _ (j : Json) (c : Codec NamespaceSpec) where
  unfoldable pub to_row : Namespace → Uuid → DateTime → Option NamespaceRow
  to_row namespace uid now = and_then (j.labels.encode_option namespace.metadata.labels) (λ labels.
      and_then (j.labels.encode_option namespace.metadata.annotations) (λ annotations.
        and_then (c.encode_option namespace.spec) (λ spec. some (record {
          uid = uid;
          name = name_of namespace.metadata;
          labels = labels;
          annotations = annotations;
          spec = spec;
          status = map_or namespace.status "Active" (λ s. phase_text s.phase);
          created_at = now;
          updated_at = now;
        }))))

  unfoldable pub row_to_namespace : NamespaceRow → Namespace
  unfolding json_from_opt
  row_to_namespace row = record {
    type_meta = record { api_version = some "v1"; kind = some "Namespace" };
    metadata = record default_object_meta {
      name = some row.name;
      uid = some row.uid;
      labels = json_from_opt j.labels row.labels;
      annotations = json_from_opt j.labels row.annotations;
      creation_timestamp = some row.created_at;
    };
    spec = json_from_opt c row.spec;
    status = some (record {
      phase = if row.status == "Terminating" then terminating else active;
      conditions = none;
    });
  }

  unfoldable pub namespaces : Layout NamespaceRow Namespace
  unfolding row_to_namespace
  namespaces = record {
    rows = λ w. w.namespaces;
    put = λ rows w. record w { namespaces = rows };
    namespace = λ row. "";
    name = λ row. row.name;
    uid = λ row. row.uid;
    created_at = λ row. row.created_at;
    overwrite = λ new old. record new { uid = old.uid; created_at = old.created_at };
    read = row_to_namespace;
    got = "namespaces";
    deleted = "namespaces";
  }

  module _ (e : Env) where
    unfoldable pub create : Namespace → Action Namespace
    unfolding create_object
    create n = create_object namespaces e n.metadata.uid "" (name_of n.metadata) (to_row n)

    unfoldable pub get_namespace : String → Action Namespace
    unfolding get_object
    get_namespace = get_object namespaces e ""

    unfoldable pub list : Action (List Namespace)
    unfolding query order_asc
    list = do query e; λ w. (ok (map row_to_namespace (order_asc w.namespaces)), w)

    -- With the count of pods at hand.
    delete_counted : String → ℕ → Action (Unit {0})
    unfolding delete_object
    delete_counted name pods =
        if ltb 0 pods
        then fail (
            bad_request (
              append "namespace \""
                (append name (append "\" still has " (append (show_text pods) " pods")))))
        else delete_object namespaces e "" name

    unfoldable pub delete : String → Action (Unit {0})
    unfolding is_system query count_pods delete_counted
    delete name =
        if is_system name
        then fail (
            bad_request (
              append "namespace \"" (append name "\" is a system namespace and cannot be deleted")))
        else do query e; λ w. delete_counted name (count_pods name w) w
