-- ===== src/StatefulSetRepository.antt =====
-- src/db/repository.rs, `StatefulSetRepository`: the statements of Store.Repository on its table.
use superkube.Base.{String, Option, none, some, ℤ, pos, and_then, List}
use superkube.Models.Meta.{Uuid, DateTime, default_object_meta, name_of, namespace_of}
use superkube.Models.StatefulSet.{StatefulSet, StatefulSetSpec, replicas_of}
use superkube.DeploymentRepository.{default_selector, default_template}
use superkube.PodRepository.Conversions.{json_from_opt, json_from}
use superkube.Store.{Env, Action}
use superkube.Store.Rows.{Json, Codec, StatefulSetRow}
use superkube.Store.Repository.{
  Layout, get_object, create_object, list_objects, delete_object, update_object,
}

abbrev pub default_stateful_set_spec : StatefulSetSpec
default_stateful_set_spec = record {
  replicas = none;
  selector = default_selector;
  template = default_template;
  service_name = none;
  pod_management_policy = none;
}

module _ (j : Json) (c : Codec StatefulSetSpec) where
  -- The counters have the columns' default, 0.
  unfoldable pub to_row : StatefulSet → Uuid → DateTime → Option StatefulSetRow
  to_row stateful_set uid now =
      and_then (j.labels.encode_option stateful_set.metadata.labels) (λ labels.
        and_then (j.labels.encode_option stateful_set.metadata.annotations) (λ annotations.
          and_then (c.encode stateful_set.spec) (λ spec. some (record {
            uid = uid;
            name = name_of stateful_set.metadata;
            namespace = namespace_of stateful_set.metadata;
            labels = labels;
            annotations = annotations;
            spec = spec;
            replicas = replicas_of stateful_set.spec;
            ready_replicas = pos 0;
            current_replicas = pos 0;
            created_at = now;
            updated_at = now;
          }))))

  unfoldable pub row_to_stateful_set : StatefulSetRow → StatefulSet
  unfolding json_from_opt json_from
  row_to_stateful_set row = record {
    type_meta = record { api_version = some "apps/v1"; kind = some "StatefulSet" };
    metadata = record default_object_meta {
      name = some row.name;
      namespace = some row.namespace;
      uid = some row.uid;
      labels = json_from_opt j.labels row.labels;
      annotations = json_from_opt j.labels row.annotations;
      creation_timestamp = some row.created_at;
    };
    spec = json_from c default_stateful_set_spec row.spec;
    status = some (record {
      replicas = row.replicas;
      ready_replicas = row.ready_replicas;
      current_replicas = row.current_replicas;
      observed_generation = none;
      current_revision = none;
      last_transition_time = none;
    });
  }

  unfoldable pub stateful_sets : Layout StatefulSetRow StatefulSet
  unfolding row_to_stateful_set
  stateful_sets = record {
    rows = λ w. w.stateful_sets;
    put = λ rows w. record w { stateful_sets = rows };
    namespace = λ row. row.namespace;
    name = λ row. row.name;
    uid = λ row. row.uid;
    created_at = λ row. row.created_at;
    overwrite = λ new old. record old {
      labels = new.labels;
      annotations = new.annotations;
      spec = new.spec;
      replicas = new.replicas;
      updated_at = new.updated_at;
    };
    read = row_to_stateful_set;
    got = "statefulsets.apps";
    deleted = "statefulsets.apps";
  }

  module _ (e : Env) where
    unfoldable pub create : StatefulSet → Action StatefulSet
    unfolding create_object
    create d =
        create_object stateful_sets e d.metadata.uid (namespace_of d.metadata) (name_of d.metadata)
          (to_row d)

    unfoldable pub get_stateful_set : String → String → Action StatefulSet
    unfolding get_object
    get_stateful_set = get_object stateful_sets e

    unfoldable pub list : Option String → Action (List StatefulSet)
    unfolding list_objects
    list = list_objects stateful_sets e

    unfoldable pub delete : String → String → Action (Unit {0})
    unfolding delete_object
    delete = delete_object stateful_sets e

    unfoldable pub update_status : String → String → ℤ → ℤ → Action (Unit {0})
    unfolding update_object
    update_status namespace name ready current =
        update_object stateful_sets e namespace name (λ now row. record row {
          ready_replicas = ready;
          current_replicas = current;
          updated_at = now;
        })
