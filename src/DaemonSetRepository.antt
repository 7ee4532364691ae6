-- ===== src/DaemonSetRepository.antt =====
-- src/db/repository.rs, `DaemonSetRepository`: the statements of Store.Repository on its table.
use superkube.Base.{String, Option, none, some, ℤ, pos, and_then, List}
use superkube.Models.Meta.{Uuid, DateTime, default_object_meta, name_of, namespace_of}
use superkube.Models.DaemonSet.{DaemonSet, DaemonSetSpec}
use superkube.DeploymentRepository.{default_selector, default_template}
use superkube.PodRepository.Conversions.{json_from_opt, json_from}
use superkube.Store.{Env, Action}
use superkube.Store.Rows.{Json, Codec, DaemonSetRow}
use superkube.Store.Repository.{
  Layout, get_object, create_object, list_objects, delete_object, update_object,
}

abbrev pub default_daemon_set_spec : DaemonSetSpec
default_daemon_set_spec = record {
  selector = default_selector;
  template = default_template;
  min_ready_seconds = none;
}

module _ (j : Json) (c : Codec DaemonSetSpec) where
  -- The counters have the columns' default, 0.
  unfoldable pub to_row : DaemonSet → Uuid → DateTime → Option DaemonSetRow
  to_row daemon_set uid now =
      and_then (j.labels.encode_option daemon_set.metadata.labels) (λ labels.
        and_then (j.labels.encode_option daemon_set.metadata.annotations) (λ annotations.
          and_then (c.encode daemon_set.spec) (λ spec. some (record {
            uid = uid;
            name = name_of daemon_set.metadata;
            namespace = namespace_of daemon_set.metadata;
            labels = labels;
            annotations = annotations;
            spec = spec;
            desired_number_scheduled = pos 0;
            current_number_scheduled = pos 0;
            number_ready = pos 0;
            created_at = now;
            updated_at = now;
          }))))

  unfoldable pub row_to_daemon_set : DaemonSetRow → DaemonSet
  unfolding json_from_opt json_from
  row_to_daemon_set row = record {
    type_meta = record { api_version = some "apps/v1"; kind = some "DaemonSet" };
    metadata = record default_object_meta {
      name = some row.name;
      namespace = some row.namespace;
      uid = some row.uid;
      labels = json_from_opt j.labels row.labels;
      annotations = json_from_opt j.labels row.annotations;
      creation_timestamp = some row.created_at;
    };
    spec = json_from c default_daemon_set_spec row.spec;
    status = some (record {
      desired_number_scheduled = row.desired_number_scheduled;
      current_number_scheduled = row.current_number_scheduled;
      number_ready = row.number_ready;
      updated_number_scheduled = row.current_number_scheduled;
      number_misscheduled = pos 0;
      number_available = row.number_ready;
      observed_generation = none;
      last_transition_time = none;
    });
  }

  unfoldable pub daemon_sets : Layout DaemonSetRow DaemonSet
  unfolding row_to_daemon_set
  daemon_sets = record {
    rows = λ w. w.daemon_sets;
    put = λ rows w. record w { daemon_sets = rows };
    namespace = λ row. row.namespace;
    name = λ row. row.name;
    uid = λ row. row.uid;
    created_at = λ row. row.created_at;
    overwrite = λ new old. record old {
      labels = new.labels;
      annotations = new.annotations;
      spec = new.spec;
      updated_at = new.updated_at;
    };
    read = row_to_daemon_set;
    got = "daemonsets.apps";
    deleted = "daemonsets.apps";
  }

  module _ (e : Env) where
    unfoldable pub create : DaemonSet → Action DaemonSet
    unfolding create_object
    create d =
        create_object daemon_sets e d.metadata.uid (namespace_of d.metadata) (name_of d.metadata)
          (to_row d)

    unfoldable pub get_daemon_set : String → String → Action DaemonSet
    unfolding get_object
    get_daemon_set = get_object daemon_sets e

    unfoldable pub list : Option String → Action (List DaemonSet)
    unfolding list_objects
    list = list_objects daemon_sets e

    unfoldable pub delete : String → String → Action (Unit {0})
    unfolding delete_object
    delete = delete_object daemon_sets e

    unfoldable pub update_status : String → String → ℤ → ℤ → ℤ → Action (Unit {0})
    unfolding update_object
    update_status namespace name desired current ready =
        update_object daemon_sets e namespace name (λ now row. record row {
          desired_number_scheduled = desired;
          current_number_scheduled = current;
          number_ready = ready;
          updated_at = now;
        })
