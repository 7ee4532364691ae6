-- ===== src/DeploymentRepository.antt =====
-- src/db/repository.rs, `DeploymentRepository`: the statements of Store.Repository on its table.
use superkube.Base.{
  Bool, String, Option, none, some, ℤ, pos, ◌-ℤ◌, wrap_i32, ltb_ℤ, if◌then◌else◌, and_then, List,
}
use superkube.Models.Meta.{
  Uuid, DateTime, default_object_meta, name_of, namespace_of, LabelSelector,
}
use superkube.Models.Pod.{PodTemplateSpec}
use superkube.Models.Deployment.{Deployment, DeploymentSpec, replicas_of}
use superkube.PodRepository.Conversions.{json_from_opt, json_from, default_spec}
use superkube.Store.{Env, Action}
use superkube.Store.Rows.{Json, Codec, DeploymentRow}
use superkube.Store.Repository.{
  Layout, get_object, create_object, list_objects, delete_object, update_object,
}

-- `LabelSelector::default()` and `PodTemplateSpec::default()`.
abbrev pub default_selector : LabelSelector
default_selector = record { match_labels = none; match_expressions = none }

abbrev pub default_template : PodTemplateSpec
default_template = record { metadata = default_object_meta; spec = default_spec }

abbrev pub default_deployment_spec : DeploymentSpec
default_deployment_spec = record {
  replicas = none;
  selector = default_selector;
  template = default_template;
  strategy = none;
  min_ready_seconds = none;
  revision_history_limit = none;
  paused = Bool.false;
}

-- The larger of two `i32`s.
abbrev max : ℤ → ℤ → ℤ
max a b = if ltb_ℤ a b then b else a

module _ (j : Json) (c : Codec DeploymentSpec) where
  -- The counters have the columns' default, 0.
  unfoldable pub to_row : Deployment → Uuid → DateTime → Option DeploymentRow
  to_row deployment uid now =
      and_then (j.labels.encode_option deployment.metadata.labels) (λ labels.
        and_then (j.labels.encode_option deployment.metadata.annotations) (λ annotations.
          and_then (c.encode deployment.spec) (λ spec. some (record {
            uid = uid;
            name = name_of deployment.metadata;
            namespace = namespace_of deployment.metadata;
            labels = labels;
            annotations = annotations;
            spec = spec;
            replicas = replicas_of deployment.spec;
            ready_replicas = pos 0;
            available_replicas = pos 0;
            created_at = now;
            updated_at = now;
          }))))

  unfoldable pub row_to_deployment : DeploymentRow → Deployment
  unfolding json_from_opt json_from
  row_to_deployment row = record {
    type_meta = record { api_version = some "apps/v1"; kind = some "Deployment" };
    metadata = record default_object_meta {
      name = some row.name;
      namespace = some row.namespace;
      uid = some row.uid;
      labels = json_from_opt j.labels row.labels;
      annotations = json_from_opt j.labels row.annotations;
      creation_timestamp = some row.created_at;
    };
    spec = json_from c default_deployment_spec row.spec;
    status = some (record {
      replicas = row.replicas;
      updated_replicas = row.ready_replicas;
      ready_replicas = row.ready_replicas;
      available_replicas = row.available_replicas;
      unavailable_replicas = max (wrap_i32 (row.replicas -ℤ row.available_replicas)) (pos 0);
      observed_generation = none;
      conditions = none;
    });
  }

  unfoldable pub deployments : Layout DeploymentRow Deployment
  unfolding row_to_deployment
  deployments = record {
    rows = λ w. w.deployments;
    put = λ rows w. record w { deployments = rows };
    namespace = λ row. row.namespace;
    name = λ row. row.name;
    uid = λ row. row.uid;
    created_at = λ row. row.created_at;
    overwrite = λ new old. record old {
      labels = new.labels;
      annotations = new.annotations;
      spec = new.spec;
      replicas = new.replicas;
      updated_at = new.updated_at;
    };
    read = row_to_deployment;
    got = "deployments.apps";
    deleted = "deployments.apps";
  }

  module _ (e : Env) where
    unfoldable pub create : Deployment → Action Deployment
    unfolding create_object
    create d =
        create_object deployments e d.metadata.uid (namespace_of d.metadata) (name_of d.metadata)
          (to_row d)

    unfoldable pub get_deployment : String → String → Action Deployment
    unfolding get_object
    get_deployment = get_object deployments e

    unfoldable pub list : Option String → Action (List Deployment)
    unfolding list_objects
    list = list_objects deployments e

    unfoldable pub delete : String → String → Action (Unit {0})
    unfolding delete_object
    delete = delete_object deployments e

    unfoldable pub update_status : String → String → ℤ → ℤ → Action (Unit {0})
    unfolding update_object
    update_status namespace name ready available =
        update_object deployments e namespace name (λ now row. record row {
          ready_replicas = ready;
          available_replicas = available;
          updated_at = now;
        })
