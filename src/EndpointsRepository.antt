-- ===== src/EndpointsRepository.antt =====
-- src/db/repository.rs, `EndpointsRepository`: the statements of Store.Repository on its table.
use superkube.Base.{String, Option, some, List, [], and_then}
use superkube.Models.Meta.{Uuid, DateTime, default_object_meta, name_of, namespace_of}
use superkube.Models.Service.{Endpoints, EndpointSubset}
use superkube.PodRepository.Conversions.{json_from}
use superkube.Store.{Env, Action}
use superkube.Store.Rows.{Codec, EndpointsRow}
use superkube.Store.Repository.{Layout, get_object, create_object}

module _ (c : Codec (List EndpointSubset)) where
  unfoldable pub to_row : Endpoints → Uuid → DateTime → Option EndpointsRow
  to_row endpoints uid now = and_then (c.encode endpoints.subsets) (λ subsets. some (record {
    uid = uid;
    name = name_of endpoints.metadata;
    namespace = namespace_of endpoints.metadata;
    subsets = subsets;
    created_at = now;
    updated_at = now;
  }))

  unfoldable pub row_to_endpoints : EndpointsRow → Endpoints
  unfolding json_from
  row_to_endpoints row = record {
    type_meta = record { api_version = some "v1"; kind = some "Endpoints" };
    metadata = record default_object_meta {
      name = some row.name;
      namespace = some row.namespace;
      uid = some row.uid;
      creation_timestamp = some row.created_at;
    };
    subsets = json_from c [] row.subsets;
  }

  -- There is no `delete`: its kind is not used.
  unfoldable pub endpoints : Layout EndpointsRow Endpoints
  unfolding row_to_endpoints
  endpoints = record {
    rows = λ w. w.endpoints;
    put = λ rows w. record w { endpoints = rows };
    namespace = λ row. row.namespace;
    name = λ row. row.name;
    uid = λ row. row.uid;
    created_at = λ row. row.created_at;
    overwrite = λ new old. record old { subsets = new.subsets; updated_at = new.updated_at };
    read = row_to_endpoints;
    got = "endpoints";
    deleted = "endpoints";
  }

  module _ (e : Env) where
    unfoldable pub create_or_update : Endpoints → Action Endpoints
    unfolding create_object
    create_or_update x =
        create_object endpoints e x.metadata.uid (namespace_of x.metadata) (name_of x.metadata)
          (to_row x)

    unfoldable pub get_endpoints : String → String → Action Endpoints
    unfolding get_object
    get_endpoints = get_object endpoints e
