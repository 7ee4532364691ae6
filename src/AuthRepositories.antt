-- ===== src/AuthRepositories.antt =====
-- src/db/repository.rs, the repositories of service accounts, secrets, config maps, roles and
-- bindings: the statements of Store.Repository on their tables, whose rows hold the whole object.
pub mod Methods
use superkube.Base.{String, Option, none, some, and_then}
use superkube.Models.Meta.{Uuid, DateTime, ObjectMeta, name_of, namespace_of}
use superkube.Models.Auth.{
  ServiceAccount, Secret, ConfigMap, ClusterRole, ClusterRoleBinding, Role, RoleBinding,
  default_service_account, default_secret, default_config_map, default_cluster_role,
  default_cluster_role_binding, default_role, default_role_binding,
}
use superkube.PodRepository.Conversions.{json_from}
use superkube.Store.{Env, Action}
use superkube.Store.Rows.{Json, Codec, ObjectRow}
use superkube.Store.Repository.{Layout, create_object}

-- The columns of an object; the namespace is given apart, and empty for a cluster-wide one.
unfoldable pub columns :
    {A : Type 0}
    → Json
    → Codec A
    → A
    → ObjectMeta
    → String
    → Option String
    → Uuid
    → DateTime
    → Option ObjectRow
columns j c object metadata namespace secret_type uid now =
    and_then (j.labels.encode_option metadata.labels) (λ labels.
      and_then (j.labels.encode_option metadata.annotations) (λ annotations.
        and_then (c.encode object) (λ spec. some (record {
          uid = uid;
          name = name_of metadata;
          namespace = namespace;
          labels = labels;
          annotations = annotations;
          secret_type = secret_type;
          spec = spec;
          created_at = now;
          updated_at = now;
        }))))

-- The upsert keeps the uid and the time of creation.
abbrev replaced : ObjectRow → ObjectRow → ObjectRow
replaced new old = record new { uid = old.uid; created_at = old.created_at }

-- What `row_to` writes over the metadata that is read back.
unfoldable pub stamped : ObjectRow → ObjectMeta → ObjectMeta
stamped row metadata = record metadata {
  name = some row.name;
  namespace = some row.namespace;
  uid = some row.uid;
  creation_timestamp = some row.created_at;
}

-- The same without the namespace.
unfoldable pub stamped_cluster : ObjectRow → ObjectMeta → ObjectMeta
stamped_cluster row metadata = record metadata {
  name = some row.name;
  uid = some row.uid;
  creation_timestamp = some row.created_at;
}

module _ (c : Codec ServiceAccount) where
  unfoldable pub service_accounts : Layout ObjectRow ServiceAccount
  unfolding json_from stamped
  service_accounts = record {
    rows = λ w. w.service_accounts;
    put = λ rows w. record w { service_accounts = rows };
    namespace = λ row. row.namespace;
    name = λ row. row.name;
    uid = λ row. row.uid;
    created_at = λ row. row.created_at;
    overwrite = replaced;
    read = λ row.
        let x = json_from c default_service_account row.spec in
        record x { metadata = stamped row x.metadata };
    got = "serviceaccounts";
    deleted = "serviceaccounts";
  }

  unfoldable pub create_service_account : Env → Json → ServiceAccount → Action ServiceAccount
  unfolding create_object columns
  create_service_account e j x =
      create_object service_accounts e x.metadata.uid (namespace_of x.metadata) (name_of x.metadata)
        (columns j c x x.metadata (namespace_of x.metadata) none)

module _ (c : Codec Secret) where
  unfoldable pub secrets : Layout ObjectRow Secret
  unfolding json_from stamped
  secrets = record {
    rows = λ w. w.secrets;
    put = λ rows w. record w { secrets = rows };
    namespace = λ row. row.namespace;
    name = λ row. row.name;
    uid = λ row. row.uid;
    created_at = λ row. row.created_at;
    overwrite = replaced;
    read = λ row.
        let x = json_from c default_secret row.spec in
        record x { metadata = stamped row x.metadata };
    got = "secrets";
    deleted = "secrets";
  }

  unfoldable pub create_secret : Env → Json → Secret → Action Secret
  unfolding create_object columns
  create_secret e j x =
      create_object secrets e x.metadata.uid (namespace_of x.metadata) (name_of x.metadata)
        (columns j c x x.metadata (namespace_of x.metadata) (some x.secret_type))

module _ (c : Codec ConfigMap) where
  unfoldable pub config_maps : Layout ObjectRow ConfigMap
  unfolding json_from stamped
  config_maps = record {
    rows = λ w. w.config_maps;
    put = λ rows w. record w { config_maps = rows };
    namespace = λ row. row.namespace;
    name = λ row. row.name;
    uid = λ row. row.uid;
    created_at = λ row. row.created_at;
    overwrite = replaced;
    read = λ row.
        let x = json_from c default_config_map row.spec in
        record x { metadata = stamped row x.metadata };
    got = "configmaps";
    deleted = "configmaps";
  }

  unfoldable pub create_config_map : Env → Json → ConfigMap → Action ConfigMap
  unfolding create_object columns
  create_config_map e j x =
      create_object config_maps e x.metadata.uid (namespace_of x.metadata) (name_of x.metadata)
        (columns j c x x.metadata (namespace_of x.metadata) none)

module _ (c : Codec ClusterRole) where
  unfoldable pub cluster_roles : Layout ObjectRow ClusterRole
  unfolding json_from stamped_cluster
  cluster_roles = record {
    rows = λ w. w.cluster_roles;
    put = λ rows w. record w { cluster_roles = rows };
    namespace = λ row. row.namespace;
    name = λ row. row.name;
    uid = λ row. row.uid;
    created_at = λ row. row.created_at;
    overwrite = replaced;
    read = λ row.
        let x = json_from c default_cluster_role row.spec in
        record x { metadata = stamped_cluster row x.metadata };
    got = "clusterroles.rbac.authorization.k8s.io";
    deleted = "clusterroles";
  }

  unfoldable pub create_cluster_role : Env → Json → ClusterRole → Action ClusterRole
  unfolding create_object columns
  create_cluster_role e j x =
      create_object cluster_roles e x.metadata.uid "" (name_of x.metadata)
        (columns j c x x.metadata "" none)

module _ (c : Codec ClusterRoleBinding) where
  unfoldable pub cluster_role_bindings : Layout ObjectRow ClusterRoleBinding
  unfolding json_from stamped_cluster
  cluster_role_bindings = record {
    rows = λ w. w.cluster_role_bindings;
    put = λ rows w. record w { cluster_role_bindings = rows };
    namespace = λ row. row.namespace;
    name = λ row. row.name;
    uid = λ row. row.uid;
    created_at = λ row. row.created_at;
    overwrite = replaced;
    read = λ row.
        let x = json_from c default_cluster_role_binding row.spec in
        record x { metadata = stamped_cluster row x.metadata };
    got = "clusterrolebindings.rbac.authorization.k8s.io";
    deleted = "clusterrolebindings";
  }

  unfoldable pub create_cluster_role_binding :
      Env → Json → ClusterRoleBinding → Action ClusterRoleBinding
  unfolding create_object columns
  create_cluster_role_binding e j x =
      create_object cluster_role_bindings e x.metadata.uid "" (name_of x.metadata)
        (columns j c x x.metadata "" none)

module _ (c : Codec Role) where
  unfoldable pub roles : Layout ObjectRow Role
  unfolding json_from stamped
  roles = record {
    rows = λ w. w.roles;
    put = λ rows w. record w { roles = rows };
    namespace = λ row. row.namespace;
    name = λ row. row.name;
    uid = λ row. row.uid;
    created_at = λ row. row.created_at;
    overwrite = replaced;
    read = λ row.
        let x = json_from c default_role row.spec in record x { metadata = stamped row x.metadata };
    got = "roles.rbac.authorization.k8s.io";
    deleted = "roles";
  }

  unfoldable pub create_role : Env → Json → Role → Action Role
  unfolding create_object columns
  create_role e j x =
      create_object roles e x.metadata.uid (namespace_of x.metadata) (name_of x.metadata)
        (columns j c x x.metadata (namespace_of x.metadata) none)

module _ (c : Codec RoleBinding) where
  unfoldable pub role_bindings : Layout ObjectRow RoleBinding
  unfolding json_from stamped
  role_bindings = record {
    rows = λ w. w.role_bindings;
    put = λ rows w. record w { role_bindings = rows };
    namespace = λ row. row.namespace;
    name = λ row. row.name;
    uid = λ row. row.uid;
    created_at = λ row. row.created_at;
    overwrite = replaced;
    read = λ row.
        let x = json_from c default_role_binding row.spec in
        record x { metadata = stamped row x.metadata };
    got = "rolebindings.rbac.authorization.k8s.io";
    deleted = "rolebindings";
  }

  unfoldable pub create_role_binding : Env → Json → RoleBinding → Action RoleBinding
  unfolding create_object columns
  create_role_binding e j x =
      create_object role_bindings e x.metadata.uid (namespace_of x.metadata) (name_of x.metadata)
        (columns j c x x.metadata (namespace_of x.metadata) none)
