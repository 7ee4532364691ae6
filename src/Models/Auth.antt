-- ===== src/Models/Auth.antt =====
-- src/models/auth.rs: service accounts, secrets, config maps, roles and their bindings. The field
-- `data` is `contents` here; a `serde_json::Value` is its text.
use superkube.Base.{String, Option, none, some, List, [], Map, Bool}
use superkube.Models.Meta.{ObjectMeta, TypeMeta, default_object_meta}

pub record ObjectReferenceLite : Type 0 where
  pub name : Option String

pub record ServiceAccount : Type 0 where
  pub type_meta : TypeMeta
  pub metadata : ObjectMeta
  pub secrets : Option (List ObjectReferenceLite)
  pub image_pull_secrets : Option (List ObjectReferenceLite)
  pub automount_service_account_token : Option Bool

abbrev pub default_service_account : ServiceAccount
default_service_account = record {
  type_meta = record { api_version = some "v1"; kind = some "ServiceAccount" };
  metadata = default_object_meta;
  secrets = none;
  image_pull_secrets = none;
  automount_service_account_token = none;
}

pub record Secret : Type 0 where
  pub type_meta : TypeMeta
  pub metadata : ObjectMeta
  pub secret_type : String
  pub contents : Option (Map String)
  pub string_data : Option (Map String)
  pub immutable : Option Bool

abbrev pub default_secret : Secret
default_secret = record {
  type_meta = record { api_version = some "v1"; kind = some "Secret" };
  metadata = default_object_meta;
  secret_type = "Opaque";
  contents = none;
  string_data = none;
  immutable = none;
}

pub record ConfigMap : Type 0 where
  pub type_meta : TypeMeta
  pub metadata : ObjectMeta
  pub contents : Option (Map String)
  pub binary_data : Option (Map String)
  pub immutable : Option Bool

abbrev pub default_config_map : ConfigMap
default_config_map = record {
  type_meta = record { api_version = some "v1"; kind = some "ConfigMap" };
  metadata = default_object_meta;
  contents = none;
  binary_data = none;
  immutable = none;
}

pub record PolicyRule : Type 0 where
  pub verbs : List String
  pub api_groups : List String
  pub resources : List String
  pub resource_names : List String
  pub non_resource_ur_ls : List String

pub record RbacSubject : Type 0 where
  pub kind : String
  pub api_group : Option String
  pub name : String
  pub namespace : Option String

pub record RoleRef : Type 0 where
  pub api_group : String
  pub kind : String
  pub name : String

abbrev rbac : String → TypeMeta
rbac kind = record { api_version = some "rbac.authorization.k8s.io/v1"; kind = some kind }

abbrev no_role : RoleRef
no_role = record { api_group = ""; kind = ""; name = "" }

pub record Role : Type 0 where
  pub type_meta : TypeMeta
  pub metadata : ObjectMeta
  pub rules : List PolicyRule

abbrev pub default_role : Role
default_role = record { type_meta = rbac "Role"; metadata = default_object_meta; rules = [] }

pub record RoleBinding : Type 0 where
  pub type_meta : TypeMeta
  pub metadata : ObjectMeta
  pub subjects : List RbacSubject
  pub role_ref : RoleRef

abbrev pub default_role_binding : RoleBinding
default_role_binding = record {
  type_meta = rbac "RoleBinding";
  metadata = default_object_meta;
  subjects = [];
  role_ref = no_role;
}

pub record ClusterRole : Type 0 where
  pub type_meta : TypeMeta
  pub metadata : ObjectMeta
  pub rules : List PolicyRule
  pub aggregation_rule : Option String

abbrev pub default_cluster_role : ClusterRole
default_cluster_role = record {
  type_meta = rbac "ClusterRole";
  metadata = default_object_meta;
  rules = [];
  aggregation_rule = none;
}

pub record ClusterRoleBinding : Type 0 where
  pub type_meta : TypeMeta
  pub metadata : ObjectMeta
  pub subjects : List RbacSubject
  pub role_ref : RoleRef

abbrev pub default_cluster_role_binding : ClusterRoleBinding
default_cluster_role_binding = record {
  type_meta = rbac "ClusterRoleBinding";
  metadata = default_object_meta;
  subjects = [];
  role_ref = no_role;
}
