-- ===== src/Api/Auth.antt =====
-- src/server/api.rs: the handlers of service accounts, secrets, config maps, roles and bindings.
use superkube.Base.{String, none, some, List}
use superkube.Models.Meta.{name_of}
use superkube.Models.Auth.{
  ServiceAccount, Secret, ConfigMap, ClusterRole, ClusterRoleBinding, Role, RoleBinding,
}
use superkube.Store.{Env, Action}
use superkube.Store.Rows.{Json, Codec}
use superkube.Store.Bus.{added, modified, Object}
use superkube.AuthRepositories
use superkube.AuthRepositories.Methods
use superkube.Api.{in_namespace, placed, renamed, saved, removed}

module _ (e : Env) (j : Json) (c : Codec ServiceAccount) where
  unfoldable pub list_service_accounts : String → Action (List ServiceAccount)
  list_service_accounts namespace = Methods.list_service_accounts c e (some namespace)

  unfoldable pub list_all_service_accounts : Action (List ServiceAccount)
  list_all_service_accounts = Methods.list_service_accounts c e none

  unfoldable pub get_service_account : String → String → Action ServiceAccount
  get_service_account namespace name = Methods.get_service_account c e namespace name

  unfoldable pub create_service_account : String → ServiceAccount → Action ServiceAccount
  unfolding saved
  create_service_account namespace sa =
      let sa = record sa { metadata = in_namespace namespace sa.metadata } in
      saved "ServiceAccount" Object.service_account added (some namespace) (name_of sa.metadata)
        (AuthRepositories.create_service_account c e j sa)

  unfoldable pub update_service_account : String → String → ServiceAccount → Action ServiceAccount
  unfolding saved
  update_service_account namespace name sa =
      let sa = record sa { metadata = placed namespace name sa.metadata } in
      saved "ServiceAccount" Object.service_account modified (some namespace) name
        (AuthRepositories.create_service_account c e j sa)

  unfoldable pub delete_service_account : String → String → Action (Unit {0})
  unfolding removed
  delete_service_account namespace name =
      removed "ServiceAccount" Object.service_account (some namespace) name
        (Methods.get_service_account c e namespace name)
        (Methods.delete_service_account c e namespace name)

module _ (e : Env) (j : Json) (c : Codec Secret) where
  unfoldable pub list_secrets : String → Action (List Secret)
  list_secrets namespace = Methods.list_secrets c e (some namespace)

  unfoldable pub list_all_secrets : Action (List Secret)
  list_all_secrets = Methods.list_secrets c e none

  unfoldable pub get_secret : String → String → Action Secret
  get_secret namespace name = Methods.get_secret c e namespace name

  unfoldable pub create_secret : String → Secret → Action Secret
  unfolding saved
  create_secret namespace s =
      let s = record s { metadata = in_namespace namespace s.metadata } in
      saved "Secret" Object.secret added (some namespace) (name_of s.metadata)
        (AuthRepositories.create_secret c e j s)

  unfoldable pub update_secret : String → String → Secret → Action Secret
  unfolding saved
  update_secret namespace name s =
      let s = record s { metadata = placed namespace name s.metadata } in
      saved "Secret" Object.secret modified (some namespace) name
        (AuthRepositories.create_secret c e j s)

  unfoldable pub delete_secret : String → String → Action (Unit {0})
  unfolding removed
  delete_secret namespace name =
      removed "Secret" Object.secret (some namespace) name (Methods.get_secret c e namespace name)
        (Methods.delete_secret c e namespace name)

module _ (e : Env) (j : Json) (c : Codec ConfigMap) where
  unfoldable pub list_config_maps : String → Action (List ConfigMap)
  list_config_maps namespace = Methods.list_config_maps c e (some namespace)

  unfoldable pub list_all_config_maps : Action (List ConfigMap)
  list_all_config_maps = Methods.list_config_maps c e none

  unfoldable pub get_config_map : String → String → Action ConfigMap
  get_config_map namespace name = Methods.get_config_map c e namespace name

  unfoldable pub create_config_map : String → ConfigMap → Action ConfigMap
  unfolding saved
  create_config_map namespace cm =
      let cm = record cm { metadata = in_namespace namespace cm.metadata } in
      saved "ConfigMap" Object.config_map added (some namespace) (name_of cm.metadata)
        (AuthRepositories.create_config_map c e j cm)

  unfoldable pub update_config_map : String → String → ConfigMap → Action ConfigMap
  unfolding saved
  update_config_map namespace name cm =
      let cm = record cm { metadata = placed namespace name cm.metadata } in
      saved "ConfigMap" Object.config_map modified (some namespace) name
        (AuthRepositories.create_config_map c e j cm)

  unfoldable pub delete_config_map : String → String → Action (Unit {0})
  unfolding removed
  delete_config_map namespace name =
      removed "ConfigMap" Object.config_map (some namespace) name
        (Methods.get_config_map c e namespace name) (Methods.delete_config_map c e namespace name)

module _ (e : Env) (j : Json) (c : Codec ClusterRole) where
  unfoldable pub list_cluster_roles : Action (List ClusterRole)
  list_cluster_roles = Methods.list_cluster_roles c e

  unfoldable pub get_cluster_role : String → Action ClusterRole
  get_cluster_role name = Methods.get_cluster_role c e name

  unfoldable pub create_cluster_role : ClusterRole → Action ClusterRole
  unfolding saved
  create_cluster_role cr =
      saved "ClusterRole" Object.cluster_role added none (name_of cr.metadata)
        (AuthRepositories.create_cluster_role c e j cr)

  unfoldable pub update_cluster_role : String → ClusterRole → Action ClusterRole
  unfolding saved
  update_cluster_role name cr =
      let cr = record cr { metadata = renamed name cr.metadata } in
      saved "ClusterRole" Object.cluster_role modified none name
        (AuthRepositories.create_cluster_role c e j cr)

  unfoldable pub delete_cluster_role : String → Action (Unit {0})
  unfolding removed
  delete_cluster_role name =
      removed "ClusterRole" Object.cluster_role none name (Methods.get_cluster_role c e name)
        (Methods.delete_cluster_role c e name)

module _ (e : Env) (j : Json) (c : Codec ClusterRoleBinding) where
  unfoldable pub list_cluster_role_bindings : Action (List ClusterRoleBinding)
  list_cluster_role_bindings = Methods.list_cluster_role_bindings c e

  unfoldable pub get_cluster_role_binding : String → Action ClusterRoleBinding
  get_cluster_role_binding name = Methods.get_cluster_role_binding c e name

  unfoldable pub create_cluster_role_binding : ClusterRoleBinding → Action ClusterRoleBinding
  unfolding saved
  create_cluster_role_binding crb =
      saved "ClusterRoleBinding" Object.cluster_role_binding added none (name_of crb.metadata)
        (AuthRepositories.create_cluster_role_binding c e j crb)

  unfoldable pub update_cluster_role_binding :
      String → ClusterRoleBinding → Action ClusterRoleBinding
  unfolding saved
  update_cluster_role_binding name crb =
      let crb = record crb { metadata = renamed name crb.metadata } in
      saved "ClusterRoleBinding" Object.cluster_role_binding modified none name
        (AuthRepositories.create_cluster_role_binding c e j crb)

  unfoldable pub delete_cluster_role_binding : String → Action (Unit {0})
  unfolding removed
  delete_cluster_role_binding name =
      removed "ClusterRoleBinding" Object.cluster_role_binding none name
        (Methods.get_cluster_role_binding c e name) (Methods.delete_cluster_role_binding c e name)

module _ (e : Env) (j : Json) (c : Codec Role) where
  unfoldable pub list_roles : String → Action (List Role)
  list_roles namespace = Methods.list_roles c e (some namespace)

  unfoldable pub list_all_roles : Action (List Role)
  list_all_roles = Methods.list_roles c e none

  unfoldable pub get_role : String → String → Action Role
  get_role namespace name = Methods.get_role c e namespace name

  unfoldable pub create_role : String → Role → Action Role
  unfolding saved
  create_role namespace r =
      let r = record r { metadata = in_namespace namespace r.metadata } in
      saved "Role" Object.role added (some namespace) (name_of r.metadata)
        (AuthRepositories.create_role c e j r)

  unfoldable pub update_role : String → String → Role → Action Role
  unfolding saved
  update_role namespace name r =
      let r = record r { metadata = placed namespace name r.metadata } in
      saved "Role" Object.role modified (some namespace) name (AuthRepositories.create_role c e j r)

  unfoldable pub delete_role : String → String → Action (Unit {0})
  unfolding removed
  delete_role namespace name =
      removed "Role" Object.role (some namespace) name (Methods.get_role c e namespace name)
        (Methods.delete_role c e namespace name)

module _ (e : Env) (j : Json) (c : Codec RoleBinding) where
  unfoldable pub list_role_bindings : String → Action (List RoleBinding)
  list_role_bindings namespace = Methods.list_role_bindings c e (some namespace)

  unfoldable pub list_all_role_bindings : Action (List RoleBinding)
  list_all_role_bindings = Methods.list_role_bindings c e none

  unfoldable pub get_role_binding : String → String → Action RoleBinding
  get_role_binding namespace name = Methods.get_role_binding c e namespace name

  unfoldable pub create_role_binding : String → RoleBinding → Action RoleBinding
  unfolding saved
  create_role_binding namespace rb =
      let rb = record rb { metadata = in_namespace namespace rb.metadata } in
      saved "RoleBinding" Object.role_binding added (some namespace) (name_of rb.metadata)
        (AuthRepositories.create_role_binding c e j rb)

  unfoldable pub update_role_binding : String → String → RoleBinding → Action RoleBinding
  unfolding saved
  update_role_binding namespace name rb =
      let rb = record rb { metadata = placed namespace name rb.metadata } in
      saved "RoleBinding" Object.role_binding modified (some namespace) name
        (AuthRepositories.create_role_binding c e j rb)

  unfoldable pub delete_role_binding : String → String → Action (Unit {0})
  unfolding removed
  delete_role_binding namespace name =
      removed "RoleBinding" Object.role_binding (some namespace) name
        (Methods.get_role_binding c e namespace name)
        (Methods.delete_role_binding c e namespace name)
