-- ===== src/AuthRepositories/Methods.antt =====
-- src/db/repository.rs, `get`, `list` and `delete` of the repositories of AuthRepositories.
use superkube.Base.{String, Option, none, List}
use superkube.Models.Auth.{
  ServiceAccount, Secret, ConfigMap, ClusterRole, ClusterRoleBinding, Role, RoleBinding,
}
use superkube.Store.{Env, Action}
use superkube.Store.Rows.{Codec}
use superkube.Store.Repository.{get_object, list_objects, delete_object}
use superkube.AuthRepositories.{
  service_accounts, secrets, config_maps, cluster_roles, cluster_role_bindings, roles,
  role_bindings,
}

module _ (c : Codec ServiceAccount) (e : Env) where
  unfoldable pub get_service_account : String → String → Action ServiceAccount
  unfolding get_object service_accounts
  get_service_account = get_object (service_accounts c) e

  unfoldable pub list_service_accounts : Option String → Action (List ServiceAccount)
  unfolding list_objects service_accounts
  list_service_accounts = list_objects (service_accounts c) e

  unfoldable pub delete_service_account : String → String → Action (Unit {0})
  unfolding delete_object service_accounts
  delete_service_account = delete_object (service_accounts c) e

module _ (c : Codec Secret) (e : Env) where
  unfoldable pub get_secret : String → String → Action Secret
  unfolding get_object secrets
  get_secret = get_object (secrets c) e

  unfoldable pub list_secrets : Option String → Action (List Secret)
  unfolding list_objects secrets
  list_secrets = list_objects (secrets c) e

  unfoldable pub delete_secret : String → String → Action (Unit {0})
  unfolding delete_object secrets
  delete_secret = delete_object (secrets c) e

module _ (c : Codec ConfigMap) (e : Env) where
  unfoldable pub get_config_map : String → String → Action ConfigMap
  unfolding get_object config_maps
  get_config_map = get_object (config_maps c) e

  unfoldable pub list_config_maps : Option String → Action (List ConfigMap)
  unfolding list_objects config_maps
  list_config_maps = list_objects (config_maps c) e

  unfoldable pub delete_config_map : String → String → Action (Unit {0})
  unfolding delete_object config_maps
  delete_config_map = delete_object (config_maps c) e

module _ (c : Codec ClusterRole) (e : Env) where
  unfoldable pub get_cluster_role : String → Action ClusterRole
  unfolding get_object cluster_roles
  get_cluster_role = get_object (cluster_roles c) e ""

  unfoldable pub list_cluster_roles : Action (List ClusterRole)
  unfolding list_objects cluster_roles
  list_cluster_roles = list_objects (cluster_roles c) e none

  unfoldable pub delete_cluster_role : String → Action (Unit {0})
  unfolding delete_object cluster_roles
  delete_cluster_role = delete_object (cluster_roles c) e ""

module _ (c : Codec ClusterRoleBinding) (e : Env) where
  unfoldable pub get_cluster_role_binding : String → Action ClusterRoleBinding
  unfolding get_object cluster_role_bindings
  get_cluster_role_binding = get_object (cluster_role_bindings c) e ""

  unfoldable pub list_cluster_role_bindings : Action (List ClusterRoleBinding)
  unfolding list_objects cluster_role_bindings
  list_cluster_role_bindings = list_objects (cluster_role_bindings c) e none

  unfoldable pub delete_cluster_role_binding : String → Action (Unit {0})
  unfolding delete_object cluster_role_bindings
  delete_cluster_role_binding = delete_object (cluster_role_bindings c) e ""

module _ (c : Codec Role) (e : Env) where
  unfoldable pub get_role : String → String → Action Role
  unfolding get_object roles
  get_role = get_object (roles c) e

  unfoldable pub list_roles : Option String → Action (List Role)
  unfolding list_objects roles
  list_roles = list_objects (roles c) e

  unfoldable pub delete_role : String → String → Action (Unit {0})
  unfolding delete_object roles
  delete_role = delete_object (roles c) e

module _ (c : Codec RoleBinding) (e : Env) where
  unfoldable pub get_role_binding : String → String → Action RoleBinding
  unfolding get_object role_bindings
  get_role_binding = get_object (role_bindings c) e

  unfoldable pub list_role_bindings : Option String → Action (List RoleBinding)
  unfolding list_objects role_bindings
  list_role_bindings = list_objects (role_bindings c) e

  unfoldable pub delete_role_binding : String → String → Action (Unit {0})
  unfolding delete_object role_bindings
  delete_role_binding = delete_object (role_bindings c) e
