-- ===== src/RepositoryLaws.antt =====
-- The layouts of src/db/repository.rs obey `LayoutLaws`: each repository has a table of its own, and
-- its upsert keeps the key.
mod Tests
use superkube.Base.{List, refl}
use superkube.Models.Deployment.{DeploymentSpec}
use superkube.Models.StatefulSet.{StatefulSetSpec}
use superkube.Models.DaemonSet.{DaemonSetSpec}
use superkube.Models.Service.{ServiceSpec, EndpointSubset}
use superkube.Models.Namespace.{NamespaceSpec}
use superkube.Models.Auth.{
  ServiceAccount, Secret, ConfigMap, ClusterRole, ClusterRoleBinding, Role, RoleBinding,
}
use superkube.Store.Rows.{Json, Codec}
use superkube.Store.Repository.Rows.{LayoutLaws}
use superkube.DeploymentRepository.{deployments}
use superkube.StatefulSetRepository.{stateful_sets}
use superkube.DaemonSetRepository.{daemon_sets}
use superkube.ServiceRepository.{services}
use superkube.NamespaceRepository.{namespaces}
use superkube.EndpointsRepository.{endpoints}
use superkube.AuthRepositories.{
  service_accounts, secrets, config_maps, cluster_roles, cluster_role_bindings, roles,
  role_bindings,
}

pub deployments-LayoutLaws : (j : Json) (c : Codec DeploymentSpec) → LayoutLaws (deployments j c)
unfolding deployments
deployments-LayoutLaws j c = record {
  rows-put = λ rows w. refl;
  blind_statements = λ w n. refl;
  blind_drawn = λ w n. refl;
  statements-put = λ rows w. refl;
  overwrite_key = λ new old e f. (e, f);
}

pub stateful_sets-LayoutLaws :
    (j : Json) (c : Codec StatefulSetSpec) → LayoutLaws (stateful_sets j c)
unfolding stateful_sets
stateful_sets-LayoutLaws j c = record {
  rows-put = λ rows w. refl;
  blind_statements = λ w n. refl;
  blind_drawn = λ w n. refl;
  statements-put = λ rows w. refl;
  overwrite_key = λ new old e f. (e, f);
}

pub daemon_sets-LayoutLaws : (j : Json) (c : Codec DaemonSetSpec) → LayoutLaws (daemon_sets j c)
unfolding daemon_sets
daemon_sets-LayoutLaws j c = record {
  rows-put = λ rows w. refl;
  blind_statements = λ w n. refl;
  blind_drawn = λ w n. refl;
  statements-put = λ rows w. refl;
  overwrite_key = λ new old e f. (e, f);
}

pub services-LayoutLaws : (j : Json) (c : Codec ServiceSpec) → LayoutLaws (services j c)
unfolding services
services-LayoutLaws j c = record {
  rows-put = λ rows w. refl;
  blind_statements = λ w n. refl;
  blind_drawn = λ w n. refl;
  statements-put = λ rows w. refl;
  overwrite_key = λ new old e f. (refl, refl);
}

pub namespaces-LayoutLaws : (j : Json) (c : Codec NamespaceSpec) → LayoutLaws (namespaces j c)
unfolding namespaces
namespaces-LayoutLaws j c = record {
  rows-put = λ rows w. refl;
  blind_statements = λ w n. refl;
  blind_drawn = λ w n. refl;
  statements-put = λ rows w. refl;
  overwrite_key = λ new old e f. (refl, refl);
}

pub endpoints-LayoutLaws : (c : Codec (List EndpointSubset)) → LayoutLaws (endpoints c)
unfolding endpoints
endpoints-LayoutLaws c = record {
  rows-put = λ rows w. refl;
  blind_statements = λ w n. refl;
  blind_drawn = λ w n. refl;
  statements-put = λ rows w. refl;
  overwrite_key = λ new old e f. (e, f);
}

pub service_accounts-LayoutLaws : (c : Codec ServiceAccount) → LayoutLaws (service_accounts c)
unfolding service_accounts
service_accounts-LayoutLaws c = record {
  rows-put = λ rows w. refl;
  blind_statements = λ w n. refl;
  blind_drawn = λ w n. refl;
  statements-put = λ rows w. refl;
  overwrite_key = λ new old e f. (refl, refl);
}

pub secrets-LayoutLaws : (c : Codec Secret) → LayoutLaws (secrets c)
unfolding secrets
secrets-LayoutLaws c = record {
  rows-put = λ rows w. refl;
  blind_statements = λ w n. refl;
  blind_drawn = λ w n. refl;
  statements-put = λ rows w. refl;
  overwrite_key = λ new old e f. (refl, refl);
}

pub config_maps-LayoutLaws : (c : Codec ConfigMap) → LayoutLaws (config_maps c)
unfolding config_maps
config_maps-LayoutLaws c = record {
  rows-put = λ rows w. refl;
  blind_statements = λ w n. refl;
  blind_drawn = λ w n. refl;
  statements-put = λ rows w. refl;
  overwrite_key = λ new old e f. (refl, refl);
}

pub cluster_roles-LayoutLaws : (c : Codec ClusterRole) → LayoutLaws (cluster_roles c)
unfolding cluster_roles
cluster_roles-LayoutLaws c = record {
  rows-put = λ rows w. refl;
  blind_statements = λ w n. refl;
  blind_drawn = λ w n. refl;
  statements-put = λ rows w. refl;
  overwrite_key = λ new old e f. (refl, refl);
}

pub cluster_role_bindings-LayoutLaws :
    (c : Codec ClusterRoleBinding) → LayoutLaws (cluster_role_bindings c)
unfolding cluster_role_bindings
cluster_role_bindings-LayoutLaws c = record {
  rows-put = λ rows w. refl;
  blind_statements = λ w n. refl;
  blind_drawn = λ w n. refl;
  statements-put = λ rows w. refl;
  overwrite_key = λ new old e f. (refl, refl);
}

pub roles-LayoutLaws : (c : Codec Role) → LayoutLaws (roles c)
unfolding roles
roles-LayoutLaws c = record {
  rows-put = λ rows w. refl;
  blind_statements = λ w n. refl;
  blind_drawn = λ w n. refl;
  statements-put = λ rows w. refl;
  overwrite_key = λ new old e f. (refl, refl);
}

pub role_bindings-LayoutLaws : (c : Codec RoleBinding) → LayoutLaws (role_bindings c)
unfolding role_bindings
role_bindings-LayoutLaws c = record {
  rows-put = λ rows w. refl;
  blind_statements = λ w n. refl;
  blind_drawn = λ w n. refl;
  statements-put = λ rows w. refl;
  overwrite_key = λ new old e f. (refl, refl);
}
