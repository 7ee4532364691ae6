-- ===== src/Printers/Columns.antt =====
-- src/server/printers.rs: the columns of the tables, and that the rows fit them.
use superkube.Base.{◌≡◌, refl, String, List, [], ◌∷◌, map}
use superkube.Models.Meta.{DateTime}
use superkube.Models.Pod.{Pod}
use superkube.Models.Deployment
use superkube.Models.StatefulSet
use superkube.Models.Namespace
use superkube.Models.Auth.{
  ServiceAccount, Secret, ConfigMap, ClusterRoleBinding, RoleBinding, ClusterRole, Role,
}
use superkube.Models.Service.{Service}
use superkube.Models.DaemonSet.{DaemonSet}
use superkube.Models.Node.{Node}
use superkube.Models.Event.{Event}
use superkube.Printers.Nodes.{node_columns, event_columns, node_row, event_row}
use superkube.Printers.Selectors.{service_row, daemonset_row, clusterrole_row, role_row}
use superkube.Printers.{
  Cell, text, integer, Column, column, wide, pod_row, deployment_row, statefulset_row,
  namespace_row, serviceaccount_row, secret_row, configmap_row, clusterrolebinding_row,
  rolebinding_row,
}

abbrev pub pod_columns : List Column
pod_columns =
    column "Name" "string"
    ∷ column "Ready" "string"
    ∷ column "Status" "string"
    ∷ column "Restarts" "integer"
    ∷ column "Age" "string"
    ∷ wide "IP" "string"
    ∷ wide "Node" "string"
    ∷ wide "Nominated Node" "string"
    ∷ wide "Readiness Gates" "string"
    ∷ []

abbrev pub deployment_columns : List Column
deployment_columns =
    column "Name" "string"
    ∷ column "Ready" "string"
    ∷ column "Up-to-date" "integer"
    ∷ column "Available" "integer"
    ∷ column "Age" "string"
    ∷ []

abbrev pub statefulset_columns : List Column
statefulset_columns = column "Name" "string" ∷ column "Ready" "string" ∷ column "Age" "string" ∷ []

abbrev pub namespace_columns : List Column
namespace_columns = column "Name" "string" ∷ column "Status" "string" ∷ column "Age" "string" ∷ []

abbrev pub serviceaccount_columns : List Column
serviceaccount_columns =
    column "Name" "string" ∷ column "Secrets" "integer" ∷ column "Age" "string" ∷ []

abbrev pub secret_columns : List Column
secret_columns =
    column "Name" "string"
    ∷ column "Type" "string"
    ∷ column "Data" "integer"
    ∷ column "Age" "string"
    ∷ []

abbrev pub configmap_columns : List Column
configmap_columns = column "Name" "string" ∷ column "Data" "integer" ∷ column "Age" "string" ∷ []

abbrev pub clusterrolebinding_columns : List Column
clusterrolebinding_columns =
    column "Name" "string" ∷ column "Role" "string" ∷ column "Age" "string" ∷ []

abbrev pub rolebinding_columns : List Column
rolebinding_columns = column "Name" "string" ∷ column "Role" "string" ∷ column "Age" "string" ∷ []

abbrev pub service_columns : List Column
service_columns =
    column "Name" "string"
    ∷ column "Type" "string"
    ∷ column "Cluster-IP" "string"
    ∷ column "External-IP" "string"
    ∷ column "Ports" "string"
    ∷ column "Age" "string"
    ∷ wide "Selector" "string"
    ∷ []

abbrev pub daemonset_columns : List Column
daemonset_columns =
    column "Name" "string"
    ∷ column "Desired" "integer"
    ∷ column "Current" "integer"
    ∷ column "Ready" "integer"
    ∷ column "Up-to-date" "integer"
    ∷ column "Available" "integer"
    ∷ column "Node Selector" "string"
    ∷ column "Age" "string"
    ∷ []

abbrev pub clusterrole_columns : List Column
clusterrole_columns = column "Name" "string" ∷ column "Created At" "string" ∷ []

abbrev pub role_columns : List Column
role_columns = column "Name" "string" ∷ column "Created At" "string" ∷ []

kind_of : Cell → String
kind_of (text s) = "string"
kind_of (integer n) = "integer"

-- The cells of the row have the kinds that the columns announce, one for each.
Fits : List Column → List Cell → Type 0
unfolding kind_of
Fits columns cells = map kind_of cells ≡ map (λ (c : Column). c.kind) columns

-- Every row fits the columns of its table.
rows-Fits :
    (now : DateTime) (p : Pod) (d : Deployment.Deployment) (ss : StatefulSet.StatefulSet)
    (n : Namespace.Namespace) (sa : ServiceAccount) (s : Secret) (cm : ConfigMap)
    (cb : ClusterRoleBinding) (b : RoleBinding) (sv : Service) (ds : DaemonSet)
    (to_rfc3339 : DateTime → String) (cr : ClusterRole) (r : Role) (nd : Node)
    (to_lowercase : String → String) (ev : Event)
    → Fits pod_columns (pod_row now p)
      × Fits deployment_columns (deployment_row now d)
      × Fits statefulset_columns (statefulset_row now ss)
      × Fits namespace_columns (namespace_row now n)
      × Fits serviceaccount_columns (serviceaccount_row now sa)
      × Fits secret_columns (secret_row now s)
      × Fits configmap_columns (configmap_row now cm)
      × Fits clusterrolebinding_columns (clusterrolebinding_row now cb)
      × Fits rolebinding_columns (rolebinding_row now b)
      × Fits service_columns (service_row now sv)
      × Fits daemonset_columns (daemonset_row now ds)
      × Fits clusterrole_columns (clusterrole_row to_rfc3339 cr)
      × Fits role_columns (role_row to_rfc3339 r)
      × Fits node_columns (node_row now nd)
      × Fits event_columns (event_row to_lowercase now ev)
unfolding Fits pod_row deployment_row statefulset_row namespace_row serviceaccount_row secret_row
    configmap_row clusterrolebinding_row rolebinding_row service_row daemonset_row clusterrole_row
    role_row node_row event_row
rows-Fits now p d ss n sa s cm cb b sv ds to_rfc3339 cr r nd to_lowercase ev =
    (refl, refl, refl, refl, refl, refl, refl, refl, refl, refl, refl, refl, refl, refl, refl)
