-- ===== src/Printers.antt =====
-- src/server/printers.rs and the ages of src/server/table.rs: the rows of the tables that kubectl
-- prints, for pods, deployments, stateful sets, namespaces, service accounts, secrets, config maps
-- and role bindings. Times count nanoseconds; `now` is the time of the request.
pub mod Selectors
mod Nodes
mod Order
mod Columns
mod Tests
use superkube.Base.{
  ℕ, ◌+◌, ◌-◌, ◌*◌, ◌/◌, ◌^◌, String, Bool, true, false, Option, none, some, List, [], ◌∷◌,
  if◌then◌else◌, filter, length, map_or, and_then, unwrap_or, ltb, ℤ, pos, ◌+ℤ◌, wrap_i32,
  show_text, show_int, append,
}
use superkube.Models.Meta.{DateTime, ObjectMeta, name_of}
use superkube.Models.Pod.{Pod, ContainerStatus, phase_text}
use superkube.Models.Deployment
use superkube.Models.StatefulSet
use superkube.Models.Namespace
use superkube.Models.Auth.{
  ServiceAccount, Secret, ConfigMap, ClusterRoleBinding, RoleBinding, RoleRef,
}

-- A cell of a table, as JSON.
pub data Cell : Type 0 where
  text : String → Cell
  integer : ℤ → Cell

pub record Column : Type 0 where
  pub name : String
  pub kind : String
  pub priority : ℕ

-- `Column::new` and `Column::wide`.
abbrev pub column : String → String → Column
column name kind = record { name = name; kind = kind; priority = 0 }

abbrev pub wide : String → String → Column
wide name kind = record { name = name; kind = kind; priority = 1 }

-- Of a number of nanoseconds, none of which is negative.
unfoldable pub format_age : ℕ → String
format_age d =
    let secs = d / 10 ^ 9 in
    let mins = secs / 60 in
    let hrs = mins / 60 in
    if ltb secs 60
    then append (show_text secs) "s"
    else if ltb mins 60
    then append (show_text mins) "m"
    else if ltb hrs 48
    then append (show_text hrs) "h"
    else append (show_text (hrs / 24)) "d"

-- A time that is still to come has the age 0.
unfoldable pub age_str : DateTime → Option DateTime → String
unfolding format_age
age_str now none = "<unknown>"
age_str now (some t) = format_age (now - t)

abbrev age_of : DateTime → ObjectMeta → Cell
age_of now metadata = text (age_str now metadata.creation_timestamp)

-- The sum of the counts, in 32 bits.
restarts : List ContainerStatus → ℤ
restarts [] = pos 0
restarts (c ∷ cs) = wrap_i32 (c.restart_count +ℤ restarts cs)

-- `{}/{}`.
abbrev fraction : String → String → String
fraction a b = append a (append "/" b)

unfoldable pub pod_row : DateTime → Pod → List Cell
unfolding age_str restarts show_text
pod_row now p =
    let cs = and_then p.status (λ s. s.container_statuses) in
    let ready = map_or cs 0 (λ cs. length (filter (λ (c : ContainerStatus). c.ready) cs)) in
    text (name_of p.metadata)
    ∷ text (fraction (show_text ready) (show_text (length p.spec.containers)))
    ∷ text (map_or p.status "Pending" (λ s. phase_text s.phase))
    ∷ integer (map_or cs (pos 0) restarts)
    ∷ age_of now p.metadata
    ∷ text (unwrap_or (and_then p.status (λ s. s.pod_ip)) "<none>")
    ∷ text (unwrap_or p.spec.node_name "<none>")
    ∷ text "<none>"
    ∷ text "<none>"
    ∷ []

unfoldable pub deployment_row : DateTime → Deployment.Deployment → List Cell
unfolding age_str show_int
deployment_row now d =
    let ready = map_or d.status (pos 0) (λ s. s.ready_replicas) in
    text (name_of d.metadata)
    ∷ text (fraction (show_int ready) (show_int (Deployment.replicas_of d.spec)))
    ∷ integer (map_or d.status (pos 0) (λ s. s.updated_replicas))
    ∷ integer (map_or d.status (pos 0) (λ s. s.available_replicas))
    ∷ age_of now d.metadata
    ∷ []

unfoldable pub statefulset_row : DateTime → StatefulSet.StatefulSet → List Cell
unfolding age_str show_int
statefulset_row now s =
    let ready = map_or s.status (pos 0) (λ t. t.ready_replicas) in
    text (name_of s.metadata)
    ∷ text (fraction (show_int ready) (show_int (StatefulSet.replicas_of s.spec)))
    ∷ age_of now s.metadata
    ∷ []

unfoldable pub namespace_row : DateTime → Namespace.Namespace → List Cell
unfolding age_str
namespace_row now n =
    text (name_of n.metadata)
    ∷ text (map_or n.status "Active" (λ s. Namespace.phase_text s.phase))
    ∷ age_of now n.metadata
    ∷ []

unfoldable pub serviceaccount_row : DateTime → ServiceAccount → List Cell
unfolding age_str
serviceaccount_row now sa =
    text (name_of sa.metadata)
    ∷ integer (pos (map_or sa.secrets 0 (λ s. length s)))
    ∷ age_of now sa.metadata
    ∷ []

unfoldable pub secret_row : DateTime → Secret → List Cell
unfolding age_str
secret_row now s =
    text (name_of s.metadata)
    ∷ text s.secret_type
    ∷ integer (pos (map_or s.contents 0 (λ m. length m) + map_or s.string_data 0 (λ m. length m)))
    ∷ age_of now s.metadata
    ∷ []

unfoldable pub configmap_row : DateTime → ConfigMap → List Cell
unfolding age_str
configmap_row now cm =
    text (name_of cm.metadata)
    ∷ integer (pos (map_or cm.contents 0 (λ m. length m) + map_or cm.binary_data 0 (λ m. length m)))
    ∷ age_of now cm.metadata
    ∷ []

abbrev role_text : RoleRef → Cell
role_text r = text (fraction r.kind r.name)

unfoldable pub clusterrolebinding_row : DateTime → ClusterRoleBinding → List Cell
unfolding age_str
clusterrolebinding_row now b =
    text (name_of b.metadata) ∷ role_text b.role_ref ∷ age_of now b.metadata ∷ []

unfoldable pub rolebinding_row : DateTime → RoleBinding → List Cell
unfolding age_str
rolebinding_row now b =
    text (name_of b.metadata) ∷ role_text b.role_ref ∷ age_of now b.metadata ∷ []
