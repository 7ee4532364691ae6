-- ===== src/Printers/Selectors.antt =====
-- src/server/printers.rs: the rows of services, daemon sets and roles. A selector is printed with
-- its entries in the order of texts. `to_rfc3339` of chrono is a parameter.
use superkube.Base.{
  String, Bool, Option, none, some, List, [], ◌∷◌, Map, if◌then◌else◌, map, map_or, unwrap_or, ◌==◌,
  pos, show_int, append,
}
use Prim.Native.String.{compare}
use package.text.Mathlib.Text.{is_le}
use superkube.Models.Meta.{DateTime, name_of}
use superkube.Models.Pod.{Protocol, tcp, udp}
use superkube.Models.Service.{Service, ServicePort, ServiceType}
use superkube.Models.DaemonSet.{DaemonSet}
use superkube.Models.Auth.{ClusterRole, Role}
use superkube.ServiceRepository.{type_text}
use superkube.Printers.{Cell, text, integer, age_str}

unfoldable pub not_after : String → String → Bool
not_after s t = is_le (compare s t)

unfoldable pub insert_sorted : String → List String → List String
unfolding not_after
insert_sorted s [] = s ∷ []
insert_sorted s (t ∷ ts) =
    let later = t ∷ insert_sorted s ts in if not_after s t then s ∷ t ∷ ts else later

unfoldable pub sort : List String → List String
unfolding insert_sorted
sort [] = []
sort (s ∷ ss) = insert_sorted s (sort ss)

-- `join(",")`.
unfoldable pub join : List String → String
join [] = ""
join (s ∷ []) = s
join (s ∷ t ∷ ts) = append s (append "," (join (t ∷ ts)))

unfoldable pub or_none : String → String
or_none s = if s == "" then "<none>" else s

unfoldable pub selector_text : Option (Map String) → String
unfolding sort join or_none
selector_text none = "<none>"
selector_text (some m) = or_none (join (sort (map (λ (k, v). append k (append "=" v)) m)))

protocol_text : Protocol → String
protocol_text udp = "UDP"
protocol_text tcp = "TCP"

unfoldable pub port_text : ServicePort → String
unfolding protocol_text show_int
port_text p = append (show_int p.port) (
    append (map_or p.node_port "" (λ np. append ":" (show_int np)))
      (append "/" (protocol_text p.protocol)))

external_ip_text : ServiceType → String
external_ip_text ServiceType.load_balancer = "<pending>"
external_ip_text _ = "<none>"

unfoldable pub service_row : DateTime → Service → List Cell
unfolding external_ip_text or_none join port_text selector_text age_str
service_row now s =
    text (name_of s.metadata)
    ∷ text (type_text s.spec.service_type)
    ∷ text (unwrap_or s.spec.cluster_ip "<none>")
    ∷ text (external_ip_text s.spec.service_type)
    ∷ text (or_none (join (map port_text s.spec.ports)))
    ∷ text (age_str now s.metadata.creation_timestamp)
    ∷ text (selector_text s.spec.selector)
    ∷ []

unfoldable pub daemonset_row : DateTime → DaemonSet → List Cell
unfolding selector_text age_str
daemonset_row now d =
    text (name_of d.metadata)
    ∷ integer (map_or d.status (pos 0) (λ s. s.desired_number_scheduled))
    ∷ integer (map_or d.status (pos 0) (λ s. s.current_number_scheduled))
    ∷ integer (map_or d.status (pos 0) (λ s. s.number_ready))
    ∷ integer (map_or d.status (pos 0) (λ s. s.updated_number_scheduled))
    ∷ integer (map_or d.status (pos 0) (λ s. s.number_available))
    ∷ text (selector_text d.spec.template.spec.node_selector)
    ∷ text (age_str now d.metadata.creation_timestamp)
    ∷ []

module _ (to_rfc3339 : DateTime → String) where
  unfoldable pub clusterrole_row : ClusterRole → List Cell
  clusterrole_row cr =
      text (name_of cr.metadata)
      ∷ text (map_or cr.metadata.creation_timestamp "<unknown>" to_rfc3339)
      ∷ []

  unfoldable pub role_row : Role → List Cell
  role_row r =
      text (name_of r.metadata)
      ∷ text (map_or r.metadata.creation_timestamp "<unknown>" to_rfc3339)
      ∷ []
