-- ===== src/ServiceRepository/Tests.antt =====
-- A NodePort service with one port.
use superkube.Base.{ℕ, ◌≤◌, ◌≡◌, refl, none, some, [], ◌∷◌, pos}
use superkube.Models.Pod.{tcp}
use superkube.Models.Service.{ServicePort, ServiceType}
use superkube.ServiceRepository.{assigned_port, with_node_port}
use superkube.ServiceRepository.Ports.{with_node_port-assigned_port}

abbrev http : ServicePort
http = record { name = none; protocol = tcp; port = pos 80; target_port = none; node_port = none }

http_gets_node_port :
    (n : ℕ) × (with_node_port (assigned_port ServiceType.node_port (http ∷ []) 5000) (http ∷ [])
      ≡ record http { node_port = some (pos n) } ∷ [])
    × (30000 ≤ n)
    × (n ≤ 32767)
http_gets_node_port = with_node_port-assigned_port http [] 5000 refl
