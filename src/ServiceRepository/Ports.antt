-- ===== src/ServiceRepository/Ports.antt =====
-- The node ports that `ServiceRepository::create` assigns.
use superkube.Base.{ℕ, ◌+◌, ◌≤◌, ◌%◌, ◌≡◌, refl, none, some, List, ◌∷◌, pos, arith}
use superkube.Models.Meta.{Uuid}
use superkube.Models.Service.{ServicePort, ServiceType}
use superkube.ServiceRepository.{assigned_port, first_node_port, or_else, with_node_port}

-- The first port of a NodePort service, where it asks for none, is read back with a node port of
-- Kubernetes' range.
pub with_node_port-assigned_port :
    (p : ServicePort) (ports : List ServicePort) (uid : Uuid)
    → p.node_port ≡ none
    → (n : ℕ) × (with_node_port (assigned_port ServiceType.node_port (p ∷ ports) uid) (p ∷ ports)
        ≡ record p { node_port = some (pos n) } ∷ ports)
      × (30000 ≤ n)
      × (n ≤ 32767)
unfolding assigned_port or_else first_node_port with_node_port
with_node_port-assigned_port p ports uid h =
    (30000 + uid % 2768, rw h refl, omega arith, omega arith)
