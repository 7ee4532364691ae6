-- ===== src/Agent/Ports.antt =====
-- src/node/agent.rs: the ports that the agent remembers of a pod.
use superkube.Base.{ℕ, zero, suc, ◌+◌, List, [], ◌∷◌, length, unwrap_or}
use superkube.Models.Meta.{Uuid}
use superkube.Models.Pod.{Pod, Container}
use superkube.Runtime.{ContainerInfo, PortMapping}
use superkube.Agent.{Agent, Outside, PodKey, Dict, lookup, same_pod}
use superkube.Agent.Pods.{reconcile_pod}

-- The number of ports that the agent remembers of a pod.
abbrev pub remembered : PodKey → Dict PodKey (List PortMapping) → ℕ
remembered key ports = length (unwrap_or (lookup same_pod key ports) [])

module _ {H : Type 0} (o : Outside H) (h : H) (pod : Pod) (uid : Uuid)
    (answers : Container → ContainerInfo) where
  -- The ports that the containers publish.
  pub published : List Container → ℕ
  published [] = 0
  published (c ∷ cs) = length (answers c).port_mappings + published cs

  -- Some passes of `reconcile_pod` over the same pod.
  pub passes : ℕ → Agent H → Agent H
  passes zero w = w
  passes (suc n) w = passes n (reconcile_pod o pod w).1
