-- ===== src/Agent/Sync.antt =====
-- src/node/agent.rs: `sync_pods` and `sweep_orphans`. A set of pods is the list of its keys.
use superkube.Base.{
  String, Bool, false, List, [], ◌∷◌, append, if◌then◌else◌, filter, any, not, ◌==◌, map_or,
}
use superkube.Anyhow.{Anyhow, error}
use superkube.Models.Pod.{Pod}
use superkube.Runtime.{remove_container}
use superkube.Agent.{
  AgentState, Outside, Action, Response, get_pods, is_success, ◌>>=◌, ◌>>◌, pure, lift, modify,
  attempt, send, act, erase, same_pod, same_container, PodKey, ContainerKey, Dict,
}
use superkube.Agent.Statuses.{key_of}
use superkube.Agent.Pods.{reconcile_pod}

-- `desired.contains(..)`.
abbrev pub is_desired : List PodKey → PodKey → Bool
is_desired desired key = any (λ d. same_pod d key) desired

unfoldable pub orphans_in : List PodKey → Dict ContainerKey String → Dict ContainerKey String
orphans_in desired = filter (λ (k, id). not (is_desired desired k.0))

-- Forgets a container, and the ports and the address of its pod.
unfoldable pub forgotten : ContainerKey → String → AgentState → AgentState
forgotten key id s = record s {
  pod_containers = erase same_container key s.pod_containers;
  pod_ports = erase same_pod key.0 s.pod_ports;
  pod_ips = erase same_pod key.0 s.pod_ips;
  containers = filter (λ (uid, v). not (v == id)) s.containers;
}

-- `runtime_name`.
abbrev pub runtime_name : ContainerKey → String
runtime_name ((ns, pod), cname) = append pod (append "-" cname)

module _ {H : Type 0} (o : Outside H) where
  -- An engine that fails to remove a container is only logged.
  unfoldable pub sweep_each : Dict ContainerKey String → Action H (Unit {0})
  unfolding forgotten
  sweep_each [] = pure tt
  sweep_each ((key, id) ∷ rest) = do
    removed ← attempt (act o (remove_container o.engines (runtime_name key)))
    modify (forgotten key id)
    sweep_each rest

  unfoldable pub sweep_orphans : List PodKey → Action H (Unit {0})
  unfolding sweep_each orphans_in
  sweep_orphans desired w = sweep_each (orphans_in desired w.state.pod_containers) w

  -- The loop over the pods that the server lists; gives the desired ones.
  unfoldable pub sync_each : String → List PodKey → List Pod → Action H (List PodKey)
  unfolding reconcile_pod
  sync_each name desired [] = pure desired
  sync_each name desired (pod ∷ pods) =
      let mine =
        attempt (reconcile_pod o pod) >>= λ _. sync_each name (key_of pod ∷ desired) pods in
      let other = sync_each name desired pods in
      if map_or pod.spec.node_name false (λ n. n == name) then mine else other

  -- The body of the answer is read only where the request succeeded.
  unfoldable pub listed : Response → Anyhow (List Pod)
  listed r =
      if is_success r
      then r.pods
      else error (append "Failed to fetch pods: " (o.status_text r.status))

  unfoldable pub sync_pods : Action H (Unit {0})
  unfolding send listed sync_each sweep_orphans
  sync_pods w =
      let name = w.state.name in
      (do
        response ← send o (get_pods name)
        pods ← lift (listed response)
        desired ← sync_each name [] pods
        sweep_orphans desired)
        w
