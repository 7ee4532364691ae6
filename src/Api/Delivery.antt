-- ===== src/Api/Delivery.antt =====
-- src/server/routes.rs, for the requests of a node agent: what the server makes of them, and of what
-- `reconcile_pod` reports.
use superkube.Base.{
  ℕ, ◌+◌, ◌≡◌, refl, ap, ◌∙◌, String, false, none, some, List, [], ◌∷◌, ◌++◌, eq_refl, find, any,
  all, All,
}
use superkube.Models.Meta.{Uuid, name_of, namespace_of}
use superkube.Models.Pod.{Pod, PodStatus, Container, phase_text}
use superkube.Store.{Env, World, Action, ◌>>=◌, pure}
use superkube.Store.Rows.{Json, PodRow}
use superkube.Store.Bus.{modified, Object}
use superkube.Store.Frame.{Keeps, bind-Keeps, continue-Keeps}
use superkube.PodRepository.{has_key}
use superkube.PodRepository
use superkube.PodRepository.Keyed.{row_at}
use superkube.PodRepository.Reading.{pods_of, get_pod-Keeps}
use superkube.PodRepository.Status.{with_status, update_status_lem}
use superkube.Runtime.{ContainerInfo}
use superkube.Agent.{
  Request, post_node, put_node, get_pods, post_event, put_pod_status, Agent, Outside,
}
use superkube.Agent.Statuses.{status_pod, has_failed}
use superkube.Agent.Pods.{reconcile_pod}
use superkube.Agent.Settled.{phase_by, IsFound, statuses, address_of, reconcile_pod_settled}
use superkube.Api.{saved}
use superkube.Api.Pods.{list_all_pods, update_pod_status}
use superkube.Api.Cluster.{create_node, update_node, create_event}

module _ (e : Env) (j : Json) where
  -- The handler of a request; its answer goes to the agent.
  unfoldable pub serve : Request → Action (Unit {0})
  unfolding update_pod_status
  serve (post_node node) = create_node e j node >>= λ _. pure tt
  serve (put_node name node) = update_node e j name node >>= λ _. pure tt
  serve (get_pods name) = list_all_pods e j none >>= λ _. pure tt
  serve (post_event namespace event) = create_event e namespace event >>= λ _. pure tt
  serve (put_pod_status namespace name pod) =
      update_pod_status e j namespace name pod >>= λ _. pure tt

  told-Keeps :
      (namespace name : String)
      → Keeps pods_of (
          saved "Pod" Object.pod modified
            (some namespace)
            name
            (PodRepository.get_pod e j namespace name))
  unfolding saved
  told-Keeps namespace name =
      bind-Keeps pods_of (PodRepository.get_pod e j namespace name) _
        (get_pod-Keeps e j namespace name) (λ _ w. refl)

  -- A status that the server is sent is in the row of its pod.
  serve_status :
      (namespace name text : String) (pod : Pod) (status : PodStatus) (row : PodRow) (w : World)
      → pod.status ≡ some status
      → e.faults w.statements ≡ false
      → j.statuses.encode_option status.container_statuses ≡ some text
      → row_at namespace name w ≡ some row
      → row_at namespace name (serve (put_pod_status namespace name pod) w).1
        ≡ some (with_status status text (e.clock w.statements) row)
  unfolding serve
  serve_status namespace name text pod status row w has_status taken encoded found =
      let (after, done, view) = update_status_lem e j namespace name status text w taken encoded in
      let told =
        saved "Pod" Object.pod modified (some namespace) name
          (PodRepository.get_pod e j namespace name) in
      let w1 = record w { statements = w.statements + 1; pods = after } in
      rw (has_status, done)
        (ap (find (has_key namespace name)) (
            continue-Keeps pods_of (told w1).0 (λ _. pure tt) (λ _ w. refl) (told w1).1
            ∙ told-Keeps namespace name w1)
          ∙ view namespace name
          ∙ rw (eq_refl namespace, eq_refl name, found) refl)

module _ (e : Env) (j : Json) {H : Type 0} (o : Outside H) (h : H) (pod : Pod) (uid : Uuid)
    (answers : Container → ContainerInfo) where
  -- Where the engines have every container of a pod and nothing changes by itself, and the
  -- database takes the first statement: once the server has served the one request that
  -- `reconcile_pod` sends, the row of the pod has the phase, the address and the statuses of its
  -- containers.
  pub reconcile_pod_served :
      ((n : ℕ) → o.drift n h ≡ h)
      → (c : Container) (cs : List Container) (a : Agent H) (text : String) (row : PodRow)
        (w : World)
      → pod.metadata.uid ≡ some uid
      → pod.spec.containers ≡ c ∷ cs
      → All (IsFound o h pod uid answers) (c ∷ cs)
      → a.host ≡ h
      → e.faults w.statements ≡ false
      → j.statuses.encode_option (some (statuses o h pod uid answers (c ∷ cs))) ≡ some text
      → row_at (namespace_of pod.metadata) (name_of pod.metadata) w ≡ some row
      → (request : Request) × (row' : PodRow) × ((reconcile_pod o pod a).1.sent
          ≡ a.sent ++ request ∷ [])
        × (row_at (namespace_of pod.metadata) (name_of pod.metadata) (serve e j request w).1
            ≡ some row')
        × (row'.status
            ≡ phase_text (
                phase_by
                  (any (λ c. has_failed (answers c)) (c ∷ cs))
                  (all (λ c. (answers c).running) (c ∷ cs))))
        × (row'.pod_ip ≡ some (address_of o h pod uid answers (c ∷ cs) a))
        × (row'.container_statuses ≡ text)
  unfolding status_pod
  reconcile_pod_served calm c cs a text row w has_uid has_containers found at_host taken encoded
        stored =
      let (host, (start, sent)) =
        reconcile_pod_settled o h pod uid answers calm c cs a has_uid has_containers found
          at_host in
      (
        _,
        _,
        sent,
        serve_status e j (namespace_of pod.metadata) (name_of pod.metadata) text _ _ row w refl
            taken encoded stored,
        refl,
        refl,
        refl,
      )
