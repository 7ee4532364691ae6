-- ===== src/Agent.antt =====
-- src/node/agent.rs: the node agent. `AgentState` is its state in memory, an `Agent` has besides it
-- the host that the engines act on and the requests that were sent to the API server. `Outside` is
-- what the agent does not decide: the engines, how containers change on their own between two
-- looks of the agent, the server's answers, the clock and the random UUIDs.
pub mod Statuses
pub mod Pods
pub mod Sync
pub mod Node
pub mod Sweeping
pub mod Publishing
pub mod Settled
pub mod Ports
pub mod Reports
pub mod Samples
pub mod Capacity
pub mod Starting
mod Tests
use superkube.Base.{
  ℕ, ◌+◌, ◌*◌, ◌^◌, ◌%◌, ◌/◌, String, Bool, true, false, ◌&&◌, Option, none, some, List, [], ◌∷◌,
  ◌++◌, filter, not, length, Map, ◌==◌, eqb, if◌then◌else◌, append, split_at, all, is_some, codes,
  show_text,
}
use superkube.Anyhow.{Anyhow, done, error}
use superkube.Models.Meta.{Uuid, DateTime}
use superkube.Models.Pod.{Pod}
use superkube.Models.Node as NodeModel
use superkube.Models.Event.{Event}
use superkube.Runtime.{Engines, PortMapping}
use superkube.Scheduler.Quantity.{number}

-- A `HashMap` with another key than a text: a list with one entry to a key.
abbrev pub Dict : Type 0 → Type 0 → Type 0
Dict K V = List (K × V)

module _ {K V : Type 0} (same : K → K → Bool) where
  abbrev pub lookup : K → Dict K V → Option V
  lookup k [] = none
  lookup k ((j, v) ∷ d) = if same j k then some v else lookup k d

  abbrev pub erase : K → Dict K V → Dict K V
  erase k [] = []
  erase k ((j, v) ∷ d) = let rest = erase k d in if same j k then rest else (j, v) ∷ rest

  abbrev pub insert : K → V → Dict K V → Dict K V
  insert k v d = (k, v) ∷ erase k d

-- A pod by its namespace and its name, and a container of it.
abbrev pub PodKey : Type 0
PodKey = String × String

abbrev pub ContainerKey : Type 0
ContainerKey = PodKey × String

abbrev pub same_pod : PodKey → PodKey → Bool
same_pod (ns, name) (ns', name') = (ns == ns') && (name == name')

abbrev pub same_container : ContainerKey → ContainerKey → Bool
same_container (pod, name) (pod', name') = same_pod pod pod' && (name == name')

-- The name is of the source's tuple `(namespace, pod_name, container_name)`.
pub record AgentState : Type 0 where
  pub name : String
  pub labels : Map String
  pub server_url : String
  pub pod_cidr_prefix : String
  pub containers : Dict Uuid String
  pub pod_containers : Dict ContainerKey String
  pub pod_ports : Dict PodKey (List PortMapping)
  pub pod_ips : Dict PodKey String

-- A request by its method and its path.
pub data Request : Type 0 where
  post_node : NodeModel.Node → Request
  put_node : String → NodeModel.Node → Request
  get_pods : String → Request
  post_event : String → Event → Request
  put_pod_status : String → String → Pod → Request

-- `text` is none where the body cannot be read, `pods` where it is no list of pods.
pub record Response : Type 0 where
  pub status : ℕ
  pub text : Option String
  pub pods : Anyhow (List Pod)

-- `StatusCode::is_success`.
abbrev pub is_success : Response → Bool
is_success r = eqb (r.status / 100) 2

pub record Agent (H : Type 0) : Type 0 where
  pub state : AgentState
  pub host : H
  pub looks : ℕ
  pub drawn : ℕ
  pub sent : List Request

pub record Outside (H : Type 0) : Type 0 where
  pub engines : Engines H
  pub debug : String → String
  pub drift : ℕ → H → H
  pub answer : List Request → Request → Anyhow Response
  pub clock : ℕ → DateTime
  pub random : ℕ → Uuid
  pub hex : Uuid → String
  -- `Display` of a `StatusCode`.
  pub status_text : ℕ → String

abbrev pub Action : Type 0 → Type 0 → Type 0
Action H A = Agent H → Anyhow A × Agent H

module _ {H : Type 0} where
  abbrev pub continue : {A B : Type 0} → Anyhow A → (A → Action H B) → Action H B
  continue (done a) f w = f a w
  continue (error message) f w = (error message, w)

  infixl 5 ◌>>=◌ ◌>>◌
  abbrev pub ◌>>=◌ : {A B : Type 0} → Action H A → (A → Action H B) → Action H B
  ◌>>=◌ m f w = let (r, w') = m w in continue r f w'

  abbrev pub ◌>>◌ : {B : Type 0} → Action H (Unit {0}) → Action H B → Action H B
  m >> k = m >>= λ _. k

  abbrev pub pure : {A : Type 0} → A → Action H A
  pure a w = (done a, w)

  abbrev pub lift : {A : Type 0} → Anyhow A → Action H A
  lift r w = (r, w)

  -- The state in memory, changed.
  abbrev pub modify : (AgentState → AgentState) → Action H (Unit {0})
  modify f w = (done tt, record w { state = f w.state })

  -- A result that is only logged.
  abbrev pub attempt : {A : Type 0} → Action H A → Action H (Anyhow A)
  attempt m w = let (r, w') = m w in (done r, w')

  module _ (o : Outside H) where
    -- A request and its answer, which may be an error of the connection.
    unfoldable pub send : Request → Action H Response
    send r w = (o.answer w.sent r, record w { sent = w.sent ++ r ∷ [] })

    -- The host as it is at this look, in place of the one that was left.
    abbrev pub looked : Agent H → Agent H
    looked w = record w { host = o.drift w.looks w.host; looks = w.looks + 1 }

    abbrev pub watch : {A : Type 0} → (H → Anyhow A) → Action H A
    watch f w = (f (looked w).host, looked w)

    abbrev pub act : {A : Type 0} → (H → Anyhow A × H) → Action H A
    act f w = let (r, h) = f (looked w).host in (r, record (looked w) { host = h })

    abbrev pub now : Agent H → DateTime
    now w = o.clock (length w.sent)

    unfoldable pub new_v4 : Action H Uuid
    new_v4 w = (done (o.random w.drawn), record w { drawn = w.drawn + 1 })

-- The largest binary unit that gives a whole number, of those up to `Ti`.
unfoldable pub format_quantity : ℕ → String
unfolding show_text
format_quantity bytes =
    if eqb (bytes % 1024 ^ 4) 0
    then append (show_text (bytes / 1024 ^ 4)) "Ti"
    else if eqb (bytes % 1024 ^ 3) 0
    then append (show_text (bytes / 1024 ^ 3)) "Gi"
    else if eqb (bytes % 1024 ^ 2) 0
    then append (show_text (bytes / 1024 ^ 2)) "Mi"
    else if eqb (bytes % 1024) 0
    then append (show_text (bytes / 1024)) "Ki"
    else show_text bytes
