-- ===== src/Store.antt =====
-- The server's state as its operations see it, and the errors of src/error.rs.
-- `Env` is what comes from outside: random UUIDs, the clock, and the statements that the database
-- refuses, each as a function of a counter in the state. A `World` is what the operations change.
pub mod Rows
pub mod Bus
pub mod Table
pub mod Frame
pub mod Repository
use superkube.Base.{
  ℕ, zero, ◌+◌, String, Bool, true, false, Option, none, some, List, [], ◌∷◌, ◌++◌, if◌then◌else◌,
}
use superkube.Models.Meta.{Uuid, DateTime}
use Rows.{
  PodRow, NodeRow, EventRow, DeploymentRow, StatefulSetRow, DaemonSetRow, ServiceRow, EndpointsRow,
  NamespaceRow, ObjectRow,
}
use Bus.{ChangeEvent}

pub data Error : Type 0 where
  not_found already_exists bad_request internal : String → Error
  database serialization http_client : Error

pub data Result {ℓ} (A : Type ℓ) : Type ℓ where
  ok : A → Result A
  err : Error → Result A

-- `Result::ok` and `Result::is_ok`.
abbrev pub to_option {ℓ} : {A : Type ℓ} → Result A → Option A
to_option (ok a) = some a
to_option (err e) = none

abbrev pub is_ok {ℓ} : {A : Type ℓ} → Result A → Bool
is_ok (ok a) = true
is_ok (err e) = false

-- The HTTP status and the reason of `IntoResponse for Error`.
abbrev pub into_response : Error → ℕ × String
into_response (not_found msg) = (404, "NotFound")
into_response (already_exists msg) = (409, "AlreadyExists")
into_response (bad_request msg) = (400, "BadRequest")
into_response database = (500, "InternalError")
into_response serialization = (400, "BadRequest")
into_response http_client = (502, "BadGateway")
into_response (internal msg) = (500, "InternalError")

pub record Env : Type 0 where
  -- `Uuid::new_v4`, by the number of UUIDs drawn before.
  pub random : ℕ → Uuid
  -- The first eight characters of a UUID's text.
  pub short : Uuid → String
  -- The low 32 bits of a UUID in hexadecimal.
  pub hex : Uuid → String
  -- `Utc::now`, by the number of statements before.
  pub clock : ℕ → DateTime
  -- Whether the database refuses a statement, by the number of statements before.
  pub faults : ℕ → Bool

pub record World : Type 0 where
  pub drawn : ℕ
  pub statements : ℕ
  pub pods : List PodRow
  pub nodes : List NodeRow
  pub deployments : List DeploymentRow
  pub stateful_sets : List StatefulSetRow
  pub daemon_sets : List DaemonSetRow
  pub services : List ServiceRow
  pub endpoints : List EndpointsRow
  pub namespaces : List NamespaceRow
  pub service_accounts : List ObjectRow
  pub secrets : List ObjectRow
  pub config_maps : List ObjectRow
  pub cluster_roles : List ObjectRow
  pub cluster_role_bindings : List ObjectRow
  pub roles : List ObjectRow
  pub role_bindings : List ObjectRow
  pub published : List ChangeEvent
  pub events : List EventRow

-- The state with empty tables.
abbrev pub empty_world : World
empty_world = record {
  drawn = 0;
  statements = 0;
  pods = [];
  nodes = [];
  deployments = [];
  stateful_sets = [];
  daemon_sets = [];
  services = [];
  endpoints = [];
  namespaces = [];
  service_accounts = [];
  secrets = [];
  config_maps = [];
  cluster_roles = [];
  cluster_role_bindings = [];
  roles = [];
  role_bindings = [];
  published = [];
  events = [];
}

-- An operation gives a result and the state after it, also where it fails.
abbrev pub Action : Type 0 → Type 0
Action A = World → Result A × World

abbrev pub continue : {A B : Type 0} → Result A → (A → Action B) → Action B
continue (ok a) f w = f a w
continue (err e) f w = (err e, w)

infixl 5 ◌>>=◌ ◌>>◌
abbrev pub ◌>>=◌ : {A B : Type 0} → Action A → (A → Action B) → Action B
◌>>=◌ m f w = let (r, w') = m w in continue r f w'

abbrev pub ◌>>◌ : {B : Type 0} → Action (Unit {0}) → Action B → Action B
m >> k = m >>= λ _. k

abbrev pub pure : {A : Type 0} → A → Action A
pure a w = (ok a, w)

abbrev pub fail : {A : Type 0} → Error → Action A
fail e w = (err e, w)

-- `let _ = m.await`: the result is dropped, what was done stays.
abbrev pub ignore : {A : Type 0} → Action A → Action (Unit {0})
ignore m w = (ok tt, (m w).1)

module _ (e : Env) where
  -- One SQL statement: it may be refused, and then changes nothing.
  unfoldable pub query : Action (Unit {0})
  query w =
      let w' = record w { statements = w.statements + 1 } in
      if e.faults w.statements then (err database, w') else (ok tt, w')

  abbrev pub now : World → DateTime
  now w = e.clock w.statements

  unfoldable pub new_v4 : Action Uuid
  new_v4 w = (ok (e.random w.drawn), record w { drawn = w.drawn + 1 })

  -- `unwrap_or_else(Uuid::new_v4)`.
  unfoldable pub uid_or_new : Option Uuid → Action Uuid
  unfolding new_v4
  uid_or_new none = new_v4
  uid_or_new (some uid) = pure uid
