-- ===== src/Runtime.antt =====
-- src/node/runtime/mod.rs: the engines of a node. An engine acts on a host `H` that all engines
-- share: an operation that changes something takes the host and gives the host after it, and one
-- that only looks takes the host. `debug` is `{:?}` of a text.
pub mod Mock
pub mod Routing
pub mod Memory
mod Tests
use superkube.Base.{
  ℕ, String, Bool, Option, none, some, List, [], ◌∷◌, ℤ, append, if◌then◌else◌, map, map_or,
  unwrap_or, ◌==◌, split_once, join_with,
}
use superkube.Anyhow.{Anyhow, done, error, ok_or_else}
use superkube.Models.Meta.{DateTime}
use superkube.Models.Pod.{Container}

pub record LogOptions : Type 0 where
  pub tail_lines : Option ℤ
  pub timestamps : Bool
  pub since_time : Option DateTime
  pub limit_bytes : Option ℤ

pub record PortMapping : Type 0 where
  pub container_port : ℤ
  pub host_port : ℕ
  pub protocol : String

pub record ContainerInfo : Type 0 where
  pub id : String
  pub running : Bool
  pub restart_count : ℤ
  pub started_at : Option DateTime
  pub exit_code : Option ℤ
  pub ip : Option String
  pub port_mappings : List PortMapping

-- The trait `Runtime`, without the streams of `stream_logs` and `exec`.
pub record Runtime (H : Type 0) : Type 0 where
  pub name : String
  pub create_and_start_container : String → Container → H → Anyhow String × H
  pub find_container : String → H → Anyhow (Option ContainerInfo)
  pub remove_container : String → H → Anyhow (Unit {0}) × H
  -- None where the engine panics.
  pub get_logs : String → LogOptions → H → Option (Anyhow String)

pub record Engines (H : Type 0) : Type 0 where
  pub default : String
  pub engines : List (String × Runtime H)

-- The name of the engine that minted an id.
unfoldable pub engine_of_id : String → String
engine_of_id id =
    let scheme = map_or (split_once "://" id) "" (λ p. p.0) in
    if scheme == "containerd" then "mock" else scheme

-- `first_err.get_or_insert(e)`.
abbrev pub first_error : Option String → Anyhow (Unit {0}) → Option String
first_error (some first) r = some first
first_error none (done a) = none
first_error none (error message) = some message

abbrev pub all_removed : Option String → Anyhow (Unit {0})
all_removed (some message) = error message
all_removed none = done tt

module _ {H : Type 0} where
  abbrev pub names : Engines H → List String
  names es = map (λ e. e.0) es.engines

  -- The first engine of a name.
  abbrev pub named : String → List (String × Runtime H) → Option (Runtime H)
  named want [] = none
  named want ((n, e) ∷ es) = if n == want then some e else named want es

  -- The engines in turn; only the failure of the first counts.
  unfoldable pub find_among : String → List (String × Runtime H) → H → Anyhow (Option ContainerInfo)
  find_among name [] h = done none
  find_among name ((n, e) ∷ es) h = elim (e.find_container name h) [
    | done (some info) ↦ done (some info)
    | done none ↦ find_among name es h
    | error message ↦ find_among name es h
  ]

  unfoldable pub find_container : Engines H → String → H → Anyhow (Option ContainerInfo)
  unfolding find_among
  find_container es name h = elim es.engines [
    | [] ↦ done none
    | (n, e) ∷ peers ↦ elim (e.find_container name h) [
      | done (some info) ↦ done (some info)
      | done none ↦ find_among name peers h
      | error message ↦ error message
    ]
  ]

  -- Every engine is asked, whatever the others say.
  unfoldable pub remove_from :
      List (String × Runtime H) → String → Option String → H → Option String × H
  remove_from [] name first h = (first, h)
  remove_from ((n, e) ∷ es) name first h =
      let (r, h') = e.remove_container name h in remove_from es name (first_error first r) h'

  unfoldable pub remove_container : Engines H → String → H → Anyhow (Unit {0}) × H
  unfolding remove_from
  remove_container es name h =
      let (first, h') = remove_from es.engines name none h in (all_removed first, h')

module _ (debug : String → String) {H : Type 0} where
  unfoldable pub for_class : Engines H → Option String → Anyhow (Runtime H)
  for_class es class =
      let want = unwrap_or class es.default in
      ok_or_else (named want es.engines) (
        append "no engine named " (
          append (debug want)
            (append " on this node (have: " (append (join_with ", " (names es)) ")"))))

  unfoldable pub by_id : Engines H → String → Anyhow (Runtime H)
  unfolding engine_of_id
  by_id es id = ok_or_else (named (engine_of_id id) es.engines) (
      append "container " (
        append id (
          append ": no engine for scheme "
            (append (debug (map_or (split_once "://" id) "" (λ p. p.0))) " on this node"))))

  unfoldable pub start : Anyhow (Runtime H) → String → Container → H → Anyhow String × H
  start (done e) name container h = e.create_and_start_container name container h
  start (error message) name container h = (error message, h)

  -- `create_and_start_container` of `Engines`.
  unfoldable pub create_and_start_container : Engines H → String → Container → H → Anyhow String × H
  unfolding for_class start
  create_and_start_container es = start (for_class es none)

  unfoldable pub get_logs : Engines H → String → LogOptions → H → Option (Anyhow String)
  unfolding by_id
  get_logs es id options h = elim (by_id es id) [
    | done e ↦ e.get_logs id options h
    | error message ↦ some (error message)
  ]
