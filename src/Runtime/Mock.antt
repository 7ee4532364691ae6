-- ===== src/Runtime/Mock.antt =====
-- src/node/runtime/mock.rs: the engine that keeps its containers in memory. `random` gives the
-- texts of the UUIDs, by the number drawn before, `clock` the time, and `format_time` is the
-- format of chrono.
use superkube.Base.{
  ℕ, ◌+◌, ◌-◌, ◌*◌, ◌^◌, String, Bool, true, Option, none, some, List, [], ◌∷◌, ℤ, pos, Map, get,
  put, append, if◌then◌else◌, filter, length, drop, leb, ltb, and_then,
}
use Prim.Native.String.{len, slice}
use text.Mathlib.Text.{is_char_boundary}
use superkube.Anyhow.{Anyhow, done, error}
use superkube.Models.Meta.{DateTime}
use superkube.Models.Pod.{Container}
use superkube.Controllers.Owned.{as_usize}
use superkube.Runtime.{Runtime, ContainerInfo, LogOptions}

pub record LogEntry : Type 0 where
  pub timestamp : DateTime
  pub message : String

pub record ContainerState : Type 0 where
  pub id : String
  pub running : Bool
  pub started_at : DateTime
  pub logs : List LogEntry

pub record Mock : Type 0 where
  pub containers : Map ContainerState
  pub by_name : Map String
  pub drawn : ℕ

-- `ContainerdRuntime::new`; the socket is only looked at for a warning.
abbrev pub new : Mock
new = record { containers = []; by_name = []; drawn = 0 }

abbrev pub entry : DateTime → ℕ → String → LogEntry
entry now milliseconds message = record {
  timestamp = now + milliseconds * 10 ^ 6;
  message = message;
}

unfoldable pub info_of : ContainerState → ContainerInfo
info_of c = record {
  id = c.id;
  running = c.running;
  restart_count = pos 0;
  started_at = some c.started_at;
  exit_code = none;
  ip = none;
  port_mappings = [];
}

unfoldable pub find_container : String → Mock → Anyhow (Option ContainerInfo)
unfolding info_of
find_container name m =
    done
      (and_then (get name m.by_name) (λ id. and_then (get id m.containers) (λ c. some (info_of c))))

-- `logs.into_iter().skip(len - tail)`, where there are more than `tail`.
unfoldable pub tail_of : Option ℤ → List LogEntry → List LogEntry
unfolding as_usize
tail_of none logs = logs
tail_of (some tail) logs =
    if ltb (as_usize tail) (length logs) then drop (length logs - as_usize tail) logs else logs

unfoldable pub since_of : Option DateTime → List LogEntry → List LogEntry
since_of none logs = logs
since_of (some since) logs = filter (λ (l : LogEntry). leb since l.timestamp) logs

-- `truncate` panics inside a character.
unfoldable pub limited : Option ℤ → String → Option String
unfolding as_usize
limited none output = some output
limited (some limit) output =
    if ltb (as_usize limit) (len output)
    then if is_char_boundary output (as_usize limit)
      then some (slice output 0 (as_usize limit))
      else none
    else some output

module _ (random : ℕ → String) (clock : ℕ → DateTime) where
  unfoldable pub create_and_start_container : String → Container → Mock → Anyhow String × Mock
  create_and_start_container name container m =
      let now = clock m.drawn in
      let id = append "containerd://" (random m.drawn) in
      let logs =
        entry now 0
          (append "Starting container " (append name (append " with image " container.image)))
        ∷ entry now 100 "Initializing application..."
        ∷ entry now 200 "Application started successfully"
        ∷ entry now 300 "Listening for connections..."
        ∷ [] in
      (
        done id,
        record m {
          containers =
              put id (record { id = id; running = true; started_at = now; logs = logs })
                m.containers;
          by_name = put name id m.by_name;
          drawn = m.drawn + 1;
        },
      )

-- The default of the trait: nothing to clean up.
abbrev pub remove_container : String → Mock → Anyhow (Unit {0}) × Mock
remove_container name m = (done tt, m)

module _ (format_time : DateTime → String) where
  unfoldable pub render : Bool → List LogEntry → String
  render timestamps [] = ""
  render timestamps (l ∷ ls) =
      append
        (if timestamps
          then append (format_time l.timestamp) (append " " (append l.message "\n"))
          else append l.message "\n")
        (render timestamps ls)

  unfoldable pub get_logs : String → LogOptions → Mock → Option (Anyhow String)
  unfolding tail_of since_of limited render
  get_logs id options m = elim (get id m.containers) [
    | none ↦ some (error (append "Container " (append id " not found")))
    | some c ↦
        let logs = tail_of options.tail_lines (since_of options.since_time c.logs) in
        and_then (limited options.limit_bytes (render options.timestamps logs))
          (λ output. some (done output))
  ]

unfoldable pub mock : (ℕ → String) → (ℕ → DateTime) → (DateTime → String) → Runtime Mock
unfolding create_and_start_container find_container get_logs
mock random clock format_time = record {
  name = "mock";
  create_and_start_container = create_and_start_container random clock;
  find_container = find_container;
  remove_container = remove_container;
  get_logs = get_logs format_time;
}
