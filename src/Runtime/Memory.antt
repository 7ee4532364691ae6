-- ===== src/Runtime/Memory.antt =====
-- src/node/runtime/mock.rs: what the engine that keeps its containers in memory promises.
use text.Mathlib.TextLemmas.{append_assoc}
use superkube.Base.{
  List, ◌∷◌, false, subst, sym, ◌∙◌, ℕ, String, true, none, some, [], pos, ◌≡◌, refl, append,
  eq_refl, arith,
}
use superkube.Anyhow.{done}
use superkube.Models.Meta.{DateTime}
use superkube.Models.Pod.{Container}
use superkube.Runtime.{Runtime, Engines, ContainerInfo, LogOptions, engine_of_id}
use superkube.Runtime as Node
use superkube.Runtime.Routing.{get_logs_routed, find_container-default}
use superkube.Runtime.Mock.{Mock, find_container, create_and_start_container, get_logs, mock}

abbrev pub all_logs : LogOptions
all_logs = record { tail_lines = none; timestamps = false; since_time = none; limit_bytes = none }

-- What a container has logged when it was started.
abbrev pub first_lines : String → Container → List String
first_lines name container =
    append "Starting container " (append name (append " with image " container.image))
    ∷ "Initializing application..."
    ∷ "Application started successfully"
    ∷ "Listening for connections..."
    ∷ []

abbrev pub lines : List String → String
lines [] = ""
lines (l ∷ ls) = append (append l "\n") (lines ls)

module _ (random : ℕ → String) (clock : ℕ → DateTime) where
  -- The id of the next container.
  abbrev pub next_id : Mock → String
  next_id m = append "containerd://" (random m.drawn)

  -- A container that runs and has no more to tell than when it was started.
  abbrev pub started : Mock → ContainerInfo
  started m = record {
    id = next_id m;
    running = true;
    restart_count = pos 0;
    started_at = some (clock m.drawn);
    exit_code = none;
    ip = none;
    port_mappings = [];
  }

  -- The name is found then, running, with the new id.
  pub create_and_start_container_lem :
      (name : String) (container : Container) (m : Mock)
      → find_container name (create_and_start_container random clock name container m).1
        ≡ done (some (started m))
  unfolding create_and_start_container find_container
  create_and_start_container_lem name container m =
      ground (arith, eq_refl name, eq_refl (next_id m))

  module _ (debug : String → String) (format_time : DateTime → String)
      (peers : List (String × Runtime Mock)) where
    -- A node whose default engine is the mock.
    abbrev pub node : Engines Mock
    node = record { default = "mock"; engines = ("mock", mock random clock format_time) ∷ peers }

    next_id-scheme : (m : Mock) → append "containerd" (append "://" (random m.drawn)) ≡ next_id m
    next_id-scheme m = sym (append_assoc "containerd" "://" (random m.drawn))

    logged :
        (name : String) (container : Container) (m : Mock)
        → get_logs format_time
            (next_id m)
            all_logs
            (create_and_start_container random clock name container m).1
          ≡ some (done (lines (first_lines name container)))
    unfolding create_and_start_container get_logs
    logged name container m = ground (arith, eq_refl (next_id m))

    -- Where the mock is the default engine, creating a container gives its id; then the lookup of
    -- its name gives the container, running, with that id, and the logs of that id are the four
    -- lines of its start, whatever other engines the node has.
    pub create-find-get_logs :
        (name : String) (container : Container) (m : Mock)
        → let (r, m') = Node.create_and_start_container debug node name container m in
          (r ≡ done (next_id m))
          × (Node.find_container node name m' ≡ done (some (started m)))
          × (Node.get_logs debug node (next_id m) all_logs m'
              ≡ some (done (lines (first_lines name container))))
    unfolding Node.create_and_start_container mock
    create-find-get_logs name container m =
        let m' = (create_and_start_container random clock name container m).1 in
        (
          refl,
          find_container-default name m' "mock" "mock" (mock random clock format_time) peers
              (started m) (create_and_start_container_lem name container m),
          subst
                (λ id.
                  Node.get_logs debug node id all_logs m' ≡ get_logs format_time id all_logs m')
                (next_id-scheme m)
                (get_logs_routed debug node "containerd" (random m.drawn)
                  (mock random clock format_time) all_logs m'
                  (refl, (refl, (refl, (refl, (refl, (refl, (refl, (refl, (refl, (refl, tt))))))))))
                  refl)
              ∙ logged name container m,
        )
