-- ===== src/Runtime/Tests.antt =====
-- Two engines: one that has one container, and the mock.
use superkube.Base.{ℕ, ◌≡◌, refl, String, true, none, some, [], ◌∷◌, if◌then◌else◌, pos, map, eqb}
use superkube.Anyhow.{done, error}
use superkube.Models.Meta.{DateTime}
use superkube.Samples.{container}
use superkube.Runtime.{Runtime, Engines, LogOptions, find_container, get_logs}
use superkube.Runtime.Mock.{Mock, new, mock, create_and_start_container}
use superkube.Runtime as Node
use superkube.Runtime.Routing.{find_container_lem, first_some, answer, unless_failed}
use superkube.Runtime.Memory.{
  next_id, started, node, all_logs, lines, first_lines, create-find-get_logs,
}

abbrev numbers : ℕ → String
numbers n = if eqb n 0 then "0a1b" else "2c3d"

abbrev seconds : ℕ → DateTime
seconds n = 60

abbrev in_memory : Runtime Mock
in_memory = mock numbers seconds (λ t. "1m")

-- An engine that fails.
abbrev offline : Runtime Mock
offline = record in_memory { name = "docker"; find_container = λ name h. error "no daemon" }

abbrev both : Engines Mock
both = record { default = "mock"; engines = ("mock", in_memory) ∷ ("docker", offline) ∷ [] }

abbrev one : Mock
one = (create_and_start_container numbers seconds "web-app" (container "app") new).1

abbrev last_line : LogOptions
last_line = record {
  tail_lines = some (pos 1);
  timestamps = true;
  since_time = none;
  limit_bytes = none;
}

-- The log is cut to its last line.
one_line :
    get_logs (λ s. s) both "containerd://0a1b" last_line one
    ≡ some (done "1m Listening for connections...\n")
unfolding get_logs mock
one_line = refl

find_container_example :
    find_container both "web-app" one
    ≡ unless_failed
        (in_memory.find_container "web-app" one)
        (first_some (map (answer "web-app" one) both.engines))
find_container_example =
    find_container_lem "web-app" one "mock" "mock" in_memory (("docker", offline) ∷ [])

-- The default engine has the container; an engine that fails is passed over.
found_one : find_container both "web-app" one ≡ done (some (started numbers seconds new))
unfolding find_container create_and_start_container mock
found_one = refl

create-find-get_logs_example :
    let es = node numbers seconds (λ s. s) (λ t. "1m") (("docker", offline) ∷ []) in
    let (r, m') = Node.create_and_start_container (λ s. s) es "cache-app" (container "app") one in
    (r ≡ done (next_id numbers seconds one))
    × (find_container es "cache-app" m' ≡ done (some (started numbers seconds one)))
    × (get_logs (λ s. s) es (next_id numbers seconds one) all_logs m'
        ≡ some (done (lines (first_lines "cache-app" (container "app")))))
create-find-get_logs_example =
    create-find-get_logs numbers seconds (λ s. s) (λ t. "1m") (("docker", offline) ∷ []) "cache-app"
      (container "app") one
