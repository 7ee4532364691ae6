-- ===== src/Agent/Tests.antt =====
-- A node whose one engine has every container that it is asked for.
use superkube.Base.{
  All, show_text, arith, some, none, ◌≡◌, ◌++◌, refl, String, true, Option, List, [], ◌∷◌, ◌||◌,
  not, filter, map,
}
use superkube.Anyhow.{done, error}
use superkube.Models.Meta.{DateTime, name_of, namespace_of}
use superkube.Models.Pod.{Pod, PodPhase, Container, ContainerStatus, running, phase_eq}
use superkube.Samples.{container}
use superkube.Runtime.{find_container}
use superkube.Agent.{Agent, Outside, Request, put_pod_status, PodKey}
use superkube.Agent.Statuses.{container_name, key_of, status_pod}
use superkube.Agent.Pods.{reconcile_pod}
use superkube.Scheduler.Whole.{whole, whole-F64Laws, whole-F64Exact}
use superkube.Scheduler.Usage.{allocatable_cpu, allocatable_mem}
use superkube.Agent.Node.{Machine, build_node_object, memory_capacity}
use superkube.Agent.Capacity.{allocatable-build_node_object}
use superkube.Runtime.Mock.{Mock, new}
use superkube.Agent.Starting.{IsThere, mocked, reconcile_pod_starts}
use superkube.Agent.Sync.{sweep_orphans}
use superkube.Agent.Samples.{web, info, outside, agent, busy}
use superkube.Agent.Settled.{SendsStatus, reconcile_pod_settled}
use superkube.Agent.Reports.{names_in, all_ready, reconcile_pod_reports}
use superkube.Agent.Ports.{remembered}
use superkube.Agent.Sweeping.{wanted, for_desired, sweep_orphans_lem}

abbrev app : Container
app = container "app"

reconcile_pod_settled_example :
    let w' = (reconcile_pod outside web agent).1 in
    (w'.host ≡ tt) × SendsStatus outside tt web 7 (λ c. info) (app ∷ []) agent w'
unfolding find_container
reconcile_pod_settled_example =
    reconcile_pod_settled outside tt web 7 (λ c. info) (λ n. refl) app [] agent refl refl (refl, tt)
      refl

reconcile_pod_reports_example :
    (before : List Request) × (phase : PodPhase) × (ip : Option String) × (ss : List
      ContainerStatus)
    × (start : DateTime) × ((reconcile_pod outside web agent).1.sent
        ≡ before
          ++ put_pod_status
              (namespace_of web.metadata)
              (name_of web.metadata)
              (status_pod (key_of web) phase ip ss start)
            ∷ [])
    × (names_in ss ≡ map (λ (c : Container). c.name) (app ∷ []))
    × ((not (phase_eq phase running) || all_ready ss) ≡ true)
unfolding reconcile_pod find_container
reconcile_pod_reports_example = reconcile_pod_reports outside web 7 app [] agent refl refl refl

-- After two passes the one port is remembered twice.
two_ports :
    remembered
      (key_of web)
      (reconcile_pod outside web (reconcile_pod outside web agent).1).1.state.pod_ports
    ≡ 2
unfolding reconcile_pod find_container
two_ports = refl

abbrev desired : List PodKey
desired = key_of web ∷ []

sweep_orphans_example :
    let (r, w') = sweep_orphans outside desired busy in
    (r ≡ done tt)
    × (w'.state.pod_containers ≡ filter (wanted desired) busy.state.pod_containers)
    × (for_desired desired (key_of web) w'.state.pod_ips
        ≡ for_desired desired (key_of web) busy.state.pod_ips)
    × (for_desired desired (key_of web) w'.state.pod_ports
        ≡ for_desired desired (key_of web) busy.state.pod_ports)
sweep_orphans_example = sweep_orphans_lem outside desired (key_of web) busy

-- The engine refuses to remove the container of the other pod, and the agent forgets it.
forgets_the_other :
    (sweep_orphans outside desired busy).1.state.pod_containers
    ≡ ((("default", "web"), "app"), "docker://1") ∷ []
unfolding sweep_orphans
forgets_the_other = refl

-- A machine with four cores and 8.5 GiB.
abbrev machine : Machine
machine = record {
  cpus = some 4;
  memory = some 9126805504;
  disk = some 1000;
  internal_ip = none;
  kernel = none;
  os_image = "Alpine";
  os = "linux";
  arch = "x86_64";
  version = "0.1.0";
}

allocatable_example :
    let node = build_node_object machine "node-a" [] 7 60 in
    (allocatable_cpu whole node ≡ some 4000) × (allocatable_mem whole node ≡ some 9126805504)
allocatable_example =
    allocatable-build_node_object whole whole-F64Laws whole-F64Exact machine "node-a" [] 7 60
      9126805504 refl (omega arith) (omega arith)

reported : memory_capacity machine ≡ "8704Mi"
unfolding memory_capacity
reported = refl

abbrev outside_mock : Outside Mock
outside_mock = record {
  engines = record { default = "mock"; engines = [] };
  debug = λ s. s;
  drift = λ n h. h;
  answer = λ sent r. error "connection refused";
  clock = λ n. n;
  random = λ n. n;
  hex = λ u. "0a1b2c3d";
  status_text = λ n. "";
}

abbrev two_containers : Pod
two_containers = record web {
  spec = record web.spec { containers = container "app" ∷ container "db" ∷ [] };
}

abbrev empty_node : Agent Mock
empty_node = record { state = agent.state; host = new; looks = 0; drawn = 0; sent = [] }

reconcile_pod_starts_example :
    All
      (λ c.
        IsThere
          (reconcile_pod
            (mocked show_text (λ n. n) outside_mock show_text)
            two_containers
            empty_node).1.host
          (container_name "web" c))
      (container "app" ∷ container "db" ∷ [])
reconcile_pod_starts_example =
    reconcile_pod_starts show_text (λ n. n) outside_mock show_text two_containers 7 empty_node refl
      refl
