-- ===== src/Agent/Samples.antt =====
-- Sample data of the tests: a node with one engine, which has every container that it is asked for
-- and removes none, and a pod.
use superkube.Base.{true, none, some, [], ◌∷◌, pos}
use superkube.Models.Pod.{Pod}
use superkube.Anyhow.{done, error}
use superkube.Runtime.{Runtime, ContainerInfo}
use superkube.Agent.{Agent, AgentState, Outside}
use superkube.PodRepository.Conversions.{default_spec}
use superkube.Samples.{container, named}

abbrev pub info : ContainerInfo
info = record {
  id = "docker://1";
  running = true;
  restart_count = pos 0;
  started_at = some 3;
  exit_code = none;
  ip = some "10.244.0.2";
  port_mappings = record { container_port = pos 80; host_port = 32768; protocol = "TCP" } ∷ [];
}

abbrev pub docker : Runtime (Unit {0})
docker = record {
  name = "docker";
  create_and_start_container = λ name c h. (error "no space left", h);
  find_container = λ name h. done (some info);
  remove_container = λ name h. (error "in use", h);
  get_logs = λ id options h. some (done "");
}

abbrev pub outside : Outside (Unit {0})
outside = record {
  engines = record { default = "docker"; engines = ("docker", docker) ∷ [] };
  debug = λ s. s;
  drift = λ n h. h;
  answer = λ sent r. done (record { status = 200; text = some ""; pods = done [] });
  clock = λ n. n;
  random = λ n. n;
  hex = λ u. "0a1b2c3d";
  status_text = λ n. "200 OK";
}

abbrev pub web : Pod
web = record {
  type_meta = record { api_version = none; kind = none };
  metadata = named "web";
  spec = record default_spec { containers = container "app" ∷ [] };
  status = none;
}

abbrev state : AgentState
state = record {
  name = "node-a";
  labels = [];
  server_url = "http://127.0.0.1:6443";
  pod_cidr_prefix = "10.244.0";
  containers = [];
  pod_containers = [];
  pod_ports = [];
  pod_ips = [];
}

abbrev pub agent : Agent (Unit {0})
agent = record { state = state; host = tt; looks = 0; drawn = 0; sent = [] }

-- The agent keeps the containers of two pods.
abbrev pub busy : Agent (Unit {0})
busy = record agent {
  state = record state {
    pod_containers =
        ((("default", "web"), "app"), "docker://1")
        ∷ ((("default", "old"), "app"), "docker://2")
        ∷ [];
    pod_ips = (("default", "web"), "10.244.0.2") ∷ (("default", "old"), "10.244.0.3") ∷ [];
  };
}
