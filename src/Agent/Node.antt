-- ===== src/Agent/Node.antt =====
-- src/node/agent.rs: the node that the agent registers, and its heartbeats. `Machine` is what the
-- `detect_` functions and `uname_field` find out from the operating system.
use superkube.Base.{
  ℕ, String, Option, none, some, [], ◌∷◌, Map, append, put, if◌then◌else◌, map_or, unwrap_or,
  show_text, false,
}
use superkube.Anyhow.{done, error}
use superkube.Models.Meta.{Uuid, DateTime, default_object_meta}
use superkube.Models.Node.{Node, NodeAddressType, ConditionStatus, ready, running}
use superkube.Agent.{
  Outside, Action, post_node, put_node, is_success, ◌>>=◌, pure, lift, send, now, new_v4,
  format_quantity,
}
use superkube.Agent.Pods.{body_text}

pub record Machine : Type 0 where
  pub cpus : Option ℕ
  -- Bytes of memory, and of the disk.
  pub memory : Option ℕ
  pub disk : Option ℕ
  pub internal_ip : Option String
  pub kernel : Option String
  pub os_image : String
  pub os : String
  pub arch : String
  -- `CARGO_PKG_VERSION`.
  pub version : String

-- `detect_cpu_count` and `detect_memory_capacity`.
abbrev pub cpu_count : Machine → ℕ
cpu_count m = unwrap_or m.cpus 1

unfoldable pub memory_capacity : Machine → String
unfolding format_quantity
memory_capacity m = map_or m.memory "8Gi" format_quantity

unfoldable pub capacity : Machine → Map String
unfolding memory_capacity show_text
capacity m =
    let fixed =
      ("cpu", show_text (cpu_count m)) ∷ ("memory", memory_capacity m) ∷ ("pods", "110") ∷ [] in
    map_or m.disk fixed (λ bytes. put "ephemeral-storage" (format_quantity bytes) fixed)

unfoldable pub build_node_object : Machine → String → Map String → Uuid → DateTime → Node
unfolding capacity
build_node_object m name labels uid now = record {
  type_meta = record { api_version = some "v1"; kind = some "Node" };
  metadata = record default_object_meta {
    name = some name;
    uid = some uid;
    labels = some_labels labels;
  };
  spec =
      some (record { pod_cidr = none; provider_id = none; unschedulable = false; taints = none });
  status = some (record {
    capacity = some (capacity m);
    allocatable = some (capacity m);
    conditions = some (
        record {
          condition_type = ready;
          status = ConditionStatus.true;
          last_heartbeat_time = some now;
          last_transition_time = some now;
          reason = some "KubeletReady";
          message = some "kubelet is posting ready status";
        }
        ∷ []);
    addresses = some (
        record { address_type = NodeAddressType.hostname; address = name }
        ∷ record {
          address_type = NodeAddressType.internal_ip;
          address = unwrap_or m.internal_ip "127.0.0.1";
        }
        ∷ []);
    node_info = some (record {
      machine_id = none;
      system_uuid = none;
      boot_id = none;
      kernel_version = some (unwrap_or m.kernel "unknown");
      os_image = some m.os_image;
      container_runtime_version = some (append "superkube://" m.version);
      kubelet_version = some (append "superkube/" m.version);
      kube_proxy_version = none;
      operating_system = some m.os;
      architecture = some m.arch;
    });
    images = none;
    phase = running;
  });
}
  where
    some_labels : Map String → Option (Map String)
    some_labels [] = none
    some_labels (l ∷ ls) = some (l ∷ ls)

module _ {H : Type 0} (o : Outside H) (m : Machine) where
  unfoldable pub node_object : Action H Node
  unfolding build_node_object new_v4
  node_object = do
    uid ← new_v4 o
    λ w. (done (build_node_object m w.state.name w.state.labels uid (now o w)), w)

  -- An answer that is no success is only logged.
  unfoldable pub register_node : Action H (Unit {0})
  unfolding node_object send
  register_node = do node ← node_object; response ← send o (post_node node); pure tt

  unfoldable pub send_heartbeat : Action H (Unit {0})
  unfolding node_object send
  send_heartbeat = do
    node ← node_object
    response ← λ w. send o (put_node w.state.name node) w
    if is_success response
        then pure tt
        else lift (
            error (
              append "Heartbeat failed with "
                (append (o.status_text response.status) (append ": " (body_text o response)))))
