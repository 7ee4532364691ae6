-- ===== src/Scheduler/Tests.antt =====
-- A small cluster: two nodes of equal score and one that is full.
use superkube.Base.{
  ◌≡◌, ◌↔◌, refl, min, String, true, false, none, some, List, [], ◌∷◌, Map, codes, pos, ◌≤ℤ◌,
}
use superkube.Models.Meta.{ObjectMeta, default_object_meta, TypeMeta}
use superkube.Models.Affinity.{NodeSelectorRequirement}
use superkube.Models.Node.{Node, running}
use superkube.Models.Pod.{Pod, Container, succeeded, status_of_phase}
use superkube.Scheduler.Float.{u64_max}
use superkube.Scheduler.Whole.{whole, whole-F64Laws}
use superkube.Scheduler.Quantity.{
  parse_u64, parse_cpu_millicores, parse_memory_bytes, trim, strip_suffix, split_suffix, bytes_of,
  millicores_of_cores,
}
use superkube.Scheduler.Labels.{is_node_ready, match_expression}
use superkube.Scheduler.Labels.Meaning.{Meets, match_expression_iff}
use superkube.Scheduler.Selection.{find_node_for_pod, is_candidate}
use superkube.Scheduler.Selection.Feasible.{IsFeasible, is_candidate_iff}
use superkube.Scheduler.Selection.Best.{IsChosen, find_node-IsChosen}
use superkube.Scheduler.Usage.Score.{score_node_bounds}
use superkube.Scheduler.Usage.Requests.{requested, cpu_asked, mem_asked}
use superkube.Scheduler.Usage.Saturation.{sum_used_on_node_lem}
use superkube.Scheduler.Usage.{
  least_allocated, sum_used_on_node, sum_pod_requests, node_fits, score_node, bound_to,
}

abbrev meta_with : String → Map String → ObjectMeta
meta_with name labels = record default_object_meta { name = some name; labels = some labels }

abbrev no_type : TypeMeta
no_type = record { api_version = none; kind = none }

abbrev node_with : String → Map String → Map String → Node
node_with name labels allocatable = record {
  type_meta = no_type;
  metadata = meta_with name labels;
  spec = none;
  status = some (record {
    capacity = none;
    allocatable = some allocatable;
    conditions = none;
    addresses = none;
    node_info = none;
    images = none;
    phase = running;
  });
}

abbrev pub node_a : Node
node_a = node_with "a" (("zone", "west") ∷ ("gpu", "4") ∷ []) (("cpu", "2") ∷ [])

abbrev pub node_b : Node
node_b = node_with "b" (("zone", "west") ∷ []) (("cpu", "2") ∷ ("memory", "1Gi") ∷ [])

abbrev node_full : Node
node_full = node_with "full" (("zone", "west") ∷ []) (("cpu", "100m") ∷ [])

abbrev container_with : Map String → Container
container_with requests = record {
  name = "main";
  image = "nginx";
  image_pull_policy = none;
  command = none;
  args = none;
  env = none;
  ports = none;
  resources = some (record { limits = none; requests = some requests });
  working_dir = none;
}

abbrev pub web : Pod
web = record {
  type_meta = no_type;
  metadata = meta_with "web" [];
  spec = record {
    containers = container_with (("cpu", "250m") ∷ []) ∷ [];
    restart_policy = none;
    node_selector = some (("zone", "west") ∷ []);
    node_name = none;
    service_account_name = none;
    host_network = false;
    affinity = none;
    runtime_class_name = none;
  };
  status = none;
}

abbrev cluster : List Node
cluster = node_a ∷ node_b ∷ node_full ∷ []

quantities :
    (parse_cpu_millicores whole (codes " 250m") ≡ some 250)
    × (parse_cpu_millicores whole (codes "2") ≡ some 2000)
    × (parse_cpu_millicores whole (codes "m") ≡ none)
    × (parse_memory_bytes whole (codes "1Ki") ≡ some 1024)
    × (parse_memory_bytes whole (codes "3 M ") ≡ some 3_000_000)
unfolding parse_cpu_millicores parse_memory_bytes trim strip_suffix split_suffix bytes_of
    millicores_of_cores parse_u64
quantities = (refl, refl, refl, refl, refl)

-- Two nodes of the same score: the later one is taken.
tie_goes_to_the_later : find_node_for_pod whole web cluster [] least_allocated ≡ some node_b
unfolding find_node_for_pod is_node_ready node_fits score_node sum_pod_requests parse_cpu_millicores
    parse_memory_bytes trim strip_suffix split_suffix bytes_of millicores_of_cores parse_u64
tie_goes_to_the_later = refl

abbrev needs_gpu : NodeSelectorRequirement
needs_gpu = record { key = "gpu"; operator = "Gt"; values = "2" ∷ [] }

match_expression_iff_example :
    (match_expression needs_gpu (("gpu", "4") ∷ []) ≡ true) ↔ Meets needs_gpu (some "4")
match_expression_iff_example = match_expression_iff needs_gpu (("gpu", "4") ∷ [])

is_candidate_iff_example :
    (is_candidate whole web cluster [] node_b ≡ true) ↔ IsFeasible whole web cluster [] node_b
is_candidate_iff_example = is_candidate_iff whole web cluster [] node_b

find_node-IsChosen_example : IsChosen whole web cluster [] least_allocated node_b
find_node-IsChosen_example =
    find_node-IsChosen whole web cluster [] least_allocated node_b tie_goes_to_the_later

score_node_bounds_example :
    (pos 0 ≤ℤ score_node whole node_b (bound_to web "b" ∷ []) 250 0 least_allocated)
    × (score_node whole node_b (bound_to web "b" ∷ []) 250 0 least_allocated ≤ℤ pos 100)
score_node_bounds_example =
    score_node_bounds whole whole-F64Laws node_b (bound_to web "b" ∷ []) 250 0 least_allocated

-- One pod that is bound to the node, one that has ended there, and one on another node.
abbrev bound_pods : List Pod
bound_pods =
    bound_to web "b"
    ∷ record (bound_to web "b") { status = some (status_of_phase succeeded) }
    ∷ bound_to web "a"
    ∷ []

sum_used_on_node_example : sum_used_on_node whole node_b bound_pods ≡ (
  min (requested (cpu_asked whole) "b" bound_pods) u64_max,
  min (requested (mem_asked whole) "b" bound_pods) u64_max,
)
sum_used_on_node_example = sum_used_on_node_lem whole node_b bound_pods

-- Only the first of them counts.
one_pod_counts : sum_used_on_node whole node_b bound_pods ≡ (250, 0)
unfolding sum_used_on_node sum_pod_requests parse_cpu_millicores parse_memory_bytes trim
    strip_suffix split_suffix bytes_of millicores_of_cores parse_u64
one_pod_counts = refl
