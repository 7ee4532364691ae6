-- ===== src/PodRepository/Tests.antt =====
-- A table with one pod, and the theorems at it.
mod Codecs
use superkube.Base.{
  String, Bool, true, false, false≢true, ◌≡◌, ◌≢◌, refl, sym, ap, ◌∙◌, Option, none, some, List, [],
  ◌∷◌, ◌==◌, eq_iff, if◌then◌else◌, Bool-cases, inl, inr, Map, ◌+◌, ◌&&◌, find, map_or, All,
}
use mathlib.Core.Option.{some-injective, none-ne-some}
use superkube.Models.Meta.{default_object_meta, name_of, namespace_of}
use superkube.Models.Affinity.{Affinity}
use superkube.Models.Node.{NodeSystemInfo}
use superkube.Models.Pod.{Pod, PodSpec, running, RestartPolicy, Container}
use superkube.Store.Rows.{Json, JsonLaws, Codec, CodecLaws, PodRow}
use superkube.Store.{Env, World, empty_world, ok, ◌>>◌, query}
use superkube.PodRepository.{
  has_key, create, delete, bind_to_node, list_unscheduled, order_asc, insert_asc,
}
use superkube.PodRepository.Upsert.{merged}
use superkube.PodRepository.Creation.{created, create_lem}
use superkube.PodRepository.Binding.{list_unscheduled-bind_to_node}
use superkube.PodRepository.Conversions.{default_spec, to_row, row_to_pod}
use superkube.PodRepository.RoundTrip.{stored, row_to_pod-to_row}
use Codecs.{
  json, json-laws, on_a, lists, specs, encode_spec, encode_or_null, encode_list, encode_fields,
  encode_node,
}

abbrev web : Pod
web = record {
  type_meta = record { api_version = none; kind = none };
  metadata = record default_object_meta { name = some "web"; labels = some [] };
  spec = on_a;
  status = some (record {
    phase = running;
    conditions = none;
    pod_ip = some "10.244.0.2";
    pod_i_ps = none;
    host_ip = some "10.0.0.1";
    start_time = some 7;
    container_statuses = some [];
    message = some "started";
    reason = none;
  });
}

abbrev web_row : PodRow
web_row = record {
  uid = 1;
  name = "web";
  namespace = "default";
  labels = "[]";
  annotations = "null";
  spec = "{on-a}";
  status = "Running";
  node_name = some "node-a";
  pod_ip = some "10.244.0.2";
  host_ip = some "10.0.0.1";
  container_statuses = "[]";
  owner_reference = "null";
  created_at = 5;
  updated_at = 5;
}

web_written : to_row json web 1 5 ≡ some web_row
unfolding to_row json lists specs encode_spec encode_or_null encode_list encode_fields encode_node
web_written = refl

row_to_pod-to_row_example : row_to_pod json web_row ≡ stored json web 1 5
row_to_pod-to_row_example = row_to_pod-to_row json json-laws web 1 5 web_row web_written

abbrev waiting_row : PodRow
waiting_row = record web_row {
  uid = 9;
  name = "db";
  status = "Pending";
  node_name = none;
  pod_ip = none;
  created_at = 2;
}

abbrev env : Env
env = record {
  random = λ n. n + 1;
  short = λ u. "0a1b2c3d";
  hex = λ u. "a1b2c3d";
  clock = λ n. n;
  faults = λ n. false;
}

abbrev world : World
world = record empty_world { statements = 5; pods = waiting_row ∷ [] }

create_example :
    (after : List PodRow) × (create env json web world
      ≡ (ok (stored json web 1 5), created env json json-laws web world after))
    × ((ns name : String)
        → find (has_key ns name) after ≡ (
            if has_key ns name web_row
            then some (merged web_row (find (has_key ns name) (waiting_row ∷ [])))
            else find (has_key ns name) (waiting_row ∷ [])))
unfolding has_key
create_example = create_lem env json json-laws web world web_row refl refl web_written (inr refl)

list_unscheduled_example :
    (pods : List Pod) × (((bind_to_node env json "default" "db" "node-b"
          >> list_unscheduled env json)
        world).0
      ≡ ok pods)
    × All (λ p. ¬ ((namespace_of p.metadata ≡ "default") × (name_of p.metadata ≡ "db"))) pods
list_unscheduled_example =
    list_unscheduled-bind_to_node env json "default" "db" "node-b" world refl refl

-- A pod that waits is listed before it is bound.
waits : (list_unscheduled env json world).0 ≡ ok (row_to_pod json waiting_row ∷ [])
unfolding list_unscheduled query order_asc insert_asc
waits = refl
