-- ===== src/Samples.antt =====
-- Sample data of the tests: a codec that writes every value as `{}` and reads nothing, and an
-- environment whose database refuses nothing.
use superkube.Base.{◌+◌, String, false, none, some}
use superkube.Models.Meta.{ObjectMeta, default_object_meta}
use superkube.PodRepository.Conversions.{default_spec}
use superkube.Models.Pod.{PodTemplateSpec, Container}
use superkube.Store.{Env}
use superkube.Store.Rows.{Codec, Json, PodRow}

abbrev pub blank : {A : Type 0} → Codec A
blank = record { encode = λ a. some "{}"; encode_option = λ a. some "{}"; decode = λ t. none }

abbrev pub blank_json : Json
blank_json = record {
  labels = blank;
  spec = blank;
  statuses = blank;
  owners = blank;
  addresses = blank;
  node_info = blank;
}

abbrev pub calm : Env
calm = record {
  random = λ n. n + 100;
  short = λ u. "0a1b2c3d";
  hex = λ u. "a1b2c3d";
  clock = λ n. n;
  faults = λ n. false;
}

abbrev pub named : String → ObjectMeta
named name = record default_object_meta { name = some name; uid = some 7 }

abbrev pub template : PodTemplateSpec
template = record { metadata = default_object_meta; spec = default_spec }

abbrev pub row_of : String → String → PodRow
row_of name status = record {
  uid = 1;
  name = name;
  namespace = "default";
  labels = "null";
  annotations = "null";
  spec = "{}";
  status = status;
  node_name = some "node-a";
  pod_ip = some "10.244.0.2";
  host_ip = none;
  container_statuses = "[]";
  owner_reference = "null";
  created_at = 5;
  updated_at = 5;
}

abbrev pub container : String → Container
container name = record {
  name = name;
  image = "nginx";
  image_pull_policy = none;
  command = none;
  args = none;
  env = none;
  ports = none;
  resources = none;
  working_dir = none;
}
