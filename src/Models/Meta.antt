-- ===== src/Models/Meta.antt =====
-- src/models/meta.rs: the metadata that every object carries, and label selectors. `Uuid` and
-- `DateTime<Utc>` are third-party values that the program compares only: numbers here.
use superkube.Base.{String, Option, List, Map, Bool, none, unwrap_or, [], ℕ}

abbrev pub Uuid : Type 0
Uuid = ℕ

abbrev pub DateTime : Type 0
DateTime = ℕ

pub record TypeMeta : Type 0 where
  pub api_version : Option String
  pub kind : Option String

pub record OwnerReference : Type 0 where
  pub api_version : String
  pub kind : String
  pub name : String
  pub uid : Uuid
  pub controller : Option Bool
  pub block_owner_deletion : Option Bool

pub record ObjectMeta : Type 0 where
  pub name : Option String
  pub namespace : Option String
  pub uid : Option Uuid
  pub resource_version : Option String
  pub labels : Option (Map String)
  pub annotations : Option (Map String)
  pub creation_timestamp : Option DateTime
  pub owner_references : Option (List OwnerReference)

pub record LabelSelectorRequirement : Type 0 where
  pub key : String
  pub operator : String
  pub values : Option (List String)

pub record LabelSelector : Type 0 where
  pub match_labels : Option (Map String)
  pub match_expressions : Option (List LabelSelectorRequirement)

pub record ListMeta : Type 0 where
  pub resource_version : Option String
  pub continue_token : Option String

abbrev pub default_object_meta : ObjectMeta
default_object_meta = record {
  name = none;
  namespace = none;
  uid = none;
  resource_version = none;
  labels = none;
  annotations = none;
  creation_timestamp = none;
  owner_references = none;
}

-- `ObjectMeta::name`, `namespace` and `labels`.
abbrev pub name_of : ObjectMeta → String
name_of m = unwrap_or m.name ""

abbrev pub namespace_of : ObjectMeta → String
namespace_of m = unwrap_or m.namespace "default"

abbrev pub labels_of : ObjectMeta → Map String
labels_of m = unwrap_or m.labels []
