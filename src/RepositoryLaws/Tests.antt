-- ===== src/RepositoryLaws/Tests.antt =====
-- The laws of the shared statements at a table of deployments.
use superkube.Base.{◌≡◌, refl, String, none, some, [], ◌∷◌, if◌then◌else◌, pos, inl}
use superkube.Models.Deployment.{Deployment, DeploymentSpec}
use superkube.DeploymentRepository.{deployments, to_row, default_deployment_spec}
use superkube.RepositoryLaws.{deployments-LayoutLaws}
use superkube.Samples.{blank, blank_json, calm, named}
use superkube.Store.{World, empty_world, ok}
use superkube.Store.Rows.{Codec, DeploymentRow}
use superkube.Store.Repository.{Layout, has_key, create_object, delete_object}
use superkube.Store.Repository.Rows.{merged}
use superkube.Store.Repository.Laws.{view, Deleted, create_object_lem, delete_object_lem}

abbrev specs : Codec DeploymentSpec
specs = blank

abbrev table : Layout DeploymentRow Deployment
table = deployments blank_json specs

abbrev web : Deployment
web = record {
  type_meta = record { api_version = none; kind = none };
  metadata = named "web";
  spec = default_deployment_spec;
  status = none;
}

-- An earlier deployment of the same key, of which two pods are ready.
abbrev old_row : DeploymentRow
old_row = record {
  uid = 3;
  name = "web";
  namespace = "default";
  labels = "{}";
  annotations = "{}";
  spec = "{}";
  replicas = pos 4;
  ready_replicas = pos 2;
  available_replicas = pos 2;
  created_at = 1;
  updated_at = 2;
}

abbrev new_row : DeploymentRow
new_row = record old_row {
  uid = 7;
  replicas = pos 1;
  ready_replicas = pos 0;
  available_replicas = pos 0;
  created_at = 5;
  updated_at = 5;
}

abbrev world : World
world = record empty_world { statements = 5; deployments = old_row ∷ [] }

create_object_example :
    (w' : World) × (create_object table calm
        (some 7)
        "default"
        "web"
        (to_row blank_json specs web)
        world
      ≡ (
        ok (
            table.read
              (merged table (deployments-LayoutLaws blank_json specs) new_row (some old_row))),
        w',
      ))
    × ((n k : String)
        → view table (deployments-LayoutLaws blank_json specs) w' n k ≡ (
            if has_key table n k new_row
            then some (
                merged table
                  (deployments-LayoutLaws blank_json specs)
                  new_row
                  (view table (deployments-LayoutLaws blank_json specs) world n k))
            else view table (deployments-LayoutLaws blank_json specs) world n k))
unfolding deployments has_key to_row
create_object_example =
    create_object_lem table (deployments-LayoutLaws blank_json specs) calm (some 7) "default" "web"
      (to_row blank_json specs web) world new_row refl refl refl refl refl (inl refl)

delete_object_example :
    Deleted table
      (deployments-LayoutLaws blank_json specs)
      calm
      "default"
      "web"
      world
      (delete_object table calm "default" "web" world)
delete_object_example =
    delete_object_lem table (deployments-LayoutLaws blank_json specs) calm "default" "web" world

-- Of an earlier row, the counters, the uid and the time of creation stay.
applied :
    merged table (deployments-LayoutLaws blank_json specs) new_row (some old_row)
    ≡ record old_row { replicas = pos 1; updated_at = 5 }
unfolding deployments
applied = refl
