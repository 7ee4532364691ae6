-- ===== src/NamespaceRepository/Tests.antt =====
-- Two namespaces, of which one has a pod.
use superkube.Base.{◌≡◌, ◌↔◌, refl, false, true, any, [], ◌∷◌, ◌==◌}
use superkube.NamespaceRepository.{is_system, count_pods, delete}
use superkube.NamespaceRepository.Deletion.{delete_iff}
use superkube.Samples.{blank, blank_json, calm, row_of}
use superkube.Store.{World, empty_world, is_ok}
use superkube.Store.Rows.{NamespaceRow}

abbrev team_row : NamespaceRow
team_row = record {
  uid = 1;
  name = "team";
  labels = "null";
  annotations = "null";
  spec = "null";
  status = "Active";
  created_at = 1;
  updated_at = 1;
}

abbrev world : World
world = record empty_world {
  namespaces = team_row ∷ record team_row { uid = 2; name = "default" } ∷ [];
  pods = row_of "web" "Running" ∷ record (row_of "web" "Running") { namespace = "team" } ∷ [];
}

delete_iff_example : (is_ok (delete blank_json blank calm "team" world).0 ≡ true) ↔ (
    (is_system "team" ≡ false)
    × (count_pods "team" world ≡ 0)
    × (any (λ row. row.name == "team") world.namespaces ≡ true))
delete_iff_example = delete_iff blank_json blank calm "team" world refl refl
