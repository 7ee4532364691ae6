-- ===== src/Controllers/StatefulSets/Tests.antt =====
-- A stateful set whose first pod runs.
use superkube.Base.{arith, ◌≡◌, refl, none, some, [], ◌∷◌, map, pos}
use superkube.Models.Meta.{Uuid, DateTime}
use superkube.Models.StatefulSet.{StatefulSet, is_parallel}
use superkube.StatefulSetRepository.{default_stateful_set_spec}
use superkube.Samples.{blank_json, calm, named, row_of}
use superkube.Store.{World, empty_world}
use superkube.Store.Rows.{PodRow}
use superkube.PodRepository.Keyed.{row_at}
use superkube.PodRepository.{has_key}
use superkube.PodRepository.Conversions.{row_to_pod, to_row}
use superkube.EventRepository
use superkube.Controllers.StatefulSets.{walk, pod_name, pod_for_statefulset}
use superkube.Controllers.StatefulSets.Ordered.{Sequential, RunFrom, RunsIn, walk-Sequential}
use superkube.Controllers.StatefulSets.Progress.{walk_creates}

abbrev db : StatefulSet
db = record {
  type_meta = record { api_version = none; kind = none };
  metadata = named "db";
  spec = default_stateful_set_spec;
  status = none;
}

-- The first pod runs, the second is missing, and the third is there.
abbrev partly_up : World
partly_up = record empty_world { pods = row_of "db-0" "Running" ∷ row_of "db-2" "Running" ∷ [] }

walk-Sequential_example :
    Sequential calm blank_json db 3 0 partly_up (walk calm blank_json db 7 3 0 0 0 partly_up).1
unfolding is_parallel
walk-Sequential_example = walk-Sequential calm blank_json db 7 3 0 0 0 partly_up refl

-- JSON writes every pod of the set.
writes :
    (uid : Uuid) (time : DateTime)
    → (row : PodRow) × (to_row blank_json
          (pod_for_statefulset db 7 (pod_name db (pos 1)) uid)
          uid
          time
        ≡ some row)
unfolding to_row
writes uid time = (_, refl)

walk_creates_example :
    (row : PodRow) × (row_at "default"
        (pod_name db (pos 1))
        (walk calm blank_json db 7 3 0 0 0 partly_up).1
      ≡ some row)
    × (row.status ≡ "Pending")
unfolding is_parallel RunFrom RunsIn row_to_pod pod_name has_key
walk_creates_example =
    walk_creates calm blank_json db (λ m. refl) 7 1 3 0 1 0 0 partly_up writes refl refl
      (omega arith) ((row_of "db-0" "Running", refl, refl), tt) refl refl

-- One pod is created, and the walk ends there.
counters : (walk calm blank_json db 7 3 0 0 0 partly_up).0 ≡ (1, 1)
unfolding walk row_to_pod to_row is_parallel
counters = refl

created_one :
    map (λ (r : PodRow). r.name) (walk calm blank_json db 7 3 0 0 0 partly_up).1.pods
    ≡ "db-0" ∷ "db-2" ∷ "db-1" ∷ []
unfolding walk row_to_pod to_row is_parallel EventRepository.to_row
created_one = refl
