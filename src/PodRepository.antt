-- ===== src/PodRepository.antt =====
-- src/db/repository.rs, `PodRepository`, over the rows of Store.Rows. Each method is an action:
-- it makes its statements one by one, and the database may refuse each of them.
pub mod Conversions
pub mod RoundTrip
pub mod Upsert
pub mod Creation
pub mod Removal
pub mod Reading
pub mod Binding
pub mod Keyed
pub mod Status
mod Tests
use superkube.Base.{
  ℕ, ◌+◌, String, Bool, true, false, ◌&&◌, ◌||◌, not, Option, none, some, List, [], ◌∷◌, ◌++◌, ◌==◌,
  if◌then◌else◌, eqb, ltb, leb, any, all, filter, find, map, map_or, is_none, Map, get, unwrap_or,
  append,
}
use superkube.Models.Meta.{Uuid, DateTime, name_of, namespace_of}
use superkube.Models.Pod.{Pod, PodStatus, phase_text}
use superkube.Scheduler.Labels.{has_labels}
use superkube.Store.{
  uid_or_new, Env, World, Action, Result, ok, err, Error, not_found, database, serialization, ◌>>=◌,
  ◌>>◌, pure, fail, query, new_v4, now, continue,
}
use superkube.Store.Rows.{Json, PodRow}
use superkube.Store.Table.{order_desc}
use Conversions.{to_row, row_to_pod, statuses_text}

-- `Error::NotFound(format!("pods \"{}\" not found", name))`.
abbrev pub missing : String → Error
missing name = not_found (append "pods \"" (append name "\" not found"))

unfoldable pub has_key : String → String → PodRow → Bool
has_key namespace name row = row.namespace == namespace && row.name == name

-- `ON CONFLICT (name, namespace) DO UPDATE`: all columns but the key, the uid and `created_at`.
unfoldable pub overwrite : PodRow → PodRow → PodRow
overwrite new old = record new { uid = old.uid; created_at = old.created_at }

unfoldable pub replace_row : PodRow → List PodRow → List PodRow
unfolding has_key overwrite
replace_row new [] = []
replace_row new (old ∷ rows) =
    (if has_key new.namespace new.name old then overwrite new old else old) ∷ replace_row new rows

-- The upsert: `none` is a second row with the primary key `uid`.
unfoldable pub upsert : PodRow → List PodRow → Option (List PodRow)
unfolding has_key replace_row
upsert new rows =
    if any (has_key new.namespace new.name) rows
    then some (replace_row new rows)
    else if any (λ row. eqb row.uid new.uid) rows
    then none
    else some (rows ++ new ∷ [])

store_rows : Option (List PodRow) → Action (Unit {0})
store_rows none w = (err database, w)
store_rows (some rows) w = (ok tt, record w { pods = rows })

-- The oldest rows first; rows of one time stay in the order of the table.
insert_asc : PodRow → List PodRow → List PodRow
insert_asc row [] = row ∷ []
insert_asc row (r ∷ rows) =
    let later = r ∷ insert_asc row rows in
    if leb row.created_at r.created_at then row ∷ r ∷ rows else later

unfoldable pub order_asc : List PodRow → List PodRow
unfolding insert_asc
order_asc [] = []
order_asc (r ∷ rows) = insert_asc r (order_asc rows)

found_row : Json → String → Option PodRow → Action Pod
found_row j name none = fail (missing name)
found_row j name (some row) = pure (row_to_pod j row)

-- `pod.metadata.labels`: a pod without labels matches no selector.
unfoldable pub pod_matches : Option (Map String) → Pod → Bool
pod_matches none pod = true
pod_matches (some selector) pod = map_or pod.metadata.labels false (has_labels selector)

module _ (e : Env) (j : Json) where
  unfoldable pub get_pod : String → String → Action Pod
  unfolding query found_row has_key
  get_pod namespace name = do
    query e
    λ w. found_row j name (find (has_key namespace name) w.pods) w

  insert_pod : Option PodRow → Action (Unit {0})
  unfolding query upsert store_rows
  insert_pod none = fail serialization
  insert_pod (some row) = do query e; λ w. store_rows (upsert row w.pods) w

  unfoldable pub create : Pod → Action Pod
  unfolding uid_or_new insert_pod get_pod new_v4
  create pod = do
    uid ← uid_or_new e pod.metadata.uid
    (λ w. insert_pod (to_row j pod uid (now e w)) w)
    get_pod (namespace_of pod.metadata) (name_of pod.metadata)

  -- `None` lists every namespace, or has no label selector.
  unfoldable pub list : Option String → Option (Map String) → Action (List Pod)
  unfolding query order_desc pod_matches
  list namespace label_selector = do
    query e
    λ w.
        let rows = filter (λ row. map_or namespace true (λ ns. row.namespace == ns)) w.pods in
        (
          ok (
              filter (pod_matches label_selector)
                (map (row_to_pod j) (order_desc (λ row. row.created_at) rows))),
          w,
        )

  unfoldable pub delete : String → String → Action (Unit {0})
  unfolding query has_key
  delete namespace name = do
    query e
    λ w.
        if any (has_key namespace name) w.pods
        then (ok tt, record w { pods = filter (λ row. not (has_key namespace name row)) w.pods })
        else (err (missing name), w)

  set_status : String → String → PodStatus → String → DateTime → List PodRow → List PodRow
  unfolding has_key
  set_status namespace name status statuses time rows =
      map
        (λ row.
          if has_key namespace name row
          then record row {
            status = phase_text status.phase;
            pod_ip = status.pod_ip;
            host_ip = status.host_ip;
            container_statuses = statuses;
            updated_at = time;
          }
          else row)
        rows

  write_status : String → String → PodStatus → Option String → Action (Unit {0})
  unfolding query set_status
  write_status namespace name status none w = (err serialization, w)
  write_status namespace name status (some statuses) w =
      (do
        query e
        λ w'. (
          ok tt,
          record w' { pods = set_status namespace name status statuses (now e w) w'.pods },
        ))
        w

  unfoldable pub update_status : String → String → PodStatus → Action (Unit {0})
  unfolding write_status
  update_status namespace name status =
      write_status namespace name status (j.statuses.encode_option status.container_statuses)

  set_node : String → String → String → DateTime → List PodRow → List PodRow
  unfolding has_key
  set_node namespace name node_name time rows =
      map
        (λ row.
          if has_key namespace name row
          then record row { node_name = some node_name; updated_at = time }
          else row)
        rows

  unfoldable pub bind_to_node : String → String → String → Action (Unit {0})
  unfolding query set_node
  bind_to_node namespace name node_name w =
      (do
        query e
        λ w'. (ok tt, record w' { pods = set_node namespace name node_name (now e w) w'.pods }))
        w

  unfoldable pub list_unscheduled : Action (List Pod)
  unfolding query order_asc
  list_unscheduled = do
    query e
    λ w.
        let rows = filter (λ row. is_none row.node_name && row.status == "Pending") w.pods in
        (ok (map (row_to_pod j) (order_asc rows)), w)
