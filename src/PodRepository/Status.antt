-- ===== src/PodRepository/Status.antt =====
-- `PodRepository::update_status`.
use superkube.Base.{
  ◌+◌, ◌≡◌, refl, ◌∙◌, String, false, ◌&&◌, Option, none, some, List, [], ◌∷◌, ◌==◌, eq_iff,
  if◌then◌else◌, find, map_or, arith, Bool-cases, inl, inr,
}
use superkube.Models.Meta.{DateTime}
use superkube.Models.Pod.{PodStatus, phase_text}
use superkube.Store.{Env, World, ok, query}
use superkube.Store.Rows.{PodRow, Json}
use superkube.Store.Frame.{Keeps}
use superkube.PodRepository.{has_key, set_status, write_status, update_status}
use superkube.PodRepository.Keyed.{row_at}

-- The row with the status.
abbrev pub with_status : PodStatus → String → DateTime → PodRow → PodRow
with_status status statuses time row = record row {
  status = phase_text status.phase;
  pod_ip = status.pod_ip;
  host_ip = status.host_ip;
  container_statuses = statuses;
  updated_at = time;
}

module _ (e : Env) (j : Json) where
  find-set_status :
      (ns name : String) (status : PodStatus) (statuses n k : String) (time : DateTime)
      (rows : List PodRow)
      → find (has_key n k) (set_status e j ns name status statuses time rows) ≡ (
          if ns == n && name == k
          then map_or
              (find (has_key n k) rows)
              none
              (λ row. some (with_status status statuses time row))
          else find (has_key n k) rows)
  unfolding set_status has_key
  find-set_status ns name status statuses n k time [] = ground arith
  find-set_status ns name status statuses n k time (r ∷ rows) = ground (
    arith,
    find-set_status ns name status statuses n k time rows,
    eq_iff r.namespace ns,
    eq_iff r.name name,
    eq_iff r.namespace n,
    eq_iff r.name k,
    eq_iff ns n,
    eq_iff name k,
  )

  -- `update_status`, where the database takes its statement and JSON writes the container statuses,
  -- succeeds: the row of the key, if there is one, gets the status, and every other key keeps its
  -- row.
  pub update_status_lem :
      (ns name : String) (status : PodStatus) (statuses : String) (w : World)
      → e.faults w.statements ≡ false
      → j.statuses.encode_option status.container_statuses ≡ some statuses
      → (after : List PodRow) × (update_status e j ns name status w
          ≡ (ok tt, record w { statements = w.statements + 1; pods = after }))
        × ((n k : String)
            → find (has_key n k) after ≡ (
                if ns == n && name == k
                then map_or
                    (find (has_key n k) w.pods)
                    none
                    (λ row. some (with_status status statuses (e.clock w.statements) row))
                else find (has_key n k) w.pods))
  unfolding update_status write_status query
  update_status_lem ns name status statuses w f h = (
    set_status e j ns name status statuses (e.clock w.statements) w.pods,
    rw (h, write_status, f) refl,
    λ n k. find-set_status ns name status statuses n k (e.clock w.statements) w.pods,
  )

  write_status-Keeps :
      (ns name n k : String) (status : PodStatus) (statuses : Option String)
      → (ns == n && name == k) ≡ false
      → Keeps (row_at n k) (write_status e j ns name status statuses)
  unfolding write_status query
  write_status-Keeps ns name n k status none other = λ w. refl
  write_status-Keeps ns name n k status (some statuses) other = λ w.
      elim (Bool-cases (e.faults w.statements)) [
        | inl f ↦ rw f refl
        | inr f ↦ rw f (
            find-set_status ns name status statuses n k (e.clock w.statements) w.pods
            ∙ rw other refl)
      ]

  pub update_status-Keeps :
      (ns name n k : String) (status : PodStatus)
      → (ns == n && name == k) ≡ false
      → Keeps (row_at n k) (update_status e j ns name status)
  unfolding update_status
  update_status-Keeps ns name n k status other =
      write_status-Keeps ns name n k status (j.statuses.encode_option status.container_statuses)
        other
