-- ===== src/PodRepository/Binding.antt =====
-- `PodRepository::bind_to_node` and `list_unscheduled`: the two ends of scheduling.
use superkube.Base.{
  ◌+◌, ◌≡◌, refl, sym, ◌∙◌, String, Bool, false, false≢true, ◌&&◌, none, some, List, [], ◌∷◌, ◌==◌,
  eq_iff, if◌then◌else◌, Bool-cases, inl, inr, find, filter, map, map_or, is_none, leb, arith, All,
}
use superkube.Models.Meta.{name_of, namespace_of, DateTime}
use superkube.Models.Pod.{Pod}
use superkube.Store.{Env, World, ok, query, ◌>>◌}
use superkube.Store.Rows.{PodRow, Json}
use superkube.PodRepository.{
  has_key, set_node, insert_asc, order_asc, bind_to_node, list_unscheduled,
}
use superkube.PodRepository.Conversions.{row_to_pod}
use superkube.PodRepository.Upsert.{has_key_iff}

module _ (P : PodRow → Type 0) where
  insert_asc-All : (r : PodRow) (rows : List PodRow) → P r → All P rows → All P (insert_asc r rows)
  unfolding insert_asc
  insert_asc-All r [] p all = (p, tt)
  insert_asc-All r (q ∷ rows) p all = elim (Bool-cases (leb r.created_at q.created_at)) [
    | inl e ↦ rw e (p, all)
    | inr e ↦ rw e (all.0, insert_asc-All r rows p all.1)
  ]

  order_asc-All : (rows : List PodRow) → All P rows → All P (order_asc rows)
  unfolding order_asc
  order_asc-All [] all = tt
  order_asc-All (r ∷ rows) all = insert_asc-All r (order_asc rows) all.0 (order_asc-All rows all.1)

-- The pods that wait are those without a node.
abbrev unbound : PodRow → Bool
unbound row = is_none row.node_name && row.status == "Pending"

module _ (e : Env) (j : Json) where
  find-set_node :
      (ns name node n k : String) (time : DateTime) (rows : List PodRow)
      → find (has_key n k) (set_node e j ns name node time rows) ≡ (
          if ns == n && name == k
          then map_or
              (find (has_key n k) rows)
              none
              (λ row. some (record row { node_name = some node; updated_at = time }))
          else find (has_key n k) rows)
  unfolding set_node has_key
  find-set_node ns name node n k time [] = ground arith
  find-set_node ns name node n k time (r ∷ rows) = ground (
    arith,
    find-set_node ns name node n k time rows,
    eq_iff r.namespace ns,
    eq_iff r.name name,
    eq_iff r.namespace n,
    eq_iff r.name k,
    eq_iff ns n,
    eq_iff name k,
  )

  none_waits :
      (ns name node : String) (time : DateTime) (rows : List PodRow)
      → All
          (λ row. has_key ns name row ≡ false)
          (filter unbound (set_node e j ns name node time rows))
  unfolding set_node has_key
  none_waits ns name node time [] = tt
  none_waits ns name node time (r ∷ rows) = elim (Bool-cases (has_key ns name r)) [
    | inl k ↦ rw k (none_waits ns name node time rows)
    | inr k ↦ rw k (elim (Bool-cases (unbound r)) [
      | inl u ↦ rw u (k, none_waits ns name node time rows)
      | inr u ↦ rw u (none_waits ns name node time rows)
    ])
  ]

  listed :
      (ns name : String) (rows : List PodRow)
      → All (λ row. has_key ns name row ≡ false) rows
      → All
          (λ p. ¬ ((namespace_of p.metadata ≡ ns) × (name_of p.metadata ≡ name)))
          (map (row_to_pod j) rows)
  unfolding row_to_pod
  listed ns name [] all = tt
  listed ns name (r ∷ rows) all =
      (λ key. false≢true (sym all.0 ∙ (has_key_iff ns name r).1 key), listed ns name rows all.1)

  -- `bind_to_node`, where the database takes its statement, succeeds: the row of the key, if there
  -- is one, gets the node, and every other key keeps its row.
  pub bind_to_node_lem :
      (ns name node : String) (w : World)
      → e.faults w.statements ≡ false
      → (after : List PodRow) × (bind_to_node e j ns name node w
          ≡ (ok tt, record w { statements = w.statements + 1; pods = after }))
        × ((n k : String)
            → find (has_key n k) after ≡ (
                if ns == n && name == k
                then map_or (find (has_key n k) w.pods) none (λ row.
                  some (record row { node_name = some node; updated_at = e.clock w.statements }))
                else find (has_key n k) w.pods))
  unfolding bind_to_node query
  bind_to_node_lem ns name node w f = (
    set_node e j ns name node (e.clock w.statements) w.pods,
    rw f refl,
    λ n k. find-set_node ns name node n k (e.clock w.statements) w.pods,
  )

  -- A `list_unscheduled` that follows a `bind_to_node`, where the database takes both statements,
  -- succeeds, and no pod that it lists has the key that was bound.
  pub list_unscheduled-bind_to_node :
      (ns name node : String) (w : World)
      → e.faults w.statements ≡ false
      → e.faults (w.statements + 1) ≡ false
      → (pods : List Pod) × (((bind_to_node e j ns name node >> list_unscheduled e j) w).0
          ≡ ok pods)
        × All (λ p. ¬ ((namespace_of p.metadata ≡ ns) × (name_of p.metadata ≡ name))) pods
  unfolding bind_to_node list_unscheduled query
  list_unscheduled-bind_to_node ns name node w f f1 =
      let rows = filter unbound (set_node e j ns name node (e.clock w.statements) w.pods) in
      (
        map (row_to_pod j) (order_asc rows),
        rw (f, f1) refl,
        listed ns name (order_asc rows)
            (order_asc-All _ rows (none_waits ns name node (e.clock w.statements) w.pods)),
      )
