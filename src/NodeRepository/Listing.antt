-- ===== src/NodeRepository/Listing.antt =====
-- What `NodeRepository::list_ready` lists.
use superkube.Base.{
  Elem-filter, ◌∙◌, ◌+◌, ◌≡◌, refl, ap, Bool, true, false, List, [], ◌∷◌, All, Elem, ◌==◌, eq_iff,
  inl, inr, filter, map, ◌↔◌,
}
use superkube.Models.Node.{Node}
use superkube.Store.{Env, World, ok, query}
use superkube.Store.Rows.{Json, NodeRow}
use superkube.Store.Table.{order_desc, Elem-order_desc}
use superkube.NodeRepository.{row_to_node, list_ready}
use superkube.Scheduler.Labels.{is_node_ready}

abbrev is_ready_row : NodeRow → Bool
is_ready_row row = row.status == "Ready"

-- The elements of a mapped list come from elements of the list.
Elem-map :
    {A B : Type 0} (g : A → B) (xs : List A) (b : B)
    → Elem b (map g xs) ↔ ((a : A) × Elem a xs × (g a ≡ b))
Elem-map g [] b = (λ h. absurd h, λ (a, i, e). absurd i)
Elem-map g (x ∷ xs) b =
    let rest = Elem-map g xs b in
    (
      λ h. elim h [ inl e ↦ (x, inl refl, e) | inr t ↦ let (a, i, e) = rest.0 t in (a, inr i, e) ],
      λ (a, i, e). elim i [ inl x≡a ↦ inl (ap g x≡a ∙ e) | inr t ↦ inr (rest.1 (a, t, e)) ],
    )

module _ (e : Env) (j : Json) where
  listed-Ready :
      (rows : List NodeRow) → All (λ n. is_node_ready n ≡ true) (map (row_to_node j false) rows)
  unfolding row_to_node is_node_ready
  listed-Ready [] = tt
  listed-Ready (r ∷ rows) = (refl, listed-Ready rows)

  -- `list_ready`, where the database takes its statement, lists the nodes of the rows with status
  -- Ready and no others, and the scheduler's test for readiness lets all of them through.
  list_ready_lem :
      (w : World)
      → e.faults w.statements ≡ false
      → (nodes : List Node) × (list_ready e j w
          ≡ (ok nodes, record w { statements = w.statements + 1 }))
        × All (λ n. is_node_ready n ≡ true) nodes
        × ((n : Node)
            → Elem n nodes ↔ (
                (row : NodeRow) × (Elem row w.nodes × (row.status ≡ "Ready"))
                × (row_to_node j false row ≡ n)))
  unfolding list_ready query
  list_ready_lem w f =
      let rows = filter is_ready_row w.nodes in
      let sorted = order_desc (λ row. row.created_at) rows in
      let kept = λ (row : NodeRow). Elem-filter is_ready_row row w.nodes in
      let ordered = λ (row : NodeRow). Elem-order_desc (λ row. row.created_at) rows row in
      (
        map (row_to_node j false) sorted,
        rw f refl,
        listed-Ready sorted,
        λ n.
            let m = Elem-map (row_to_node j false) sorted n in
            (
              λ h.
                  let (row, i, back) = m.0 h in
                  let (there, ready) = (kept row).0 ((ordered row).0 i) in
                  (row, (there, (eq_iff row.status "Ready").0 ready), back),
              λ (row, (there, ready), back). m.1 (
                row,
                (ordered row).1 ((kept row).1 (there, (eq_iff row.status "Ready").1 ready)),
                back,
              ),
            ),
      )
