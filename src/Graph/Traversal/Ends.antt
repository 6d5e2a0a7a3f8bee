-- ===== src/Graph/Traversal/Ends.antt =====
-- The rounds of the walk of `graph_candidates`, counted against its fuel.
use hangar_ia.Prelude.{
  ℕ, zero, suc, ◌+◌, ◌-◌, ◌≤◌, ◌<◌, ◌≡◌, refl, ap, ◌∙◌, Bool-cases, inl, inr, List, [], List-cases,
  ◌∷◌, length, length-append, arith, nat_eq, leb, ltb, is_none_or, ◌||◌,
}
use hangar_ia.Platform.{Uuid, find_row}
use hangar_ia.Types.Projections.{GraphEdge, GraphEdgeEvidence}
use hangar_ia.Floats.{Floats}
use hangar_ia.Graph.Traversal.{
  Walk, done, touches, other_end, reach, traverse_edge, traverse_edges, visit, walk_graph,
  graph_max_traversed_edges,
}

-- The rounds that a walk may still take.
abbrev pub work : Walk → ℕ
work walk = length walk.frontier + (graph_max_traversed_edges - walk.traversed_edges)

reach-length :
    (next hops : ℕ) (walk : Walk)
    → length (reach next hops walk).frontier ≤ length walk.frontier + 1
unfolding reach
reach-length next hops walk =
    elim (Bool-cases (is_none_or (λ existing. ltb hops existing) (find_row next walk.visited))) [
      | inl new ↦ rw new (omega (arith, length-append walk.frontier ((next, hops) ∷ [])))
      | inr known ↦ rw known (omega arith)
    ]

module _ (floats : Floats) (evidence : List GraphEdgeEvidence) where
  traverse_edge-work :
      (v hops : ℕ) (edge : GraphEdge) (walk : Walk)
      → walk.traversed_edges < graph_max_traversed_edges
      → (work (traverse_edge floats evidence v hops edge walk) ≤ work walk)
        × ((traverse_edge floats evidence v hops edge walk).traversed_edges
            ≡ walk.traversed_edges + 1)
  unfolding traverse_edge
  traverse_edge-work v hops edge walk room =
      (omega (arith, reach-length (other_end v edge) (hops + 1) walk), refl)

  traverse_edges-work :
      (v hops : ℕ) (edges : List GraphEdge) (walk : Walk)
      → walk.traversed_edges < graph_max_traversed_edges
      → (work (traverse_edges floats evidence v hops edges walk) ≤ work walk)
        × ((traverse_edges floats evidence v hops edges walk).traversed_edges
            ≤ graph_max_traversed_edges)
  unfolding traverse_edges
  traverse_edges-work v hops [] walk room = (omega arith, omega arith)
  traverse_edges-work v hops (edge ∷ rest) walk room =
      let walk' = traverse_edge floats evidence v hops edge walk in
      let step = traverse_edge-work v hops edge walk room in
      elim (Bool-cases (touches v edge)) [
        | inr skipped ↦ rw skipped (traverse_edges-work v hops rest walk room)
        | inl taken ↦ elim (Bool-cases (leb graph_max_traversed_edges walk'.traversed_edges)) [
          | inl full ↦ rw (taken, full) (step.0, omega (arith, step.1))
          | inr more ↦
              let below : walk'.traversed_edges < graph_max_traversed_edges =
                ground (arith, more) in
              let later = traverse_edges-work v hops rest walk' below in
              rw (taken, more) (omega (arith, later.0, step.0), later.1)
        ]
      ]

  visit-work :
      (edges : List GraphEdge) (max_hops v hops : ℕ) (walk : Walk)
      → walk.traversed_edges ≤ graph_max_traversed_edges
      → (work (visit floats evidence edges max_hops v hops walk) ≤ work walk)
        × ((visit floats evidence edges max_hops v hops walk).traversed_edges
            ≤ graph_max_traversed_edges)
  unfolding visit
  visit-work edges max_hops v hops walk bound =
      elim (Bool-cases (leb max_hops hops || leb graph_max_traversed_edges walk.traversed_edges)) [
        | inl stopped ↦ rw stopped (omega arith, bound)
        | inr going ↦ rw going (traverse_edges-work v hops edges walk (ground (arith, going)))
      ]

  -- The two rounds of the `while`.
  pub walk_graph-empty :
      (fuel : ℕ) (edges : List GraphEdge) (max_hops : ℕ) (walk : Walk)
      → walk.frontier ≡ []
      → walk_graph floats evidence fuel edges max_hops walk ≡ done walk
  unfolding walk_graph
  walk_graph-empty zero edges max_hops walk e = simp (e, walk_graph)
  walk_graph-empty (suc fuel) edges max_hops walk e = simp (e, walk_graph)

  pub walk_graph-next :
      (fuel : ℕ) (edges : List GraphEdge) (max_hops v hops : ℕ) (rest : List (Uuid × ℕ))
      (walk : Walk)
      → walk.frontier ≡ (v, hops) ∷ rest
      → walk_graph floats evidence (suc fuel) edges max_hops walk
        ≡ walk_graph floats evidence fuel edges max_hops
            (visit floats evidence edges max_hops v hops (record walk { frontier = rest }))
  unfolding walk_graph
  walk_graph-next fuel edges max_hops v hops rest walk e = ground (arith, e)

  -- A walk that has at least as much fuel as work comes to its end, with an empty queue and no more
  -- edges traversed than the bound.
  pub walk_graph_ends :
      (fuel : ℕ) (edges : List GraphEdge) (max_hops : ℕ) (walk : Walk)
      → walk.traversed_edges ≤ graph_max_traversed_edges
      → work walk ≤ fuel
      → (walk' : Walk) × (walk_graph floats evidence fuel edges max_hops walk ≡ done walk')
        × (walk'.frontier ≡ [])
        × (walk'.traversed_edges ≤ graph_max_traversed_edges)
  walk_graph_ends zero edges max_hops walk bound enough = elim (List-cases walk.frontier) [
    | inl empty ↦ (walk, walk_graph-empty zero edges max_hops walk empty, empty, bound)
    | inr (x, rest, e) ↦ absurd (omega (arith, ap length e))
  ]
  walk_graph_ends (suc fuel) edges max_hops walk bound enough = elim (List-cases walk.frontier) [
    | inl empty ↦ (walk, walk_graph-empty (suc fuel) edges max_hops walk empty, empty, bound)
    | inr ((v, hops), rest, e) ↦
        let popped = record walk { frontier = rest } in
        let step = visit-work edges max_hops v hops popped bound in
        let next = visit floats evidence edges max_hops v hops popped in
        let (last, ends, drained, within) =
          walk_graph_ends fuel edges max_hops next step.1 (omega (arith, step.0, ap length e)) in
        (last, walk_graph-next fuel edges max_hops v hops rest walk e ∙ ends, drained, within)
  ]
