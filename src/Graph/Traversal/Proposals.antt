-- ===== src/Graph/Traversal/Proposals.antt =====
-- What the walk of `graph_candidates` proposes.
use hangar_ia.Prelude.{
  ℕ, zero, suc, ◌+◌, ◌≤◌, ◌<◌, ◌≡◌, refl, ◌≢◌, sym, ◌∙◌, subst, Bool-cases, inl, inr, List, [],
  List-cases, ◌∷◌, All, All-filter, All-filter_test, All-put, arith, leb, is_none_or, ◌||◌, ◌==◌,
  ==_iff, nat_eq, string_eq,
}
use hangar_ia.Platform.{Uuid, find_row}
use hangar_ia.Types.Projections.{GraphEdge, GraphEdgeEvidence}
use hangar_ia.Floats.{Floats}
use hangar_ia.Graph.Traversal.Ends.{walk_graph-empty, walk_graph-next}
use hangar_ia.Graph.Traversal.{
  GraphCandidate, Walk, Walked, done, touches, offer_candidate, candidate_for, offer_evidence,
  evidence_of, traverse_edge, traverse_edges, visit, walk_graph, graph_max_traversed_edges,
}

module _ (floats : Floats) (evidence : List GraphEdgeEvidence) (IsEdge : GraphEdge → Type 0)
    (IsProof : GraphEdgeEvidence → Type 0) (max_hops : ℕ) where
  -- A candidate names a chunk that is evidence for an edge, and scores the edge's confidence by the
  -- number of hops to it.
  pub record IsProposal (c : GraphCandidate) : Type 0 where
    pub edge : GraphEdge
    pub proof : GraphEdgeEvidence
    is_edge : IsEdge edge
    pub is_proof : IsProof proof
    pub of_edge : proof.edge_id ≡ edge.id
    pub edge_id : c.edge_id ≡ edge.id
    pub chunk_id : c.chunk_id ≡ proof.chunk_id
    score : c.score ≡ floats.div edge.confidence (floats.of_usize c.hops)
    pub some_hop : 1 ≤ c.hops
    pub few_hops : c.hops ≤ max_hops

  abbrev Proposed : List (Uuid × GraphCandidate) → Type 0
  Proposed rows = All (λ (row : Uuid × GraphCandidate). IsProposal row.1) rows

  offer_candidate-Proposed :
      (c : GraphCandidate) (rows : List (Uuid × GraphCandidate))
      → IsProposal c
      → Proposed rows
      → Proposed (offer_candidate floats evidence c rows)
  unfolding offer_candidate
  offer_candidate-Proposed c rows new old =
      elim (Bool-cases (
        is_none_or (λ (current : GraphCandidate). floats.greater c.score current.score)
          (find_row c.chunk_id rows))) [
            | inl better ↦ rw better (
                All-put (λ (row : Uuid × GraphCandidate). IsProposal row.1) c.chunk_id c rows new
                  old)
            | inr worse ↦ rw worse old
          ]

  offer_evidence-Proposed :
      (edge : GraphEdge) (hops : ℕ) (es : List GraphEdgeEvidence)
      (rows : List (Uuid × GraphCandidate))
      → IsEdge edge
      → 1 ≤ hops
      → hops ≤ max_hops
      → All IsProof es
      → All (λ (e : GraphEdgeEvidence). e.edge_id ≡ edge.id) es
      → Proposed rows
      → Proposed (offer_evidence floats evidence edge hops es rows)
  unfolding offer_evidence
  offer_evidence-Proposed edge hops [] rows he one few hs own old = old
  offer_evidence-Proposed edge hops (e ∷ es) rows he one few hs own old =
      offer_evidence-Proposed edge hops es
        (offer_candidate floats evidence (candidate_for floats evidence edge hops e) rows) he one
        few hs.1 own.1
        (offer_candidate-Proposed (candidate_for floats evidence edge hops e) rows
          (record {
            edge = edge;
            proof = e;
            is_edge = he;
            is_proof = hs.0;
            of_edge = own.0;
            edge_id = refl;
            chunk_id = refl;
            score = refl;
            some_hop = one;
            few_hops = few;
          })
          old)

  module _ (proofs : All IsProof evidence) where
    traverse_edge-Proposed :
        (v hops : ℕ) (edge : GraphEdge) (walk : Walk)
        → IsEdge edge
        → hops < max_hops
        → Proposed walk.candidates
        → Proposed (traverse_edge floats evidence v hops edge walk).candidates
    unfolding traverse_edge
    traverse_edge-Proposed v hops edge walk he below old =
        offer_evidence-Proposed edge (hops + 1) (evidence_of floats evidence edge) walk.candidates
          he (omega arith) (omega arith)
          (All-filter IsProof (λ (e : GraphEdgeEvidence). e.edge_id == edge.id) evidence proofs)
          (All-filter_test (λ (e : GraphEdgeEvidence). e.edge_id ≡ edge.id)
            (λ (e : GraphEdgeEvidence). e.edge_id == edge.id) evidence
            (λ e. (==_iff e.edge_id edge.id).0))
          old

    traverse_edges-Proposed :
        (v hops : ℕ) (edges : List GraphEdge) (walk : Walk)
        → All IsEdge edges
        → hops < max_hops
        → Proposed walk.candidates
        → Proposed (traverse_edges floats evidence v hops edges walk).candidates
    unfolding traverse_edges
    traverse_edges-Proposed v hops [] walk hs below old = old
    traverse_edges-Proposed v hops (edge ∷ rest) walk hs below old =
        let walk' = traverse_edge floats evidence v hops edge walk in
        let new = traverse_edge-Proposed v hops edge walk hs.0 below old in
        elim (Bool-cases (touches v edge)) [
          | inr skipped ↦ rw skipped (traverse_edges-Proposed v hops rest walk hs.1 below old)
          | inl taken ↦ elim (Bool-cases (leb graph_max_traversed_edges walk'.traversed_edges)) [
            | inl full ↦ rw (taken, full) new
            | inr more ↦ rw (taken, more) (traverse_edges-Proposed v hops rest walk' hs.1 below new)
          ]
        ]

    visit-Proposed :
        (edges : List GraphEdge) (v hops : ℕ) (walk : Walk)
        → All IsEdge edges
        → Proposed walk.candidates
        → Proposed (visit floats evidence edges max_hops v hops walk).candidates
    unfolding visit
    visit-Proposed edges v hops walk hs old =
        elim (Bool-cases
          (leb max_hops hops || leb graph_max_traversed_edges walk.traversed_edges)) [
            | inl stopped ↦ rw stopped old
            | inr going ↦
                rw going (traverse_edges-Proposed v hops edges walk hs (ground (arith, going)) old)
          ]

    done_inj : (a b : Walk) → Walked.done a ≡ done b → a ≡ b
    done_inj a b e = ground (arith, e)

    finished :
        (fuel : ℕ) (edges : List GraphEdge) (walk walk' : Walk)
        → walk.frontier ≡ []
        → walk_graph floats evidence fuel edges max_hops walk ≡ done walk'
        → Proposed walk.candidates
        → Proposed walk'.candidates
    finished fuel edges walk walk' empty h old =
        subst (λ (x : Walk). Proposed x.candidates)
          (done_inj walk walk'
            (sym (walk_graph-empty floats evidence fuel edges max_hops walk empty) ∙ h))
          old

    stuck :
        (edges : List GraphEdge) (walk walk' : Walk) (x : Uuid × ℕ) (rest : List (Uuid × ℕ))
        → walk.frontier ≡ x ∷ rest
        → walk_graph floats evidence zero edges max_hops walk ≢ done walk'
    unfolding walk_graph
    stuck edges walk walk' x rest e h = ground (arith, h, e)

    pub walk_graph-Proposed :
        (fuel : ℕ) (edges : List GraphEdge) (walk walk' : Walk)
        → All IsEdge edges
        → Proposed walk.candidates
        → walk_graph floats evidence fuel edges max_hops walk ≡ done walk'
        → Proposed walk'.candidates
    walk_graph-Proposed zero edges walk walk' hs old h = elim (List-cases walk.frontier) [
      | inl empty ↦ finished zero edges walk walk' empty h old
      | inr (x, rest, e) ↦ absurd (stuck edges walk walk' x rest e h)
    ]
    walk_graph-Proposed (suc fuel) edges walk walk' hs old h = elim (List-cases walk.frontier) [
      | inl empty ↦ finished (suc fuel) edges walk walk' empty h old
      | inr ((v, hops), rest, e) ↦
          let popped : Walk = record walk { frontier = rest } in
          walk_graph-Proposed fuel edges (visit floats evidence edges max_hops v hops popped) walk'
            hs (visit-Proposed edges v hops popped hs old)
            (sym (walk_graph-next floats evidence fuel edges max_hops v hops rest walk e) ∙ h)
    ]
