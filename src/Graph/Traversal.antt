-- ===== src/Graph/Traversal.antt =====
-- `graph_candidates` of packages/hangar-server/src/store.rs: a bounded walk over the edges of a
-- workspace, from the entities that a query names to the chunks that are evidence for the edges.
pub mod Ends
pub mod Proposals
pub mod Reached
use hangar_ia.Prelude.{
  ℕ, zero, suc, ◌+◌, min, max, String, Bool, true, false, not, ◌&&◌, ◌||◌, Option, none, some, List,
  [], ◌∷◌, ◌++◌, map, filter, length, take, is_empty, is_none_or, ltb, leb, ◌==◌, nat_eq, string_eq,
  sort_by, put, if◌then◌else◌,
}
use hangar_ia.Platform.{Uuid, Platform, find_row}
use hangar_ia.Types.Projections.{GraphEntity, GraphEdge, GraphEdgeEvidence}
use hangar_ia.Floats.{Floats}
use hangar_ia.Database.{Database}
use hangar_ia.Scope.{in_scope}
use hangar_ia.Graph.{Letters, query_terms, contains}

abbrev pub graph_max_hops : ℕ
graph_max_hops = 3

abbrev pub graph_max_traversed_edges : ℕ
graph_max_traversed_edges = 128

pub record GraphCandidate : Type 0 where
  pub edge_id : Uuid
  pub chunk_id : Uuid
  pub score : ℕ
  pub hops : ℕ

-- The variables of the loop.
pub record Walk : Type 0 where
  pub frontier : List (Uuid × ℕ)
  pub visited : List (Uuid × ℕ)
  pub candidates : List (Uuid × GraphCandidate)
  pub traversed_edges : ℕ

pub data Walked : Type 0 where
  done : Walk → Walked
  out_of_fuel : Walked

-- A map from ids, to which the rows are added one after another.
unfoldable pub map_by {ℓ} : {A : Type ℓ} → (A → Uuid) → List (Uuid × A) → List A → List (Uuid × A)
map_by id_of rows [] = rows
map_by id_of rows (a ∷ rest) = map_by id_of (put (id_of a) a rows) rest

abbrev pub touches : Uuid → GraphEdge → Bool
touches entity_id edge = edge.source_entity_id == entity_id || edge.target_entity_id == entity_id

abbrev pub other_end : Uuid → GraphEdge → Uuid
other_end entity_id edge =
    if edge.source_entity_id == entity_id then edge.target_entity_id else edge.source_entity_id

-- A vertex that was reached by no shorter way is queued.
unfoldable pub reach : Uuid → ℕ → Walk → Walk
reach next next_hops walk =
    if is_none_or (λ existing. ltb next_hops existing) (find_row next walk.visited)
    then record walk {
      visited = (next, next_hops) ∷ walk.visited;
      frontier = walk.frontier ++ ((next, next_hops) ∷ []);
    }
    else walk

module _ (floats : Floats) (evidence : List GraphEdgeEvidence) where
  -- The better candidate of a chunk stays.
  unfoldable pub offer_candidate :
      GraphCandidate → List (Uuid × GraphCandidate) → List (Uuid × GraphCandidate)
  offer_candidate candidate candidates =
      if is_none_or (λ (current : GraphCandidate). floats.greater candidate.score current.score)
        (find_row candidate.chunk_id candidates)
      then put candidate.chunk_id candidate candidates
      else candidates

  abbrev pub candidate_for : GraphEdge → ℕ → GraphEdgeEvidence → GraphCandidate
  candidate_for edge next_hops e = record {
    edge_id = edge.id;
    chunk_id = e.chunk_id;
    score = floats.div edge.confidence (floats.of_usize next_hops);
    hops = next_hops;
  }

  -- The loop over the evidence of an edge.
  unfoldable pub offer_evidence :
      GraphEdge
      → ℕ
      → List GraphEdgeEvidence
      → List (Uuid × GraphCandidate)
      → List (Uuid × GraphCandidate)
  offer_evidence edge next_hops [] candidates = candidates
  offer_evidence edge next_hops (e ∷ rest) candidates =
      offer_evidence edge next_hops rest
        (offer_candidate (candidate_for edge next_hops e) candidates)

  abbrev pub evidence_of : GraphEdge → List GraphEdgeEvidence
  evidence_of edge = filter (λ (e : GraphEdgeEvidence). e.edge_id == edge.id) evidence

  -- The body of the loop over the edges.
  unfoldable pub traverse_edge : Uuid → ℕ → GraphEdge → Walk → Walk
  traverse_edge entity_id hops edge walk =
      let next_hops = hops + 1 in
      let reached = reach (other_end entity_id edge) next_hops walk in
      record reached {
        traversed_edges = walk.traversed_edges + 1;
        candidates = offer_evidence edge next_hops (evidence_of edge) walk.candidates;
      }

  unfoldable pub traverse_edges : Uuid → ℕ → List GraphEdge → Walk → Walk
  traverse_edges entity_id hops [] walk = walk
  traverse_edges entity_id hops (edge ∷ rest) walk =
      let skipped = traverse_edges entity_id hops rest walk in
      let walk' = traverse_edge entity_id hops edge walk in
      let more = traverse_edges entity_id hops rest walk' in
      if touches entity_id edge
      then if leb graph_max_traversed_edges walk'.traversed_edges then walk' else more
      else skipped

  -- The body of the `while`, for a vertex that was taken from the queue.
  unfoldable pub visit : List GraphEdge → ℕ → Uuid → ℕ → Walk → Walk
  visit edges max_hops entity_id hops walk =
      if leb max_hops hops || leb graph_max_traversed_edges walk.traversed_edges
      then walk
      else traverse_edges entity_id hops edges walk

  unfoldable pub walk_graph : ℕ → List GraphEdge → ℕ → Walk → Walked
  walk_graph zero edges max_hops walk = elim walk.frontier [ [] ↦ done walk | _ ↦ out_of_fuel ]
  walk_graph (suc fuel) edges max_hops walk = elim walk.frontier [
    | [] ↦ done walk
    | (entity_id, hops) ∷ rest ↦
        walk_graph fuel edges max_hops
          (visit edges max_hops entity_id hops (record walk { frontier = rest }))
  ]

-- `right.score.total_cmp(&left.score)` is not `Greater`
abbrev pub better_first : Floats → GraphCandidate → GraphCandidate → Bool
better_first floats left right = floats.total_le right.score left.score

module _ (p : Platform) (letters : Letters) (floats : Floats) where
  abbrev pub scoped_edges : String → String → Database p → List GraphEdge
  scoped_edges organization_id workspace_id db =
      map (λ row. row.1)
        (map_by (λ (edge : GraphEdge). edge.id) []
          (filter
            (λ (edge : GraphEdge).
              in_scope edge.organization_id edge.workspace_id organization_id workspace_id)
            (map (λ row. row.1) (p.uuids.rows db.graph_edges))))

  abbrev pub scoped_entities : String → String → Database p → List GraphEntity
  scoped_entities organization_id workspace_id db =
      map (λ row. row.1)
        (map_by (λ (entity : GraphEntity). entity.id) []
          (filter
            (λ (entity : GraphEntity).
              in_scope entity.organization_id entity.workspace_id organization_id workspace_id)
            (map (λ row. row.1) (p.texts.rows db.graph_entities))))

  -- The entities that the query names, at no distance.
  unfoldable pub seeds : List String → String → String → Database p → List (Uuid × ℕ)
  seeds terms organization_id workspace_id db =
      map (λ (entity : GraphEntity). (entity.id, 0))
        (filter (λ (entity : GraphEntity). contains terms entity.normalized_name)
          (scoped_entities organization_id workspace_id db))

  -- The fuel is one round for each seed and for each edge that may be traversed; `none` says that it
  -- ran out.
  unfoldable pub graph_candidates :
      String → String → String → ℕ → ℕ → Database p → Option (List GraphCandidate)
  graph_candidates organization_id workspace_id query limit max_hops db =
      let terms = query_terms letters query in
      let first = seeds terms organization_id workspace_id db in
      let evidence = map (λ row. row.1) (p.texts.rows db.graph_edge_evidence) in
      if is_empty terms
      then some []
      else elim (walk_graph floats evidence (length first + graph_max_traversed_edges)
          (scoped_edges organization_id workspace_id db) (max 1 (min max_hops graph_max_hops))
          (record { frontier = first; visited = first; candidates = []; traversed_edges = 0 })) [
            | out_of_fuel ↦ none
            | done walk ↦
                some
                  (take limit (sort_by (better_first floats) (map (λ row. row.1) walk.candidates)))
          ]
