-- ===== src/Retrieval/Graph/Shown.antt =====
-- What `retrieve_graph` returns, against the rows of the database.
use mathlib.Core.List.{Memᴰ}
use hangar_ia.Prelude.{
  ℕ, ◌≤◌, min, max, ◌∙◌, String, ◌≡◌, refl, sym, IsRanked, Bool, true, false, ◌&&◌, Option-cases,
  inl, inr, some, and_then-eq-some, some_inj, List, [], ◌∷◌, map, filter, take, length, All,
  All-filter_imp, All-sort_by, All-take, Memᴰ-All, ok, is_blank, nat_eq, string_eq, sort_by,
  take-sort_by-IsTop, arith, subst,
}
use hangar_ia.Platform.{Uuid, Platform, find_row}
use hangar_ia.Types.Ingestion.{Document}
use hangar_ia.Types.Projections.{
  DocumentChunk, GraphManifest, GraphEntity, GraphEdge, GraphEdgeEvidence,
}
use hangar_ia.Floats.{Floats}
use hangar_ia.Database.{Database}
use hangar_ia.Scope.{in_scope}
use hangar_ia.Graph.{Letters}
use hangar_ia.Graph.Traversal.{GraphCandidate, map_by}
use hangar_ia.Graph.Traversal.Reached.{
  All-values, IsStoredEdge, IsStoredProof, graph_candidates_total,
}
use hangar_ia.Graph.Traversal.Proposals.{IsProposal}
use hangar_ia.Retrieval.Graph.Found.{map_by-found, guard-some}
use hangar_ia.Projections.Publish.{is_open_document, chunks_by_id, documents_by_id}
use hangar_ia.Retrieval.Chunks.{candidate_limit}
use hangar_ia.Retrieval.Graph.{
  GraphResult, graph_result, fewer_hops, is_shown_graph, entities_by_id, show_candidate,
  show_candidates, retrieve_graph,
}

-- A value of a table, under some key.
abbrev pub IsStored : {K V : Type 0} → List (K × V) → V → Type 0
IsStored {K} rows v = (key : K) × Memᴰ (key, v) rows

-- What `map` lists has the property that the rows give it.
listed :
    {K V : Type 0} (P : V → Type 0) (rows : List (K × V))
    → ((row : K × V) → Memᴰ row rows → P row.1)
    → All P (map (λ row. row.1) rows)
listed {K} {V} P rows h = All-values P rows (Memᴰ-All (λ (row : K × V). P row.1) rows h)

-- What a map by id of all the values of a table finds is a value of the table, and has the id.
find_value :
    {K V : Type 0} (id_of : V → Uuid) (rows : List (K × V)) (id : Uuid) (v : V)
    → find_row id (map_by id_of [] (map (λ row. row.1) rows)) ≡ some v
    → (id_of v ≡ id) × IsStored rows v
find_value id_of rows id v found =
    map_by-found (IsStored rows) id_of (map (λ row. row.1) rows) id v
      (listed (IsStored rows) rows (λ row m. (row.0, m))) found

module _ (p : Platform) (o w : String) (max_hops : ℕ) (db : Database p) where
  -- A relation between two entities of the workspace, as a chunk of a done document of the workspace
  -- with a ready manifest gives evidence for it.
  pub record IsShown (r : GraphResult) : Type 0 where
    pub chunk : DocumentChunk
    pub document : Document
    pub manifest : GraphManifest
    pub evidence : GraphEdgeEvidence
    pub edge : GraphEdge
    pub source : GraphEntity
    pub target : GraphEntity
    pub hops : ℕ
    pub edge_id : Uuid
    -- the edge is stored, and its ends are entities of the workspace
    pub edge_stored : p.uuids.get edge_id db.graph_edges ≡ some edge
    pub source_stored : IsStored (p.texts.rows db.graph_entities) source
    pub source_inside : in_scope source.organization_id source.workspace_id o w ≡ true
    pub source_id : source.id ≡ edge.source_entity_id
    pub target_stored : IsStored (p.texts.rows db.graph_entities) target
    pub target_inside : in_scope target.organization_id target.workspace_id o w ≡ true
    pub target_id : target.id ≡ edge.target_entity_id
    -- the chunk is evidence for the edge
    pub evidence_stored : IsStored (p.texts.rows db.graph_edge_evidence) evidence
    pub evidence_edge : evidence.edge_id ≡ edge_id
    pub evidence_chunk : evidence.chunk_id ≡ chunk.id
    pub chunk_stored : IsStored (p.texts.rows db.chunks) chunk
    -- the document of the chunk is done and the graph of the chunk is ready
    pub document_stored : IsStored (p.uuids.rows db.documents) document
    pub document_id : document.id ≡ chunk.document_id
    pub open_document : is_open_document o w document ≡ true
    pub manifest_stored : p.uuids.get chunk.id db.graph_manifests ≡ some manifest
    pub ready : is_shown_graph p o w manifest ≡ true
    pub some_hop : 1 ≤ hops
    pub few_hops : hops ≤ max 1 (min max_hops 3)
    pub read_off : r ≡ graph_result hops chunk document edge source target

  find_entity :
      (id : Uuid) (entity : GraphEntity)
      → find_row id (entities_by_id p o w db) ≡ some entity
      → (entity.id ≡ id)
        × IsStored (p.texts.rows db.graph_entities) entity
        × (in_scope entity.organization_id entity.workspace_id o w ≡ true)
  find_entity id entity found =
      let rows = p.texts.rows db.graph_entities in
      let test : GraphEntity → Bool =
        λ entity. in_scope entity.organization_id entity.workspace_id o w in
      let all = map (λ (row : String × GraphEntity). row.1) rows in
      let inside : GraphEntity → Type 0 = λ entity. IsStored rows entity × (test entity ≡ true) in
      let (same, kept) =
        map_by-found inside (λ (entity : GraphEntity). entity.id) (filter test all) id entity
          (All-filter_imp (IsStored rows) inside test all (λ entity kept passes. (kept, passes))
            (listed (IsStored rows) rows (λ row m. (row.0, m))))
          found in
      (same, kept.0, kept.1)

  module _ (letters : Letters) (floats : Floats) where
    abbrev IsProposed : GraphCandidate → Type 0
    IsProposed c =
        IsProposal floats (map (λ row. row.1) (p.texts.rows db.graph_edge_evidence))
          (IsStoredEdge p letters floats o w db) (IsStoredProof p letters floats db)
          (max 1 (min max_hops 3)) c

    show_candidate-IsShown :
        (c : GraphCandidate) (r : GraphResult)
        → IsProposed c
        → show_candidate p o w db c ≡ some r
        → IsShown r
    unfolding show_candidate
    show_candidate-IsShown c r proposal h =
        let (chunk, found, h₁) = and_then-eq-some (find_row c.chunk_id (chunks_by_id p db)) _ h in
        let (document, owner, h₂) =
          and_then-eq-some (find_row chunk.document_id (documents_by_id p db)) _ h₁ in
        let (manifest, kept, h₃) =
          and_then-eq-some (p.uuids.get c.chunk_id db.graph_manifests) _ h₂ in
        let (passes, h₄) =
          guard-some (is_open_document o w document && is_shown_graph p o w manifest) _ h₃ in
        let (edge, edge_kept, h₅) = and_then-eq-some (p.uuids.get c.edge_id db.graph_edges) _ h₄ in
        let (source, source_found, h₆) =
          and_then-eq-some (find_row edge.source_entity_id (entities_by_id p o w db)) _ h₅ in
        let (target, target_found, h₇) =
          and_then-eq-some (find_row edge.target_entity_id (entities_by_id p o w db)) _ h₆ in
        let (same_chunk, chunk_kept) =
          find_value (λ (chunk : DocumentChunk). chunk.id) (p.texts.rows db.chunks) c.chunk_id chunk
            found in
        let (same_document, document_kept) =
          find_value (λ (document : Document). document.id) (p.uuids.rows db.documents)
            chunk.document_id document owner in
        let (source_id, source_kept, source_inside) =
          find_entity edge.source_entity_id source source_found in
        let (target_id, target_kept, target_inside) =
          find_entity edge.target_entity_id target target_found in
        record {
          chunk = chunk;
          document = document;
          manifest = manifest;
          evidence = proposal.proof;
          edge = edge;
          source = source;
          target = target;
          hops = c.hops;
          edge_id = c.edge_id;
          edge_stored = edge_kept;
          source_stored = source_kept;
          source_inside = source_inside;
          source_id = source_id;
          target_stored = target_kept;
          target_inside = target_inside;
          target_id = target_id;
          evidence_stored = (proposal.is_proof.key, proposal.is_proof.stored);
          evidence_edge = proposal.of_edge ∙ sym proposal.edge_id;
          evidence_chunk = sym proposal.chunk_id ∙ sym same_chunk;
          chunk_stored = chunk_kept;
          document_stored = document_kept;
          document_id = same_document;
          open_document = ground (arith, passes);
          manifest_stored =
              subst (λ k. p.uuids.get k db.graph_manifests ≡ some manifest) (sym same_chunk) kept;
          ready = ground (arith, passes);
          some_hop = proposal.some_hop;
          few_hops = proposal.few_hops;
          read_off = sym (some_inj h₇);
        }

    show_candidates-IsShown :
        (cs : List GraphCandidate) → All IsProposed cs → All IsShown (show_candidates p o w db cs)
    unfolding show_candidates
    show_candidates-IsShown [] h = tt
    show_candidates-IsShown (c ∷ cs) h = elim (Option-cases (show_candidate p o w db c)) [
      | inl hidden ↦ rw hidden (show_candidates-IsShown cs h.1)
      | inr (r, shown) ↦
          rw shown (show_candidate-IsShown c r h.0 shown, show_candidates-IsShown cs h.1)
    ]

fewer_hops_total : (x y : GraphResult) → fewer_hops x y ≡ false → fewer_hops y x ≡ true
fewer_hops_total x y h = ground arith

fewer_hops_trans :
    (x y z : GraphResult) → fewer_hops x y ≡ true → fewer_hops y z ≡ true → fewer_hops x z ≡ true
fewer_hops_trans x y z h k = ground arith

-- With a query that is not blank a retrieval from the graph succeeds. Each result is a stored edge
-- with the two entities at its ends, both of the workspace, and a stored chunk that stored evidence
-- gives for that edge; the document of the chunk is done and of the workspace, its manifest is ready,
-- and its hops are at least one and at most the bound of the request, which is cut to one to three.
-- There are at most as many results as the limit, those with fewer hops first.
pub retrieve_graph-IsShown :
    (p : Platform) (letters : Letters) (floats : Floats) (o w query : String) (limit max_hops : ℕ)
    (db : Database p)
    → is_blank query ≡ false
    → (results : List GraphResult) × (retrieve_graph p o w letters floats query limit max_hops db
        ≡ ok results)
      × (length results ≤ limit)
      × IsRanked fewer_hops results
      × All (IsShown p o w max_hops db) results
unfolding retrieve_graph
retrieve_graph-IsShown p letters floats o w query limit max_hops db words =
    let (candidates, found, is_found) =
      graph_candidates_total p letters floats o w query (candidate_limit limit) max_hops db in
    let shown = show_candidates p o w db candidates in
    let top = take-sort_by-IsTop fewer_hops fewer_hops_total fewer_hops_trans limit shown in
    (
      take limit (sort_by fewer_hops shown),
      rw (words, found) refl,
      top.bounded,
      top.ranked,
      All-take (IsShown p o w max_hops db) limit (sort_by fewer_hops shown) (
          All-sort_by (IsShown p o w max_hops db) fewer_hops shown (
            show_candidates-IsShown p o w max_hops db letters floats candidates
              is_found.proposals)),
    )
