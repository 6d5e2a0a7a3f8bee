-- ===== src/Retrieval/Graph.antt =====
-- `retrieve_graph` of packages/hangar-server/src/store.rs: the relations that a query leads to, with
-- the chunks that are evidence for them.
pub mod Found
pub mod Shown
use hangar_ia.Prelude.{
  ℕ, String, Bool, true, false, not, ◌&&◌, Option, none, some, and_then, cons_some, List, [], ◌∷◌,
  map, filter, take, Outcome, ok, err, ensure, ◌>>◌, is_blank, leb, ◌==◌, nat_eq, sort_by,
  if◌then◌else◌, string_eq,
}
use hangar_ia.Platform.{Uuid, Platform, find_row}
use hangar_ia.Types.Ingestion.{Document}
use hangar_ia.Types.Projections.{DocumentChunk, GraphManifest, GraphEntity, GraphEdge}
use hangar_ia.Floats.{Floats}
use hangar_ia.Database.{Database}
use hangar_ia.Scope.{in_scope}
use hangar_ia.Ingestion.Jobs.{ingestion_pipeline_version}
use hangar_ia.Graph.{Letters}
use hangar_ia.Graph.Traversal.{GraphCandidate, map_by, graph_candidates}
use hangar_ia.Projections.Publish.{is_open_document, is_ready_graph, chunks_by_id, documents_by_id}
use hangar_ia.Retrieval.Chunks.{candidate_limit}

-- The confidence is the bits of an f32.
pub record GraphResult : Type 0 where
  pub source_entity : String
  pub target_entity : String
  pub relation_type : String
  pub confidence : ℕ
  pub hops : ℕ
  pub document_id : Uuid
  pub document_name : String
  pub source : Option String
  pub ordinal : ℕ
  pub content : String

abbrev pub graph_result :
    ℕ → DocumentChunk → Document → GraphEdge → GraphEntity → GraphEntity → GraphResult
graph_result hops chunk document edge source_entity target_entity = record {
  source_entity = source_entity.display_name;
  target_entity = target_entity.display_name;
  relation_type = edge.relation_type;
  confidence = edge.confidence;
  hops = hops;
  document_id = document.id;
  document_name = document.name;
  source = document.source;
  ordinal = chunk.ordinal;
  content = chunk.content;
}

-- `left.hops.cmp(&right.hops)` is not `Greater`
abbrev pub fewer_hops : GraphResult → GraphResult → Bool
fewer_hops left right = leb left.hops right.hops

module _ (p : Platform) (organization_id workspace_id : String) where
  -- Unlike `is_current_graph`, without the extractor and its version.
  abbrev pub is_shown_graph : GraphManifest → Bool
  is_shown_graph manifest =
      in_scope manifest.organization_id manifest.workspace_id organization_id workspace_id
      && (is_ready_graph manifest.state && manifest.pipeline_version == ingestion_pipeline_version)

  abbrev pub entities_by_id : Database p → List (Uuid × GraphEntity)
  entities_by_id db =
      map_by (λ (entity : GraphEntity). entity.id) []
        (filter
          (λ (entity : GraphEntity).
            in_scope entity.organization_id entity.workspace_id organization_id workspace_id)
          (map (λ row. row.1) (p.texts.rows db.graph_entities)))

  -- The body of the loop over the candidates.
  unfoldable pub show_candidate : Database p → GraphCandidate → Option GraphResult
  show_candidate db candidate = and_then (find_row candidate.chunk_id (chunks_by_id p db)) (λ chunk.
      and_then (find_row chunk.document_id (documents_by_id p db)) (λ document.
        and_then (p.uuids.get candidate.chunk_id db.graph_manifests) (λ manifest.
          if not (is_open_document organization_id workspace_id document && is_shown_graph manifest)
          then none
          else and_then (p.uuids.get candidate.edge_id db.graph_edges) (λ (edge : GraphEdge).
            and_then (find_row edge.source_entity_id (entities_by_id db)) (λ source_entity.
              and_then (find_row edge.target_entity_id (entities_by_id db)) (λ target_entity.
                some (
                  graph_result candidate.hops chunk document edge source_entity target_entity)))))))

  unfoldable pub show_candidates : Database p → List GraphCandidate → List GraphResult
  show_candidates db [] = []
  show_candidates db (candidate ∷ rest) =
      cons_some (show_candidate db candidate) (show_candidates db rest)

  unfoldable pub retrieve_graph :
      Letters → Floats → String → ℕ → ℕ → Database p → Outcome (List GraphResult)
  retrieve_graph letters floats query limit max_hops db = do
    ensure (not (is_blank query)) "query cannot be empty"
    elim (graph_candidates p letters floats organization_id workspace_id query
        (candidate_limit limit) max_hops db) [
          | none ↦ err "out of fuel"
          | some candidates ↦ ok (take limit (sort_by fewer_hops (show_candidates db candidates)))
        ]
