-- ===== src/Projections/Publish.antt =====
-- The index generations: the entries that canonical storage shows as ready, with those of a document
-- that is being processed (`ready_vector_entries`, `ready_text_entries`, `ready_graph_chunks` and the
-- publications of packages/hangar-server/src/store.rs).
use Prim.Native.String.{◌++◌ as append}
use hangar_ia.Prelude.{
  ℕ, String, Bool, true, false, not, ◌&&◌, Option, none, some, List, [], ◌∷◌, ◌++◌, map, length,
  any, Outcome, ok, ensure, ◌>>=◌, ◌>>◌, ◌==◌, nat_eq, string_eq, if◌then◌else◌,
}
use hangar_ia.Platform.{Uuid, Platform, find_row}
use hangar_ia.Types.Ingestion.{Document, IngestionStatus, succeeded}
use hangar_ia.Types.Projections.{
  DocumentChunk, VectorManifest, VectorProjectionState, TextManifest, TextProjectionState,
  TextGeneration, GraphManifest, GraphProjectionState,
}
use hangar_ia.Database.{Database}
use hangar_ia.Scope.{in_scope}
use hangar_ia.Ingestion.Jobs.{ingestion_pipeline_version}
use hangar_ia.Graph.{deterministic_extractor, extraction_version}
use hangar_ia.Graph.Store.{vector_scope_key}
use hangar_ia.Graph.Traversal.{map_by}
use hangar_ia.Projections.{EmbeddingProfile, matches_manifest, TextEntry, Indexing}

abbrev pub is_succeeded : IngestionStatus → Bool
is_succeeded succeeded = true
is_succeeded _ = false

abbrev pub is_ready_vector : VectorProjectionState → Bool
is_ready_vector VectorProjectionState.ready = true
is_ready_vector VectorProjectionState.pending = false

abbrev pub is_ready_text : TextProjectionState → Bool
is_ready_text TextProjectionState.ready = true
is_ready_text TextProjectionState.pending = false

abbrev pub is_ready_graph : GraphProjectionState → Bool
is_ready_graph GraphProjectionState.ready = true
is_ready_graph GraphProjectionState.pending = false

module _ (organization_id workspace_id : String) where
  -- The tests of a manifest of each kind.
  abbrev pub is_current_vector : EmbeddingProfile → VectorManifest → Bool
  is_current_vector profile manifest =
      in_scope manifest.organization_id manifest.workspace_id organization_id workspace_id
      && (is_ready_vector manifest.state
          && (matches_manifest profile manifest.provider manifest.model_revision manifest.dimensions
              && manifest.pipeline_version == ingestion_pipeline_version))

  abbrev pub is_current_text : TextManifest → Bool
  is_current_text manifest =
      in_scope manifest.organization_id manifest.workspace_id organization_id workspace_id
      && (is_ready_text manifest.state && manifest.pipeline_version == ingestion_pipeline_version)

  abbrev pub is_current_graph : GraphManifest → Bool
  is_current_graph manifest =
      in_scope manifest.organization_id manifest.workspace_id organization_id workspace_id
      && (is_ready_graph manifest.state
          && (manifest.pipeline_version == ingestion_pipeline_version
              && (manifest.extractor == deterministic_extractor
                  && manifest.extraction_version == extraction_version)))

  -- The tests of a document.
  abbrev pub is_open_document : Document → Bool
  is_open_document document =
      in_scope document.organization_id document.workspace_id organization_id workspace_id
      && is_succeeded document.ingestion_status

module _ (p : Platform) where
  -- `chunks_by_id` and `documents_by_id`
  abbrev pub chunks_by_id : Database p → List (Uuid × DocumentChunk)
  chunks_by_id db =
      map_by (λ (chunk : DocumentChunk). chunk.id) [] (map (λ row. row.1) (p.texts.rows db.chunks))

  abbrev pub documents_by_id : Database p → List (Uuid × Document)
  documents_by_id db =
      map_by (λ (document : Document). document.id) []
        (map (λ row. row.1) (p.uuids.rows db.documents))

  -- The chunk of a manifest, if it belongs to a document that may be read and still has the digest of
  -- the manifest.
  unfoldable pub readable_chunk :
      String → String → Uuid → String → Database p → Option DocumentChunk
  readable_chunk organization_id workspace_id chunk_id source_sha256 db =
      elim (find_row chunk_id (chunks_by_id db)) [
        | none ↦ none
        | some chunk ↦ elim (find_row chunk.document_id (documents_by_id db)) [
          | none ↦ none
          | some document ↦
              if is_open_document organization_id workspace_id document
                && source_sha256 == p.digest chunk.content
              then some chunk
              else none
        ]
      ]

  module _ (organization_id workspace_id : String) (db : Database p) where
    unfoldable pub text_entries_from : List (Uuid × TextManifest) → List TextEntry
    text_entries_from [] = []
    text_entries_from ((key, manifest) ∷ rest) =
        let later = text_entries_from rest in
        if is_current_text organization_id workspace_id manifest
        then elim (readable_chunk organization_id workspace_id manifest.chunk_id
            manifest.source_sha256 db) [
              | none ↦ later
              | some chunk ↦ (record { chunk_id = chunk.id; content = chunk.content }) ∷ later
            ]
        else later

    unfoldable pub ready_text_entries : List TextEntry
    ready_text_entries = text_entries_from (p.uuids.rows db.text_manifests)

    unfoldable pub graph_chunks_from : List (Uuid × GraphManifest) → List DocumentChunk
    graph_chunks_from [] = []
    graph_chunks_from ((key, manifest) ∷ rest) =
        let later = graph_chunks_from rest in
        if is_current_graph organization_id workspace_id manifest
        then elim (readable_chunk organization_id workspace_id manifest.chunk_id
            manifest.source_sha256 db) [ none ↦ later | some chunk ↦ chunk ∷ later ]
        else later

    unfoldable pub ready_graph_chunks : List DocumentChunk
    ready_graph_chunks = graph_chunks_from (p.uuids.rows db.graph_manifests)

  module _ (engine : Indexing) where
    open engine use {Vector, VectorFiles, TextFiles}

    abbrev is_seen : List ℕ → ℕ → Bool
    is_seen seen_keys key = any (λ other. key == other) seen_keys

    unfoldable pub vector_entries_from :
        String
        → String
        → Database p
        → List ℕ
        → List (Uuid × VectorManifest)
        → Outcome (List (ℕ × Vector))
    vector_entries_from organization_id workspace_id db seen_keys [] = ok []
    vector_entries_from organization_id workspace_id db seen_keys ((key, manifest) ∷ rest) =
        let skipped = vector_entries_from organization_id workspace_id db seen_keys rest in
        let later =
          vector_entries_from organization_id workspace_id db (manifest.ann_key ∷ seen_keys) rest in
        if is_current_vector organization_id workspace_id engine.profile manifest
        then elim (readable_chunk organization_id workspace_id manifest.chunk_id
            manifest.source_sha256 db) [
              | none ↦ skipped
              | some chunk ↦ if is_seen seen_keys manifest.ann_key then skipped else (do
                vector ← engine.embed chunk.content
                entries ← later
                ok ((manifest.ann_key, vector) ∷ entries))
            ]
        else skipped

    unfoldable pub ready_vector_entries : String → String → Database p → Outcome (List (ℕ × Vector))
    ready_vector_entries organization_id workspace_id db =
        vector_entries_from organization_id workspace_id db [] (p.uuids.rows db.vector_manifests)

    -- The keys of the pending entries must be new.
    unfoldable pub check_new_keys : List ℕ → List (ℕ × Vector) → Outcome (Unit {0})
    check_new_keys seen_keys [] = ok tt
    check_new_keys seen_keys ((key, vector) ∷ rest) = do
      ensure (not (is_seen seen_keys key)) "duplicate ANN key in vector generation"
      check_new_keys (key ∷ seen_keys) rest

    unfoldable pub publish_generation_with_pending :
        String → String → List (ℕ × Vector) → Database p → VectorFiles → Outcome VectorFiles
    publish_generation_with_pending organization_id workspace_id pending_entries db files = do
      entries ← ready_vector_entries organization_id workspace_id db
      check_new_keys (map (λ entry. entry.0) entries) pending_entries
      engine.publish_vectors organization_id workspace_id (entries ++ pending_entries) files

    unfoldable pub publish_text_generation_with_pending :
        Uuid → String → String → List TextEntry → Database p → TextFiles → Outcome TextFiles
    publish_text_generation_with_pending generation organization_id workspace_id pending_entries db
          files =
        engine.publish_text organization_id workspace_id generation
          (ready_text_entries organization_id workspace_id db ++ pending_entries) files

    unfoldable pub rebuild_vector_workspace :
        String → String → Database p → VectorFiles → Outcome (ℕ × VectorFiles)
    rebuild_vector_workspace organization_id workspace_id db files = do
      entries ← ready_vector_entries organization_id workspace_id db
      files' ← engine.publish_vectors organization_id workspace_id entries files
      ok (length entries, files')

  abbrev pub text_generation : ℕ → String → String → Uuid → TextGeneration
  text_generation now organization_id workspace_id generation = record {
    organization_id = organization_id;
    workspace_id = workspace_id;
    generation = generation;
    pipeline_version = ingestion_pipeline_version;
    updated_at_unix_ms = now;
  }

  unfoldable pub text_generation_key : String → String → String
  text_generation_key organization_id workspace_id =
      append "text:" (vector_scope_key p organization_id workspace_id)

  unfoldable pub insert_active_text_generation :
      ℕ → String → String → Uuid → Database p → Database p
  insert_active_text_generation now organization_id workspace_id generation db = record db {
    text_active_generations =
        p.texts.insert (text_generation_key organization_id workspace_id)
          (text_generation now organization_id workspace_id generation) db.text_active_generations;
  }
