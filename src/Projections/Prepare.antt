-- ===== src/Projections/Prepare.antt =====
-- The first transaction of `process_claimed_ingestion_job`: the chunks of a leased document, their ANN
-- keys and their manifests, all of them pending.
pub mod Pending
use Prim.Native.String.{◌++◌ as append}
use hangar_ia.Prelude.{
  ℕ, ◌+◌, String, Bool, true, false, not, List, [], ◌∷◌, map, filter, is_empty, length, Outcome, ok,
  ensure, context, ◌>>=◌, ◌>>◌, unwrap_or, ◌==◌, nat_eq, string_eq,
}
use hangar_ia.Platform.{Uuid, Platform, Call}
use hangar_ia.Types.Ingestion.{Document, IngestionJob, ClaimedIngestionJob}
use hangar_ia.Types.Projections.{
  DocumentChunk, VectorManifest, VectorProjectionState, TextManifest, TextProjectionState,
  GraphManifest, GraphProjectionState,
}
use hangar_ia.Database.{Database}
use hangar_ia.Scope.{in_scope}
use hangar_ia.Ingestion.Jobs.{ingestion_pipeline_version, is_processing}
use hangar_ia.Chunks.{chunk_text}
use hangar_ia.Graph.{deterministic_extractor, extraction_version}
use hangar_ia.Graph.Store.{vector_scope_key}
use hangar_ia.Projections.{EmbeddingProfile}
use hangar_ia.Projections.Keys.{Allocation, allocate}

-- What the first transaction hands on.
pub record Prepared : Type 0 where
  pub job_key : Uuid
  pub document_key : Uuid
  pub job : IngestionJob
  pub document : Document
  pub prepared_chunks : List DocumentChunk
  pub prepared_vectors : List (DocumentChunk × ℕ)

-- The chunks of a document, in order, each with a new id.
unfoldable pub new_chunks : Call → Uuid → ℕ → List String → List DocumentChunk
new_chunks call document_id ordinal [] = []
new_chunks call document_id ordinal (content ∷ rest) =
    (record {
      id = call.ids ordinal;
      document_id = document_id;
      ordinal = ordinal;
      content = content;
    })
    ∷ new_chunks call document_id (ordinal + 1) rest

module _ (p : Platform) where
  -- `format!("{}:{ordinal:08}", document.id)`
  abbrev pub chunk_key : DocumentChunk → String
  chunk_key chunk =
      append (p.uuid_text chunk.document_id) (append ":" (p.padded_text chunk.ordinal))

  unfoldable pub insert_chunks :
      List DocumentChunk → p.texts.Table DocumentChunk → p.texts.Table DocumentChunk
  insert_chunks [] table = table
  insert_chunks (chunk ∷ rest) table =
      insert_chunks rest (p.texts.insert (chunk_key chunk) chunk table)

  -- The ANN keys that the manifests of a workspace use.
  abbrev pub used_ann_keys : String → String → Database p → List ℕ
  used_ann_keys organization_id workspace_id db =
      map (λ (manifest : VectorManifest). manifest.ann_key)
        (filter
          (λ (manifest : VectorManifest).
            in_scope manifest.organization_id manifest.workspace_id organization_id workspace_id)
          (map (λ row. row.1) (p.uuids.rows db.vector_manifests)))

  -- The three loops that store the manifests.
  unfoldable pub insert_manifests :
      {M : Type 0} → List (Uuid × M) → p.uuids.Table M → p.uuids.Table M
  insert_manifests [] table = table
  insert_manifests ((id, manifest) ∷ rest) table =
      insert_manifests rest (p.uuids.insert id manifest table)

  module _ (profile : EmbeddingProfile) (now : ℕ) (document : Document) where
    abbrev pub pending_vector : DocumentChunk → ℕ → VectorManifest
    pending_vector chunk ann_key = record {
      chunk_id = chunk.id;
      organization_id = document.organization_id;
      workspace_id = document.workspace_id;
      ann_key = ann_key;
      provider = profile.provider;
      model_revision = profile.model_revision;
      dimensions = profile.dimensions;
      pipeline_version = ingestion_pipeline_version;
      source_sha256 = p.digest chunk.content;
      state = VectorProjectionState.pending;
      updated_at_unix_ms = now;
    }

    abbrev pub pending_text : DocumentChunk → TextManifest
    pending_text chunk = record {
      chunk_id = chunk.id;
      organization_id = document.organization_id;
      workspace_id = document.workspace_id;
      source_sha256 = p.digest chunk.content;
      pipeline_version = ingestion_pipeline_version;
      state = TextProjectionState.pending;
      updated_at_unix_ms = now;
    }

    abbrev pub pending_graph : DocumentChunk → GraphManifest
    pending_graph chunk = record {
      chunk_id = chunk.id;
      organization_id = document.organization_id;
      workspace_id = document.workspace_id;
      source_sha256 = p.digest chunk.content;
      pipeline_version = ingestion_pipeline_version;
      extractor = deterministic_extractor;
      extraction_version = extraction_version;
      state = GraphProjectionState.pending;
      updated_at_unix_ms = now;
    }

    abbrev pub pending_vectors : List (DocumentChunk × ℕ) → List (Uuid × VectorManifest)
    pending_vectors pairs = map (λ pair. (pair.0.id, pending_vector pair.0 pair.1)) pairs

    abbrev pub pending_texts : List DocumentChunk → List (Uuid × TextManifest)
    pending_texts chunks = map (λ chunk. (chunk.id, pending_text chunk)) chunks

    abbrev pub pending_graphs : List DocumentChunk → List (Uuid × GraphManifest)
    pending_graphs chunks = map (λ chunk. (chunk.id, pending_graph chunk)) chunks

  -- The writes of the transaction.
  unfoldable pub write_prepared :
      EmbeddingProfile → ℕ → Document → List DocumentChunk → Allocation p → Database p → Database p
  write_prepared profile now document chunks keys db = record db {
    chunks = insert_chunks chunks db.chunks;
    vector_chunks = keys.vector_chunks;
    vector_next_keys =
        p.texts.insert (vector_scope_key p document.organization_id document.workspace_id)
          keys.next_ann_key db.vector_next_keys;
    vector_manifests =
        insert_manifests (pending_vectors profile now document keys.prepared_vectors)
          db.vector_manifests;
    text_manifests = insert_manifests (pending_texts profile now document chunks) db.text_manifests;
    graph_manifests =
        insert_manifests (pending_graphs profile now document chunks) db.graph_manifests;
  }

  unfoldable pub prepare_job :
      EmbeddingProfile → Call → ClaimedIngestionJob → Database p → Outcome (Prepared × Database p)
  prepare_job profile call claimed db = do
    let contents = chunk_text claimed.content 1000
    ensure (not (is_empty contents)) "document produced no indexable chunks"
    job ← context (p.uuids.get claimed.job.id db.ingestion_jobs) "ingestion job not found"
    ensure (is_processing job.status) "ingestion job is not leased for processing"
    document ←
        context (p.uuids.get claimed.job.document_id db.documents) "ingestion document not found"
    ensure (document.ingestion_job_id == job.id) "document/job mismatch"
    let chunks = new_chunks call document.id 0 contents
    let scope = vector_scope_key p document.organization_id document.workspace_id
    keys ←
        allocate p scope chunks (used_ann_keys document.organization_id document.workspace_id db)
          (unwrap_or (p.texts.get scope db.vector_next_keys) 1) db.vector_chunks
    ok (
      record {
        job_key = claimed.job.id;
        document_key = claimed.job.document_id;
        job = job;
        document = document;
        prepared_chunks = chunks;
        prepared_vectors = keys.prepared_vectors;
      },
      write_prepared profile (call.clock 0) document chunks keys db,
    )
