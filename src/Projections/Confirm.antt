-- ===== src/Projections/Confirm.antt =====
-- The second transaction of `process_claimed_ingestion_job`, which makes the chunks of a document
-- visible, and the whole of the operation.
pub mod Marked
pub mod Second
pub mod Confirmed
use Prim.Native.String.{◌++◌ as append}
use hangar_ia.Prelude.{
  ℕ, ◌+◌, String, Option, none, some, List, [], ◌∷◌, map, length, Outcome, ok, err, context, ◌>>=◌,
}
use hangar_ia.Platform.{Uuid, Platform, Call}
use hangar_ia.Types.Ingestion.{Document, IngestionJob, ClaimedIngestionJob, succeeded}
use hangar_ia.Types.Events.{number, text, uuid, object, field, end}
use hangar_ia.Types.Projections.{
  DocumentChunk, VectorManifest, VectorProjectionState, TextManifest, TextProjectionState,
  GraphManifest, GraphProjectionState,
}
use hangar_ia.Database.{Database}
use hangar_ia.Events.{path_of, insert_audit_event, insert_outbox_event}
use hangar_ia.Ingestion.{worker}
use hangar_ia.Graph.{Letters, deterministic_extractor, extraction_version}
use hangar_ia.Graph.Store.{vector_scope_key, materialize_graph_chunks}
use hangar_ia.Projections.{TextEntry, Indexing}
use hangar_ia.Projections.Prepare.{Prepared, prepare_job}
use hangar_ia.Projections.Publish.{
  publish_generation_with_pending, publish_text_generation_with_pending,
  insert_active_text_generation,
}

-- The database and the files of the indexes.
pub record Projected (p : Platform) (engine : Indexing) : Type 0 where
  pub database : Database p
  pub vectors : engine.VectorFiles
  pub texts : engine.TextFiles

abbrev pub ready_vector : ℕ → VectorManifest → VectorManifest
ready_vector now manifest = record manifest {
  state = VectorProjectionState.ready;
  updated_at_unix_ms = now;
}

abbrev pub ready_text : ℕ → TextManifest → TextManifest
ready_text now manifest = record manifest {
  state = TextProjectionState.ready;
  updated_at_unix_ms = now;
}

abbrev pub ready_graph : ℕ → GraphManifest → GraphManifest
ready_graph now manifest = record manifest {
  state = GraphProjectionState.ready;
  updated_at_unix_ms = now;
}

unfoldable pub succeeded_job : ℕ → IngestionJob → IngestionJob
succeeded_job now job = record job {
  status = succeeded;
  last_error = none;
  next_attempt_at_unix_ms = none;
  lease_expires_at_unix_ms = none;
  updated_at_unix_ms = now;
}

unfoldable pub succeeded_document : ℕ → Document → Document
succeeded_document chunk_count document = record document {
  chunk_count = chunk_count;
  ingestion_status = succeeded;
}

-- The vectors of the chunks, under their keys.
unfoldable pub embed_all :
    (engine : Indexing) → List (DocumentChunk × ℕ) → Outcome (List (ℕ × engine.Vector))
embed_all engine [] = ok []
embed_all engine ((chunk, key) ∷ rest) = do
  vector ← engine.embed chunk.content
  more ← embed_all engine rest
  ok ((key, vector) ∷ more)

abbrev pub text_entry : DocumentChunk → TextEntry
text_entry chunk = record { chunk_id = chunk.id; content = chunk.content }

module _ (p : Platform) where
  -- The three loops that mark the manifests of the chunks, each with a time of its own.
  unfoldable pub mark_ready :
      {M : Type 0}
      → (ℕ → M → M)
      → String
      → (ℕ → ℕ)
      → ℕ
      → List Uuid
      → p.uuids.Table M
      → Outcome (p.uuids.Table M)
  mark_ready ready message times n [] table = ok table
  mark_ready ready message times n (id ∷ rest) table = do
    manifest ← context (p.uuids.get id table) message
    mark_ready ready message times (n + 1) rest (p.uuids.insert id (ready (times n) manifest) table)

  -- The four audit events and the two outbox events of a success.
  unfoldable pub record_success :
      Call → Uuid → IngestionJob → Document → ℕ → Database p → Database p
  record_success call job_key job document chunk_count db =
      let resource = p.uuid_text job_key in
      let who = worker p document in
      insert_outbox_event p (call.ids 5) (call.clock 7) "graph.projection_ready.v1"
        (path_of p "documents/" document.id) document.organization_id (some document.workspace_id)
        (object (
          field "document_id" (uuid document.id) (
            field "job_id" (uuid job.id) (
              field "extractor" (text deterministic_extractor)
                (field "extraction_version" (number extraction_version) end)))))
        (insert_outbox_event p (call.ids 4) (call.clock 6) "document.ingestion_succeeded.v1"
          (path_of p "documents/" document.id) document.organization_id (some document.workspace_id)
          (object (
            field "document_id" (uuid document.id) (
              field "job_id" (uuid job.id) (
                field "chunk_count" (number chunk_count)
                  (field "pipeline_version" (number job.pipeline_version) end)))))
          (insert_audit_event p (call.ids 3) (call.clock 5) who "graph.projection.succeeded"
            resource
            (insert_audit_event p (call.ids 2) (call.clock 4) who "text.projection.succeeded"
              resource
              (insert_audit_event p (call.ids 1) (call.clock 3) who "vector.projection.succeeded"
                resource
                (insert_audit_event p (call.ids 0) (call.clock 2) who "ingestion.succeeded" resource
                  db)))))

  -- What follows the loops: the active generation, the document, the job and the events.
  unfoldable pub write_confirmed :
      Call → Uuid → Prepared → p.uuids.Table GraphManifest → Database p → Database p
  write_confirmed call generation prepared graphs db =
      let document = prepared.document in
      let chunk_count = length prepared.prepared_chunks in
      let o = document.organization_id in
      let w = document.workspace_id in
      let active =
        insert_active_text_generation p (call.clock 1) o w generation
          (record db { graph_manifests = graphs }) in
      let document' = succeeded_document chunk_count document in
      let job' = succeeded_job (call.clock 8) prepared.job in
      record_success call prepared.job_key job' document' chunk_count (record active {
        documents = p.uuids.insert prepared.document_key document' active.documents;
        ingestion_jobs = p.uuids.insert prepared.job_key job' active.ingestion_jobs;
      })

  -- The times of the loops over the chunks are those of three calls of their own; the first two
  -- times of the last call are those of the graph and of the generation.
  unfoldable pub confirm_job :
      Letters
      → (ℕ → ℕ)
      → (ℕ → ℕ)
      → (ℕ → ℕ)
      → Call
      → Uuid
      → Prepared
      → Database p
      → Outcome (IngestionJob × Database p)
  confirm_job letters vector_times text_times graph_times call generation prepared db = do
    let document = prepared.document
    let o = document.organization_id
    let w = document.workspace_id
    let chunks = prepared.prepared_chunks
    let ids = map (λ (chunk : DocumentChunk). chunk.id) chunks
    vectors ←
        mark_ready ready_vector "vector manifest not found" vector_times 0
          (map (λ (pair : DocumentChunk × ℕ). pair.0.id) prepared.prepared_vectors)
          db.vector_manifests
    texts ← mark_ready ready_text "text manifest not found" text_times 0 ids db.text_manifests
    graphed ←
        materialize_graph_chunks p letters (call.clock 0) o w chunks
          (record db { vector_manifests = vectors; text_manifests = texts })
    graphs ←
        mark_ready ready_graph "graph manifest not found" graph_times 0 ids graphed.graph_manifests
    ok (
      succeeded_job (call.clock 8) prepared.job,
      write_confirmed call generation prepared graphs graphed,
    )

  -- The first transaction stays whatever follows, and so do the generations that were published.
  -- The cleanup of old generations, of which errors are ignored, is left out.
  unfoldable pub process_claimed_ingestion_job :
      (engine : Indexing)
      → Letters
      → Call
      → Uuid
      → (ℕ → ℕ)
      → (ℕ → ℕ)
      → (ℕ → ℕ)
      → Call
      → ClaimedIngestionJob
      → Projected p engine
      → Outcome IngestionJob × Projected p engine
  process_claimed_ingestion_job engine letters first generation vector_times text_times graph_times
        second claimed s =
      elim (prepare_job p engine.profile first claimed s.database) [
        | err message ↦ (err message, s)
        | ok (prepared, db) ↦
            let o = prepared.document.organization_id in
            let w = prepared.document.workspace_id in
            let hidden = record s { database = db } in
            elim (embed_all engine prepared.prepared_vectors >>= λ entries.
            publish_generation_with_pending p engine o w entries db s.vectors) [
              | err message ↦ (err message, hidden)
              | ok vectors ↦
                  elim (publish_text_generation_with_pending p engine generation o w
                    (map text_entry prepared.prepared_chunks) db s.texts) [
                      | err message ↦ (err message, record hidden { vectors = vectors })
                      | ok texts ↦
                          elim (confirm_job letters vector_times text_times graph_times second
                            generation prepared db) [
                              | err message ↦
                                  (err message, record hidden { vectors = vectors; texts = texts })
                              | ok (job, db') ↦ (
                                ok job,
                                record { database = db'; vectors = vectors; texts = texts },
                              )
                            ]
                    ]
            ]
      ]
