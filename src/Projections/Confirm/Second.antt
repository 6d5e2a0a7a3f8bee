-- ===== src/Projections/Confirm/Second.antt =====
-- The second transaction of `process_claimed_ingestion_job`, on manifests that are there.
use hangar_ia.Prelude.{
  ℕ, ◌≡◌, refl, sym, ap, ◌∙◌, subst, none, some, List, map, length, All, ok, ==_refl, nat_eq,
  string_eq,
}
use hangar_ia.Platform.{Uuid, Platform, Call}
use hangar_ia.Types.Ingestion.{IngestionJob, succeeded}
use hangar_ia.Types.Projections.{
  DocumentChunk, VectorManifest, TextManifest, TextGeneration, GraphManifest,
}
use hangar_ia.Database.{Database}
use hangar_ia.Graph.{Letters}
use hangar_ia.Graph.Materialized.{materialize_graph_chunks_total}
use hangar_ia.Projections.Publish.{
  is_ready_vector, is_ready_text, is_ready_graph, text_generation, text_generation_key,
  publish_generation_with_pending, publish_text_generation_with_pending,
}
use hangar_ia.Projections.{EmbeddingProfile, Indexing}
use hangar_ia.Projections.Prepare.{Prepared}
use hangar_ia.Projections.Confirm.{
  ready_vector, ready_text, ready_graph, succeeded_job, succeeded_document, record_success,
  write_confirmed, confirm_job,
}
use hangar_ia.Projections.Confirm.Marked.{IsMarked, IsPresent, mark_ready_total}

module _ (p : Platform) where
  open p.uuids use {Table, get, insert, get-insert}

  abbrev chunk_ids : List DocumentChunk → List Uuid
  chunk_ids chunks = map (λ (chunk : DocumentChunk). chunk.id) chunks

  -- The manifests of a document are there, as the first transaction leaves them.
  pub record HasManifests (prepared : Prepared) (db : Database p) : Type 0 where
    pub vectors :
        All
          (IsPresent p db.vector_manifests)
          (map (λ (pair : DocumentChunk × ℕ). pair.0.id) prepared.prepared_vectors)
    pub texts : All (IsPresent p db.text_manifests) (chunk_ids prepared.prepared_chunks)
    pub graphs : All (IsPresent p db.graph_manifests) (chunk_ids prepared.prepared_chunks)

  -- The document and its job are done, every chunk is ready in each projection, and the new generation
  -- is the active one.
  pub record IsConfirmed (call : Call) (generation : Uuid) (prepared : Prepared)
      (db db' : Database p) (job' : IngestionJob) : Type 0 where
    pub job : job' ≡ record prepared.job {
      status = succeeded;
      last_error = none;
      next_attempt_at_unix_ms = none;
      lease_expires_at_unix_ms = none;
      updated_at_unix_ms = call.clock 8;
    }
    pub job_stored : db'.ingestion_jobs ≡ insert prepared.job_key job' db.ingestion_jobs
    pub document_stored :
        db'.documents
        ≡ insert prepared.document_key
            (record prepared.document {
              chunk_count = length prepared.prepared_chunks;
              ingestion_status = succeeded;
            })
            db.documents
    pub vectors :
        All
          (IsMarked p ready_vector
            (λ m. is_ready_vector m.state)
            (λ n m. refl)
            db'.vector_manifests)
          (map (λ (pair : DocumentChunk × ℕ). pair.0.id) prepared.prepared_vectors)
    pub texts :
        All
          (IsMarked p ready_text (λ m. is_ready_text m.state) (λ n m. refl) db'.text_manifests)
          (chunk_ids prepared.prepared_chunks)
    pub graphs :
        All
          (IsMarked p ready_graph (λ m. is_ready_graph m.state) (λ n m. refl) db'.graph_manifests)
          (chunk_ids prepared.prepared_chunks)
    pub active :
        (g : TextGeneration) × (p.texts.get
            (text_generation_key p prepared.document.organization_id prepared.document.workspace_id)
            db'.text_active_generations
          ≡ some g)
        × (g.generation ≡ generation)

  -- What the last writes leave, for tables in which the manifests are marked.
  written :
      (call : Call) (generation : Uuid) (prepared : Prepared) (graphs : Table GraphManifest)
      (graphed db : Database p)
      → All
          (IsMarked p ready_graph (λ m. is_ready_graph m.state) (λ n m. refl) graphs)
          (chunk_ids prepared.prepared_chunks)
      → All
          (IsMarked p ready_vector
            (λ m. is_ready_vector m.state)
            (λ n m. refl)
            graphed.vector_manifests)
          (map (λ (pair : DocumentChunk × ℕ). pair.0.id) prepared.prepared_vectors)
      → All
          (IsMarked p ready_text (λ m. is_ready_text m.state) (λ n m. refl) graphed.text_manifests)
          (chunk_ids prepared.prepared_chunks)
      → graphed.documents ≡ db.documents
      → graphed.ingestion_jobs ≡ db.ingestion_jobs
      → IsConfirmed call generation prepared db
          (write_confirmed p call generation prepared graphs graphed)
          (succeeded_job (call.clock 8) prepared.job)
  unfolding succeeded_job succeeded_document write_confirmed record_success
      hangar_ia.Events.insert_audit_event hangar_ia.Events.insert_outbox_event
      hangar_ia.Projections.Publish.insert_active_text_generation
  written call generation prepared graphs graphed db mg mv mt same_documents same_jobs = record {
    job = refl;
    job_stored = ap (insert prepared.job_key (succeeded_job (call.clock 8) prepared.job)) same_jobs;
    document_stored =
        ap
          (insert prepared.document_key
            (succeeded_document (length prepared.prepared_chunks) prepared.document))
          same_documents;
    vectors = mv;
    texts = mt;
    graphs = mg;
    active =
        let o = prepared.document.organization_id in
        let w = prepared.document.workspace_id in
        let key = text_generation_key p o w in
        let g = text_generation p (call.clock 1) o w generation in
        (
          g,
          p.texts.get-insert key key g graphed.text_active_generations ∙ rw (==_refl key) refl,
          refl,
        );
  }

  -- With the manifests in place the second transaction succeeds.
  pub confirm_job_total :
      (letters : Letters) (vt tt' gt : ℕ → ℕ) (call : Call) (generation : Uuid)
      (prepared : Prepared) (db : Database p)
      → HasManifests prepared db
      → (job' : IngestionJob) × (db' : Database p) × (confirm_job p letters vt tt' gt call
            generation prepared db
          ≡ ok (job', db'))
        × IsConfirmed call generation prepared db db' job'
  unfolding confirm_job
  confirm_job_total letters vt tt' gt call generation prepared db h =
      let o = prepared.document.organization_id in
      let w = prepared.document.workspace_id in
      let ids = chunk_ids prepared.prepared_chunks in
      let (vectors, ev, mv, _) =
        mark_ready_total p ready_vector (λ m. is_ready_vector m.state) (λ n m. refl)
          "vector manifest not found" vt 0
          (map (λ (pair : DocumentChunk × ℕ). pair.0.id) prepared.prepared_vectors)
          db.vector_manifests h.vectors in
      let (texts, et, mt, _) =
        mark_ready_total p ready_text (λ m. is_ready_text m.state) (λ n m. refl)
          "text manifest not found" tt' 0 ids db.text_manifests h.texts in
      let marked : Database p = record db { vector_manifests = vectors; text_manifests = texts } in
      let (graphed, eg, frame) =
        materialize_graph_chunks_total p letters (call.clock 0) o w prepared.prepared_chunks
          marked in
      let same_graphs : graphed.graph_manifests ≡ db.graph_manifests =
        ap (λ (d : Database p). d.graph_manifests) frame in
      let (graphs, em, mg, _) =
        mark_ready_total p ready_graph (λ m. is_ready_graph m.state) (λ n m. refl)
          "graph manifest not found" gt 0 ids graphed.graph_manifests
          (subst (λ (t : Table GraphManifest). All (IsPresent p t) ids) (sym same_graphs)
            h.graphs) in
      (
        succeeded_job (call.clock 8) prepared.job,
        write_confirmed p call generation prepared graphs graphed,
        rw ev (rw et (rw eg (rw em refl))),
        written call generation prepared graphs graphed db mg
            (subst
              (λ (t : Table VectorManifest).
                All (IsMarked p ready_vector (λ m. is_ready_vector m.state) (λ n m. refl) t)
                  (map (λ (pair : DocumentChunk × ℕ). pair.0.id) prepared.prepared_vectors))
              (sym (ap (λ (d : Database p). d.vector_manifests) frame)) mv)
            (subst
              (λ (t : Table TextManifest).
                All (IsMarked p ready_text (λ m. is_ready_text m.state) (λ n m. refl) t) ids)
              (sym (ap (λ (d : Database p). d.text_manifests) frame)) mt)
            (ap (λ (d : Database p). d.documents) frame)
            (ap (λ (d : Database p). d.ingestion_jobs) frame),
      )
