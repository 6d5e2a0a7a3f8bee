-- ===== src/Projections/Confirm/Confirmed.antt =====
-- What `process_claimed_ingestion_job` does when its first transaction and the indexes succeed.
use hangar_ia.Prelude.{ℕ, ◌≡◌, refl, sym, subst, List, [], ◌∷◌, map, All, ok, nat_eq, string_eq}
use hangar_ia.Platform.{Uuid, Platform, Call}
use hangar_ia.Types.Ingestion.{IngestionJob, ClaimedIngestionJob}
use hangar_ia.Types.Projections.{DocumentChunk}
use hangar_ia.Database.{Database}
use hangar_ia.Graph.{Letters}
use hangar_ia.Projections.Publish.{
  publish_generation_with_pending, publish_text_generation_with_pending,
}
use hangar_ia.Projections.{EmbeddingProfile, Indexing}
use hangar_ia.Projections.Prepare.Pending.{IsPrepared, prepare_job-IsPrepared}
use hangar_ia.Projections.Prepare.{
  Prepared, pending_vector, pending_text, pending_graph, pending_vectors, pending_texts,
  pending_graphs, write_prepared, prepare_job,
}
use hangar_ia.Projections.Confirm.{Projected, embed_all, text_entry, process_claimed_ingestion_job}
use hangar_ia.Projections.Confirm.Marked.{IsPresent, insert_manifests-IsPresent}
use hangar_ia.Projections.Confirm.Second.{HasManifests, IsConfirmed, confirm_job_total}

module _ (p : Platform) where
  All-keys :
      {X M : Type 0} (P : Uuid → Type 0) (key : X → Uuid) (value : X → M) (xs : List X)
      → All (λ (row : Uuid × M). P row.0) (map (λ x. (key x, value x)) xs)
      → All P (map key xs)
  All-keys P key value [] h = tt
  All-keys P key value (x ∷ xs) h = (h.0, All-keys P key value xs h.1)

  prepared-HasManifests :
      (profile : EmbeddingProfile) (call : Call) (claimed : ClaimedIngestionJob)
      (prepared : Prepared) (db db' : Database p)
      → IsPrepared p profile call claimed db prepared db'
      → HasManifests p prepared db'
  unfolding write_prepared
  prepared-HasManifests profile call claimed prepared db db' h =
      let now = call.clock 0 in
      let document = prepared.document in
      let chunks = prepared.prepared_chunks in
      let start = write_prepared p profile now document chunks h.keys db in
      let there : HasManifests p prepared start = record {
        vectors = rw h.vectors (
            All-keys (IsPresent p start.vector_manifests) (λ (pair : DocumentChunk × ℕ). pair.0.id)
              (λ (pair : DocumentChunk × ℕ). pending_vector p profile now document pair.0 pair.1)
              h.keys.prepared_vectors
              (insert_manifests-IsPresent p
                (pending_vectors p profile now document h.keys.prepared_vectors)
                db.vector_manifests));
        texts =
            All-keys (IsPresent p start.text_manifests) (λ (chunk : DocumentChunk). chunk.id)
              (pending_text p profile now document) chunks
              (insert_manifests-IsPresent p (pending_texts p profile now document chunks)
                db.text_manifests);
        graphs =
            All-keys (IsPresent p start.graph_manifests) (λ (chunk : DocumentChunk). chunk.id)
              (pending_graph p profile now document) chunks
              (insert_manifests-IsPresent p (pending_graphs p profile now document chunks)
                db.graph_manifests);
      } in
      subst (HasManifests p prepared) (sym h.written) there

  -- Once the document is prepared and both generations are published, the processing of a leased job
  -- succeeds: the job and the document are done, with the number of chunks; every chunk has its
  -- vector, text and graph manifest, all ready; and the new text generation is the active one.
  pub process_claimed_ingestion_job-IsConfirmed :
      (engine : Indexing) (letters : Letters) (first second : Call) (generation : Uuid)
      (vt tt' gt : ℕ → ℕ) (claimed : ClaimedIngestionJob) (s : Projected p engine)
      (prepared : Prepared) (db : Database p) (entries : List (ℕ × engine.Vector))
      (vectors : engine.VectorFiles) (texts : engine.TextFiles)
      → prepare_job p engine.profile first claimed s.database ≡ ok (prepared, db)
      → embed_all engine prepared.prepared_vectors ≡ ok entries
      → publish_generation_with_pending p engine prepared.document.organization_id
          prepared.document.workspace_id entries db s.vectors
        ≡ ok vectors
      → publish_text_generation_with_pending p engine generation prepared.document.organization_id
          prepared.document.workspace_id
          (map text_entry prepared.prepared_chunks)
          db
          s.texts
        ≡ ok texts
      → (job' : IngestionJob) × (db' : Database p) × (process_claimed_ingestion_job p engine letters
            first generation vt tt' gt second claimed s
          ≡ (ok job', record { database = db'; vectors = vectors; texts = texts }))
        × IsPrepared p engine.profile first claimed s.database prepared db
        × IsConfirmed p second generation prepared db db' job'
  unfolding process_claimed_ingestion_job
  process_claimed_ingestion_job-IsConfirmed engine letters first second generation vt tt' gt claimed
        s prepared db entries vectors texts ep ee ev et =
      let facts = prepare_job-IsPrepared p engine.profile first claimed s.database prepared db ep in
      let there = prepared-HasManifests engine.profile first claimed prepared s.database db facts in
      let (job', db', ec, confirmed) =
        confirm_job_total p letters vt tt' gt second generation prepared db there in
      (
        job',
        db',
        rw (ep, process_claimed_ingestion_job) (rw ee (rw ev (rw et (rw ec refl)))),
        facts,
        confirmed,
      )
