-- ===== src/Projections/Prepare/Pending.antt =====
-- What the first transaction of `process_claimed_ingestion_job` does when it succeeds.
use hangar_ia.Prelude.{
  ◌≡◌, refl, subst, true, false, not, some, is_empty, ok, ensure, context, >>=-eq-ok, >>-eq-ok,
  ensure-ok, context-eq-ok, ok_inj, unwrap_or, arith, ◌==◌, ==_iff, nat_eq, string_eq,
}
use hangar_ia.Platform.{Platform, Call}
use hangar_ia.Types.Ingestion.{ClaimedIngestionJob}
use hangar_ia.Database.{Database}
use hangar_ia.Ingestion.Jobs.{is_processing}
use hangar_ia.Chunks.{chunk_text}
use hangar_ia.Graph.Store.{vector_scope_key}
use hangar_ia.Projections.{EmbeddingProfile}
use hangar_ia.Projections.Keys.{Allocation, allocate}
use hangar_ia.Projections.Keys.Fresh.{IsAllocated, allocate-IsAllocated}
use hangar_ia.Projections.Prepare.{Prepared, new_chunks, used_ann_keys, write_prepared, prepare_job}

module _ (p : Platform) (profile : EmbeddingProfile) (call : Call) (claimed : ClaimedIngestionJob)
    (db : Database p) where
  open p.uuids use {get}

  -- A leased job with its document, cut into chunks, each with a fresh ANN key, and the pending rows
  -- of these.
  pub record IsPrepared (prepared : Prepared) (db' : Database p) : Type 0 where
    pub keys : Allocation p
    pub job_key : prepared.job_key ≡ claimed.job.id
    pub document_key : prepared.document_key ≡ claimed.job.document_id
    pub job_found : get prepared.job_key db.ingestion_jobs ≡ some prepared.job
    pub leased : is_processing prepared.job.status ≡ true
    pub document_found : get prepared.document_key db.documents ≡ some prepared.document
    pub linked : prepared.document.ingestion_job_id ≡ prepared.job.id
    pub some_chunk : is_empty (chunk_text claimed.content 1000) ≡ false
    pub chunked :
        prepared.prepared_chunks
        ≡ new_chunks call prepared.document.id 0 (chunk_text claimed.content 1000)
    pub vectors : prepared.prepared_vectors ≡ keys.prepared_vectors
    pub allocated :
        IsAllocated p
          (vector_scope_key p prepared.document.organization_id prepared.document.workspace_id)
          prepared.prepared_chunks
          (used_ann_keys p prepared.document.organization_id prepared.document.workspace_id db)
          (unwrap_or
            (p.texts.get
              (vector_scope_key p prepared.document.organization_id prepared.document.workspace_id)
              db.vector_next_keys)
            1)
          keys
    pub written :
        db'
        ≡ write_prepared p profile (call.clock 0) prepared.document prepared.prepared_chunks keys db

  Goal : Prepared × Database p → Type 0
  Goal r = IsPrepared r.0 r.1

  pub prepare_job-IsPrepared :
      (prepared : Prepared) (db' : Database p)
      → prepare_job p profile call claimed db ≡ ok (prepared, db')
      → IsPrepared prepared db'
  unfolding prepare_job Goal
  prepare_job-IsPrepared prepared db' h =
      let contents = chunk_text claimed.content 1000 in
      let (some_text, r₁) =
        >>-eq-ok (ensure (not (is_empty contents)) "document produced no indexable chunks") _ h in
      let (job, found_job, r₂) =
        >>=-eq-ok (context (get claimed.job.id db.ingestion_jobs) "ingestion job not found") _ r₁ in
      let (leased, r₃) =
        >>-eq-ok (ensure (is_processing job.status) "ingestion job is not leased for processing") _
          r₂ in
      let (document, found_document, r₄) =
        >>=-eq-ok
          (context (get claimed.job.document_id db.documents) "ingestion document not found") _
          r₃ in
      let (linked, r₅) =
        >>-eq-ok (ensure (document.ingestion_job_id == job.id) "document/job mismatch") _ r₄ in
      let chunks = new_chunks call document.id 0 contents in
      let scope = vector_scope_key p document.organization_id document.workspace_id in
      let used = used_ann_keys p document.organization_id document.workspace_id db in
      let next = unwrap_or (p.texts.get scope db.vector_next_keys) 1 in
      let (keys, allocated, r₆) =
        >>=-eq-ok (allocate p scope chunks used next db.vector_chunks) _ r₅ in
      subst Goal (ok_inj r₆) (record {
        keys = keys;
        job_key = refl;
        document_key = refl;
        job_found = context-eq-ok _ _ found_job;
        leased = ensure-ok _ _ leased;
        document_found = context-eq-ok _ _ found_document;
        linked = (==_iff document.ingestion_job_id job.id).0 (ensure-ok _ _ linked);
        some_chunk = ground (arith, ensure-ok _ _ some_text);
        chunked = refl;
        vectors = refl;
        allocated = allocate-IsAllocated p scope chunks used next db.vector_chunks keys allocated;
        written = refl;
      })
