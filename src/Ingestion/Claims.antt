-- ===== src/Ingestion/Claims.antt =====
-- `claim_next_ingestion_job`: which job the worker gets.
use hangar_ia.Prelude.{
  ℕ, ◌+◌, ◌%◌, ◌^◌, ◌<◌, ◌≡◌, refl, true, false, Option, none, some, ok, find, inl, inr,
  Option-cases, find_sound,
}
use hangar_ia.Platform.{Uuid, Platform, Call}
use hangar_ia.Platform.Rows.{find_row-find, find-first, find-none}
use hangar_ia.Types.Ingestion.{
  Document, IngestionJob, IngestionPayload, ClaimedIngestionJob, processing,
}
use hangar_ia.Database.{Database}
use hangar_ia.Ingestion.{write_job, claim_next_ingestion_job}
use hangar_ia.Ingestion.Jobs.{is_eligible, claimed_job}
use hangar_ia.Ingestion.Links.{HasLinks, Follows, Rewritten-HasLinks}

Follows-claimed_job : (now : ℕ) (j : IngestionJob) → Follows j (claimed_job now j)
unfolding claimed_job
Follows-claimed_job now j = record {
  id = refl;
  document_id = refl;
  organization = refl;
  workspace = refl;
}

module _ (p : Platform) where
  open p.uuids use {get, insert, rows, get-rows}

  -- The job of a successful claim: it was eligible, no eligible job has a smaller id, and it is now
  -- leased for thirty seconds, as is its document, with its attempts counted; the text of its payload
  -- is handed out.
  pub record Claimed (call : Call) (db : Database p) (c : ClaimedIngestionJob) (db' : Database p)
      : Type 0 where
    pub job : IngestionJob
    pub key : Uuid
    pub found : get key db.ingestion_jobs ≡ some job
    pub eligible : is_eligible (call.clock 0) job ≡ true
    pub first :
        (k : Uuid) (j : IngestionJob)
        → get k db.ingestion_jobs ≡ some j
        → k < key
        → is_eligible (call.clock 0) j ≡ false
    pub leased : c.job ≡ record job {
      status = processing;
      attempts = (job.attempts + 1) % 2 ^ 32;
      next_attempt_at_unix_ms = none;
      lease_expires_at_unix_ms = some ((call.clock 0 + 30000) % 2 ^ 128);
      updated_at_unix_ms = call.clock 0;
    }
    pub stored : db'.ingestion_jobs ≡ insert key c.job db.ingestion_jobs
    pub document : Document
    pub document_found : get job.document_id db.documents ≡ some document
    pub document_stored :
        db'.documents
        ≡ insert job.document_id (record document { ingestion_status = processing }) db.documents
    pub payload : IngestionPayload
    pub payload_found : get key db.ingestion_payloads ≡ some payload
    pub content : c.content ≡ payload.content

  -- No job is eligible, and nothing changes.
  pub record Idle (call : Call) (db db' : Database p) : Type 0 where
    pub refused :
        (k : Uuid) (j : IngestionJob)
        → get k db.ingestion_jobs ≡ some j
        → is_eligible (call.clock 0) j ≡ false
    pub same : db' ≡ db

  abbrev pub ClaimEnd : Call → Database p → Option ClaimedIngestionJob → Database p → Type 0
  ClaimEnd call db none db' = Idle call db db'
  ClaimEnd call db (some c) db' = Claimed call db c db'

  -- With the tables in agreement a claim cannot fail: it takes the eligible job with the smallest id,
  -- leases it with its document and hands out its text, or there is none and nothing changes; and the
  -- tables still agree.
  pub claim_total :
      (call : Call) (db : Database p)
      → HasLinks p db
      → (r : Option ClaimedIngestionJob) × (db' : Database p) × (claim_next_ingestion_job p call db
          ≡ ok (r, db'))
        × ClaimEnd call db r db'
        × HasLinks p db'
  unfolding claim_next_ingestion_job write_job claimed_job
  claim_total call db v =
      let now = call.clock 0 in
      let rs = rows db.ingestion_jobs in
      let q = λ (row : Uuid × IngestionJob). is_eligible now row.1 in
      let asc = p.ascending db.ingestion_jobs in
      elim (Option-cases (find q rs)) [
        | inl idle ↦ (
          none,
          db,
          rw (idle, claim_next_ingestion_job),
          record { refused = λ k j h. find-none q rs k j idle (rw get-rows at h); same = refl },
          v,
        )
        | inr (row, chosen) ↦
            let job = row.1 in
            let job' = claimed_job now job in
            let found : get row.0 db.ingestion_jobs ≡ some job =
              rw get-rows (find_row-find q rs row asc chosen) in
            let b = v.at row.0 job found in
            let db' = write_job p row.0 job' b.document db in
            (
              some (record { job = job'; content = b.payload.content }),
              db',
              rw (chosen, claim_next_ingestion_job, b.stored, b.kept),
              record {
                job = job;
                key = row.0;
                found = found;
                eligible = find_sound q rs row chosen;
                first = λ k j h l. find-first q rs row k j asc chosen (rw get-rows at h) l;
                leased = refl;
                stored = refl;
                document = b.document;
                document_found = b.stored;
                document_stored = refl;
                payload = b.payload;
                payload_found = b.kept;
                content = refl;
              },
              Rewritten-HasLinks p row.0 job job' b.document db db' v found b.stored
                  (Follows-claimed_job now job)
                  (record { jobs = refl; documents = refl; payloads = refl }),
            )
      ]
