-- ===== src/Tests/Queue.antt =====
-- Runs of the operations on the queue.
use hangar_ia.Prelude.{length, ◌≡◌, refl, true, false, Option, some, ok, is_blank, is_whitespace}
use hangar_ia.Platform.{Uuid}
use hangar_ia.Platform.Sample.{sample, call_at}
use hangar_ia.Types.Ingestion.{
  Document, IngestionJob, IngestionReceipt, ClaimedIngestionJob, dead_letter,
}
use hangar_ia.Database.{Database}
use hangar_ia.Events.{insert_outbox_event}
use hangar_ia.Ingestion.{
  enqueue_document, existing_job_id, store_new_document, claim_next_ingestion_job, write_job,
  fail_claimed_ingestion_job, recover_incomplete_ingestion_jobs,
}
use hangar_ia.Ingestion.Jobs.{
  processing_rows, new_document, new_job, check_new_document, claimed_job, is_eligible,
}
use hangar_ia.Ingestion.Acceptance.{enqueue-again}
use hangar_ia.Ingestion.Links.{HasLinks, Rewritten-HasLinks}
use hangar_ia.Ingestion.Claims.{ClaimEnd, claim_total}
use hangar_ia.Ingestion.Settling.{Failed, fail_total}
use hangar_ia.Ingestion.Recovery.{recovered_row, recover_total}
use hangar_ia.Ingestion.Queue.{QueueReach, start, next, enqueued, claimed, QueueReach-HasLinks}
use hangar_ia.Tests.Data.{database_of, no_rows, a_document}

abbrev receipt : IngestionReceipt
receipt = record {
  document = new_document sample (call_at 100 1) a_document;
  job = new_job sample (call_at 100 1) a_document;
  deduplicated = false;
}

abbrev with_document : Database sample
with_document = database_of (enqueue_document sample (call_at 100 1) a_document no_rows)

a_document-accepted :
    enqueue_document sample (call_at 100 1) a_document no_rows ≡ ok (receipt, with_document)
unfolding enqueue_document check_new_document existing_job_id store_new_document new_document
    new_job is_blank is_whitespace insert_outbox_event
a_document-accepted = refl

abbrev pub claimed_once : Database sample
claimed_once = database_of (claim_next_ingestion_job sample (call_at 200 0) with_document)

abbrev pub first_claim : IngestionJob
first_claim = claimed_job 200 receipt.job

a_document-claimed :
    claim_next_ingestion_job sample (call_at 200 0) with_document
    ≡ ok (some (record { job = first_claim; content = "water and ice" }), claimed_once)
unfolding enqueue_document check_new_document existing_job_id store_new_document new_document
    new_job is_blank is_whitespace insert_outbox_event claim_next_ingestion_job claimed_job
    is_eligible write_job
a_document-claimed = refl

accepted : QueueReach sample no_rows with_document
unfolding enqueue_document
accepted = next start (enqueued (call_at 100 1) a_document receipt refl refl a_document-accepted)

in_work : QueueReach sample no_rows claimed_once
in_work = next accepted (
    claimed (call_at 200 0) (some (record { job = first_claim; content = "water and ice" }))
      a_document-claimed)

QueueReach-HasLinks_example : HasLinks sample claimed_once
QueueReach-HasLinks_example = QueueReach-HasLinks sample in_work

pub claimed_once-HasLinks : HasLinks sample claimed_once
claimed_once-HasLinks = QueueReach-HasLinks sample in_work

-- The queue when the third attempt has failed.
abbrev dead_job : IngestionJob
dead_job = record receipt.job { status = dead_letter; attempts = 3; last_error = some "no text" }

abbrev with_dead_letter : Database sample
with_dead_letter = write_job sample 1 dead_job receipt.document with_document

with_dead_letter-HasLinks : HasLinks sample with_dead_letter
unfolding write_job enqueue_document check_new_document existing_job_id store_new_document
    new_document new_job is_blank is_whitespace insert_outbox_event
with_dead_letter-HasLinks =
    Rewritten-HasLinks sample 1 receipt.job dead_job receipt.document with_document with_dead_letter
      (QueueReach-HasLinks sample accepted) refl refl
      (record { id = refl; document_id = refl; organization = refl; workspace = refl })
      (record { jobs = refl; documents = refl; payloads = refl })

enqueue-again_example :
    enqueue_document sample (call_at 200 10) a_document with_document
    ≡ ok (record receipt { deduplicated = true }, with_document)
enqueue-again_example =
    enqueue-again sample (call_at 100 1) (call_at 200 10) a_document no_rows with_document receipt
      a_document-accepted

claim_total_example :
    (r : Option ClaimedIngestionJob) × (db' : Database sample) × (claim_next_ingestion_job sample
        (call_at 200 0)
        with_document
      ≡ ok (r, db'))
    × ClaimEnd sample (call_at 200 0) with_document r db'
    × HasLinks sample db'
claim_total_example =
    claim_total sample (call_at 200 0) with_document (QueueReach-HasLinks sample accepted)

fail_total_example :
    (j' : IngestionJob) × (db' : Database sample) × (fail_claimed_ingestion_job sample
        (call_at 300 10)
        1
        "no text"
        claimed_once
      ≡ ok (j', db'))
    × Failed sample 300 "no text" first_claim j'
    × (db'.ingestion_jobs ≡ sample.uuids.insert 1 j' claimed_once.ingestion_jobs)
    × (document : Document) × (sample.uuids.get first_claim.document_id claimed_once.documents
        ≡ some document)
    × (db'.documents
        ≡ sample.uuids.insert first_claim.document_id
            (record document { ingestion_status = j'.status })
            claimed_once.documents)
    × HasLinks sample db'
unfolding enqueue_document check_new_document existing_job_id store_new_document new_document
    new_job is_blank is_whitespace insert_outbox_event claim_next_ingestion_job claimed_job
    is_eligible write_job
fail_total_example =
    fail_total sample (call_at 300 10) 1 "no text" first_claim claimed_once
      (QueueReach-HasLinks sample in_work) refl refl refl

recover_total_example :
    (db' : Database sample) × (recover_incomplete_ingestion_jobs sample
        (call_at 900 50)
        claimed_once
      ≡ ok (length (processing_rows (sample.uuids.rows claimed_once.ingestion_jobs)), db'))
    × ((k : Uuid)
        → sample.uuids.get k db'.ingestion_jobs
          ≡ recovered_row 900 (sample.uuids.get k claimed_once.ingestion_jobs))
    × HasLinks sample db'
recover_total_example =
    recover_total sample (call_at 900 50) claimed_once (QueueReach-HasLinks sample in_work)
