-- ===== src/Ingestion.antt =====
-- The ingestion queue: the operations of `HangarStore` in packages/hangar-server/src/store.rs that
-- accept a document, hand its job to the worker, and record what became of it.
pub mod Jobs
pub mod Links
pub mod Acceptance
pub mod Settling
pub mod Claims
pub mod Arrivals
pub mod Recovery
pub mod Queue
use Prim.Native.String.{◌++◌ as append}
use hangar_ia.Prelude.{
  ℕ, ◌+◌, String, Bool, true, false, not, ◌&&◌, ◌||◌, Option, none, some, List, [], ◌∷◌, map,
  length, find, filter, Outcome, ok, err, ensure, context, add_u32, add_u128, is_blank, take_chars,
  is_none_or, is_some, is_some_and, or_option, then_some, ltb, leb, len, ◌==◌, nat_eq, string_eq,
  if◌then◌else◌, ◌>>=◌, ◌>>◌, min, ◌*◌, ◌^◌, ◌-◌,
}
use hangar_ia.Platform.{Uuid, Platform, Call}
use hangar_ia.Types.Access.{Principal, Role}
use hangar_ia.Types.Sharing.{SubjectKind}
use hangar_ia.Types.Ingestion.{
  Document, IngestionJob, IngestionStatus, IngestionPayload, IngestionReceipt, NewDocument,
  ClaimedIngestionJob, queued, processing, retry_wait, dead_letter,
}
use hangar_ia.Types.Events.{number, text, uuid, object, field, end}
use hangar_ia.Database.{Database}
use hangar_ia.Scope.{in_scope}
use hangar_ia.Events.{status_text, path_of, insert_audit_event, insert_outbox_event}
use hangar_ia.Ingestion.Jobs.{
  ingestion_pipeline_version, max_ingestion_attempts, ingestion_lease_ms, retry_backoff_ms,
  is_queued, is_processing, is_retry_wait, is_dead_letter, check_new_document, deduplication_key_of,
  idempotency_key_of, new_document, new_job, is_eligible, claimed_job, failed_job, recovered_job,
  retried_job, with_status, processing_rows,
}

module _ (p : Platform) where
  open p.uuids use {Table, get, insert, rows}

  abbrev pub lookup_text : String → p.texts.Table Uuid → Option Uuid
  lookup_text key table = p.texts.get key table

  abbrev pub deduplication_key : NewDocument → String
  deduplication_key new =
      deduplication_key_of new.organization_id new.workspace_id (p.digest new.content)

  abbrev pub idempotency_key : NewDocument → String → String
  idempotency_key new key = idempotency_key_of new.organization_id new.workspace_id (p.digest key)

  -- `document_is_deduplicated`
  unfoldable pub document_is_deduplicated : NewDocument → Database p → Bool
  document_is_deduplicated new db =
      is_some (lookup_text (deduplication_key new) db.ingestion_deduplication)
      || is_some_and
          (λ key. is_some (lookup_text (idempotency_key new key) db.ingestion_idempotency))
          new.idempotency_key

  -- The job that the idempotency key of a request already has.
  abbrev pub known_by_key : NewDocument → Option String → p.texts.Table Uuid → Option Uuid
  known_by_key new none table = none
  known_by_key new (some key) table = lookup_text (idempotency_key new key) table

  -- The job that an equal document already has.
  unfoldable pub existing_job_id : NewDocument → Database p → Option Uuid
  existing_job_id new db =
      or_option (known_by_key new new.idempotency_key db.ingestion_idempotency)
        (lookup_text (deduplication_key new) db.ingestion_deduplication)

  abbrev pub remember_key :
      NewDocument → Option String → Uuid → p.texts.Table Uuid → p.texts.Table Uuid
  remember_key new none job_id table = table
  remember_key new (some key) job_id table = p.texts.insert (idempotency_key new key) job_id table

  -- The writes of a document that is not known.
  unfoldable pub store_new_document : Call → NewDocument → Database p → Database p
  store_new_document call new db =
      let document = new_document p call new in
      let job = new_job p call new in
      insert_outbox_event p (call.ids 2) (call.clock 1) "document.ingestion_queued.v1"
        (path_of p "documents/" document.id) document.organization_id (some document.workspace_id)
        (object (
          field "document_id" (uuid document.id) (
            field "job_id" (uuid job.id)
              (field "pipeline_version" (number job.pipeline_version) end))))
        (record db {
          documents = insert document.id document db.documents;
          ingestion_jobs = insert job.id job db.ingestion_jobs;
          ingestion_payloads =
              insert job.id (record { content = new.content }) db.ingestion_payloads;
          ingestion_deduplication =
              p.texts.insert (deduplication_key new) job.id db.ingestion_deduplication;
          ingestion_idempotency =
              remember_key new new.idempotency_key job.id db.ingestion_idempotency;
        })

  unfoldable pub enqueue_document :
      Call → NewDocument → Database p → Outcome (IngestionReceipt × Database p)
  enqueue_document call new db = do
    check_new_document new
    elim (existing_job_id new db) [
      | some job_id ↦ do
        job ←
            context (get job_id db.ingestion_jobs)
              "ingestion deduplication record references a missing job"
        document ←
            context (get job.document_id db.documents) "ingestion job references a missing document"
        ok (record { document = document; job = job; deduplicated = true }, db)
      | none ↦ ok (
        record {
          document = new_document p call new;
          job = new_job p call new;
          deduplicated = false;
        },
        store_new_document call new db,
      )
    ]

  -- The write of a job with the status of its document, which the four operations below share.
  unfoldable pub write_job : Uuid → IngestionJob → Document → Database p → Database p
  write_job key job document db = record db {
    ingestion_jobs = insert key job db.ingestion_jobs;
    documents = insert job.document_id (with_status job.status document) db.documents;
  }

  unfoldable pub claim_next_ingestion_job :
      Call → Database p → Outcome (Option ClaimedIngestionJob × Database p)
  claim_next_ingestion_job call db =
      let now = call.clock 0 in
      elim (find (λ (row : Uuid × IngestionJob). is_eligible now row.1) (rows db.ingestion_jobs)) [
        | none ↦ ok (none, db)
        | some row ↦ do
          let job = claimed_job now row.1
          document ← context (get job.document_id db.documents) "ingestion document not found"
          payload ← context (get row.0 db.ingestion_payloads) "ingestion job payload is missing"
          ok (
            some (record { job = job; content = payload.content }),
            write_job row.0 job document db,
          )
      ]

  -- The worker of a document, as its audit events name it.
  abbrev pub worker : Document → Principal
  worker document = record {
    id = document.created_by;
    organization_id = document.organization_id;
    workspace_id = some document.workspace_id;
    role = Role.writer;
    subject_kind = SubjectKind.agent;
  }

  -- The four audit events and the outbox event of a failure.
  unfoldable pub record_failure : Call → Uuid → IngestionJob → Document → Database p → Database p
  record_failure call job_id job document db =
      let resource = p.uuid_text job_id in
      let who = worker document in
      insert_outbox_event p (call.ids 4) (call.clock 5) "document.ingestion_failed.v1"
        (path_of p "documents/" document.id) document.organization_id (some document.workspace_id)
        (object (
          field "document_id" (uuid document.id)
            (field "job_id" (uuid job.id) (field "status" (text (status_text job.status)) end))))
        (insert_audit_event p (call.ids 3) (call.clock 4) who "graph.projection.failed" resource (
          insert_audit_event p (call.ids 2) (call.clock 3) who "text.projection.failed" resource (
            insert_audit_event p (call.ids 1) (call.clock 2) who "vector.projection.failed" resource
              (insert_audit_event p (call.ids 0) (call.clock 1) who
                (if is_dead_letter job.status
                  then "ingestion.dead_letter"
                  else "ingestion.retry_wait")
                resource db))))

  unfoldable pub fail_claimed_ingestion_job :
      Call → Uuid → String → Database p → Outcome (IngestionJob × Database p)
  fail_claimed_ingestion_job call job_id error db = do
    ensure (not (is_blank error)) "ingestion error cannot be empty"
    job ← context (get job_id db.ingestion_jobs) "ingestion job not found"
    ensure (is_processing job.status) "only a processing job may fail"
    document ← context (get job.document_id db.documents) "ingestion document not found"
    let job' = failed_job (call.clock 0) error job
    let document' = with_status job'.status document
    ok (
      job',
      record_failure call job_id job' document' (record db {
        documents = insert document'.id document' db.documents;
        ingestion_jobs = insert job_id job' db.ingestion_jobs;
      }),
    )

  unfoldable pub get_ingestion_job : Uuid → String → String → Database p → Option IngestionJob
  get_ingestion_job id organization_id workspace_id db = elim (get id db.ingestion_jobs) [
    | none ↦ none
    | some job ↦
        then_some (in_scope job.organization_id job.workspace_id organization_id workspace_id) job
  ]

  unfoldable pub get_document : Uuid → String → String → Database p → Option Document
  get_document id organization_id workspace_id db = elim (get id db.documents) [
    | none ↦ none
    | some document ↦
        then_some
          (in_scope document.organization_id document.workspace_id organization_id workspace_id)
          document
  ]

  unfoldable pub retry_dead_letter_ingestion_job :
      Call → Uuid → String → String → Database p → Outcome (Option IngestionJob × Database p)
  retry_dead_letter_ingestion_job call id organization_id workspace_id db =
      elim (get id db.ingestion_jobs) [
        | none ↦ ok (none, db)
        | some job ↦ do
          ensure (in_scope job.organization_id job.workspace_id organization_id workspace_id)
              "ingestion job not found in this workspace"
          ensure (is_dead_letter job.status) "only dead-letter jobs can be retried manually"
          let job' = retried_job (call.clock 0) job
          document ← context (get job'.document_id db.documents) "ingestion document not found"
          ok (some job', write_job id job' document db)
      ]

  -- The two loops of `recover_incomplete_ingestion_jobs`: the jobs, then their documents.
  unfoldable pub requeue_jobs :
      ℕ → List (Uuid × IngestionJob) → Table IngestionJob → Table IngestionJob
  requeue_jobs now [] jobs = jobs
  requeue_jobs now ((key, job) ∷ rest) jobs =
      requeue_jobs now rest (insert key (recovered_job now job) jobs)

  unfoldable pub requeue_documents :
      List (Uuid × IngestionJob) → Table Document → Outcome (Table Document)
  requeue_documents [] documents = ok documents
  requeue_documents ((key, job) ∷ rest) documents = do
    document ← context (get job.document_id documents) "ingestion document not found"
    requeue_documents rest (insert job.document_id (with_status queued document) documents)

  unfoldable pub recover_incomplete_ingestion_jobs : Call → Database p → Outcome (ℕ × Database p)
  recover_incomplete_ingestion_jobs call db = do
    let candidates = processing_rows (rows db.ingestion_jobs)
    documents ← requeue_documents candidates db.documents
    ok (
      length candidates,
      record db {
        ingestion_jobs = requeue_jobs (call.clock 0) candidates db.ingestion_jobs;
        documents = documents;
      },
    )
