-- ===== src/Ingestion/Jobs.antt =====
-- The documents and jobs that the operations on the queue write, and the tests that they make
-- (packages/hangar-server/src/store.rs).
use Prim.Native.String.{◌++◌ as append}
use hangar_ia.Prelude.{
  ℕ, String, Bool, true, false, not, ◌&&◌, ◌||◌, none, some, List, filter, Outcome, ok, ensure,
  add_u32, add_u128, is_blank, take_chars, is_some_and, leb, len, nat_eq, string_eq, if◌then◌else◌,
  ◌>>◌, min, ◌*◌, ◌^◌, ◌-◌,
}
use hangar_ia.Platform.{Uuid, Platform, Call}
use hangar_ia.Types.Ingestion.{
  Document, IngestionJob, IngestionStatus, NewDocument, queued, processing, retry_wait, dead_letter,
}

abbrev pub ingestion_pipeline_version : ℕ
ingestion_pipeline_version = 1

abbrev pub max_ingestion_attempts : ℕ
max_ingestion_attempts = 3

abbrev pub ingestion_lease_ms : ℕ
ingestion_lease_ms = 30000

-- `1_000 * u128::from(2_u32.saturating_pow(attempt.saturating_sub(1)))`
abbrev pub retry_backoff_ms : ℕ → ℕ
retry_backoff_ms attempt = 1000 * min (2 ^ (attempt - 1)) (2 ^ 32 - 1)

abbrev pub is_queued : IngestionStatus → Bool
is_queued queued = true
is_queued _ = false

abbrev pub is_processing : IngestionStatus → Bool
is_processing processing = true
is_processing _ = false

abbrev pub is_retry_wait : IngestionStatus → Bool
is_retry_wait retry_wait = true
is_retry_wait _ = false

abbrev pub is_dead_letter : IngestionStatus → Bool
is_dead_letter dead_letter = true
is_dead_letter _ = false

-- The tests of a document that `enqueue_document` makes first.
unfoldable pub check_new_document : NewDocument → Outcome (Unit {0})
check_new_document new = do
  ensure (not (is_blank new.organization_id)) "organization_id cannot be empty"
  ensure (not (is_blank new.workspace_id)) "workspace_id cannot be empty"
  ensure (not (is_blank new.name)) "name cannot be empty"
  ensure (not (is_blank new.content)) "content cannot be empty"
  elim new.idempotency_key [
    | none ↦ ok tt
    | some idempotency_key ↦ do
      ensure (not (is_blank idempotency_key)) "idempotency key cannot be empty"
      ensure (leb (len idempotency_key) 256) "idempotency key is too long"
      ok tt
  ]

-- `format!("{}:{}:{}:{}", ...)` with the pipeline version, which is 1
abbrev pub deduplication_key_of : String → String → String → String
deduplication_key_of organization_id workspace_id input_sha256 =
    append organization_id
      (append ":" (append workspace_id (append ":" (append input_sha256 (append ":" "1")))))

-- `format!("{}:{}:{}", ...)`
abbrev pub idempotency_key_of : String → String → String → String
idempotency_key_of organization_id workspace_id token_hash =
    append organization_id (append ":" (append workspace_id (append ":" token_hash)))

-- The document and the job that a new document begins with.
unfoldable pub new_document : Platform → Call → NewDocument → Document
new_document p call new = record {
  id = call.ids 1;
  organization_id = new.organization_id;
  workspace_id = new.workspace_id;
  name = new.name;
  source = new.source;
  content_sha256 = p.digest new.content;
  created_by = new.created_by;
  created_at_unix_ms = call.clock 0;
  chunk_count = 0;
  ingestion_job_id = call.ids 0;
  ingestion_status = queued;
}

unfoldable pub new_job : Platform → Call → NewDocument → IngestionJob
new_job p call new = record {
  id = call.ids 0;
  document_id = call.ids 1;
  organization_id = new.organization_id;
  workspace_id = new.workspace_id;
  status = queued;
  attempts = 0;
  pipeline_version = ingestion_pipeline_version;
  input_sha256 = p.digest new.content;
  idempotency_key = new.idempotency_key;
  last_error = none;
  next_attempt_at_unix_ms = some (call.clock 0);
  lease_expires_at_unix_ms = none;
  created_at_unix_ms = call.clock 0;
  updated_at_unix_ms = call.clock 0;
}

-- A job that the worker may take.
unfoldable pub is_eligible : ℕ → IngestionJob → Bool
is_eligible now job =
    is_queued job.status
    || (is_retry_wait job.status && is_some_and (λ at. leb at now) job.next_attempt_at_unix_ms)

-- What a claim, a failure, a recovery and a manual retry make of a job.
unfoldable pub claimed_job : ℕ → IngestionJob → IngestionJob
claimed_job now job = record job {
  status = processing;
  attempts = add_u32 job.attempts 1;
  next_attempt_at_unix_ms = none;
  lease_expires_at_unix_ms = some (add_u128 now ingestion_lease_ms);
  updated_at_unix_ms = now;
}

unfoldable pub failed_job : ℕ → String → IngestionJob → IngestionJob
failed_job now error job =
    if leb max_ingestion_attempts job.attempts
    then record job {
      last_error = some (take_chars 512 error);
      lease_expires_at_unix_ms = none;
      status = dead_letter;
      next_attempt_at_unix_ms = none;
      updated_at_unix_ms = now;
    }
    else record job {
      last_error = some (take_chars 512 error);
      lease_expires_at_unix_ms = none;
      status = retry_wait;
      next_attempt_at_unix_ms = some (add_u128 now (retry_backoff_ms job.attempts));
      updated_at_unix_ms = now;
    }

unfoldable pub recovered_job : ℕ → IngestionJob → IngestionJob
recovered_job now job = record job {
  status = queued;
  lease_expires_at_unix_ms = none;
  next_attempt_at_unix_ms = some now;
  updated_at_unix_ms = now;
}

unfoldable pub retried_job : ℕ → IngestionJob → IngestionJob
retried_job now job = record job {
  status = queued;
  attempts = 0;
  last_error = none;
  next_attempt_at_unix_ms = some now;
  lease_expires_at_unix_ms = none;
  updated_at_unix_ms = now;
}

abbrev pub with_status : IngestionStatus → Document → Document
with_status status document = record document { ingestion_status = status }

-- The rows that `recover_incomplete_ingestion_jobs` collects.
abbrev pub processing_rows : List (Uuid × IngestionJob) → List (Uuid × IngestionJob)
processing_rows rows = filter (λ (row : Uuid × IngestionJob). is_processing row.1.status) rows
