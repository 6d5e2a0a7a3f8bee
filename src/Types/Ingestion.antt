-- ===== src/Types/Ingestion.antt =====
-- Documents and their ingestion jobs (packages/hangar-server/src/store.rs).
use hangar_ia.Prelude.{ℕ, String, Bool, Option}
use hangar_ia.Platform.{Uuid}

pub data IngestionStatus : Type 0 where
  queued processing succeeded retry_wait dead_letter : IngestionStatus

pub record Document : Type 0 where
  pub id : Uuid
  pub organization_id : String
  pub workspace_id : String
  pub name : String
  pub source : Option String
  pub content_sha256 : String
  pub created_by : Uuid
  pub created_at_unix_ms : ℕ
  pub chunk_count : ℕ
  pub ingestion_job_id : Uuid
  pub ingestion_status : IngestionStatus

pub record IngestionJob : Type 0 where
  pub id : Uuid
  pub document_id : Uuid
  pub organization_id : String
  pub workspace_id : String
  pub status : IngestionStatus
  pub attempts : ℕ
  pub pipeline_version : ℕ
  pub input_sha256 : String
  pub idempotency_key : Option String
  pub last_error : Option String
  pub next_attempt_at_unix_ms : Option ℕ
  pub lease_expires_at_unix_ms : Option ℕ
  pub created_at_unix_ms : ℕ
  pub updated_at_unix_ms : ℕ

pub record IngestionReceipt : Type 0 where
  pub document : Document
  pub job : IngestionJob
  pub deduplicated : Bool

pub record NewDocument : Type 0 where
  pub organization_id : String
  pub workspace_id : String
  pub name : String
  pub source : Option String
  pub content : String
  pub created_by : Uuid
  pub idempotency_key : Option String

pub record IngestionPayload : Type 0 where
  pub content : String

pub record ClaimedIngestionJob : Type 0 where
  pub job : IngestionJob
  pub content : String
