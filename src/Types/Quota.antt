-- ===== src/Types/Quota.antt =====
-- Capacity limits, usage and blobs (packages/hangar-server/src/store.rs).
use hangar_ia.Prelude.{ℕ, String, Bool}

pub record WorkspaceLimits : Type 0 where
  pub max_document_bytes : ℕ
  pub max_documents : ℕ
  pub max_ingestion_bytes : ℕ
  pub max_blob_bytes : ℕ
  pub max_blobs_bytes : ℕ
  pub max_memories : ℕ
  pub max_memory_bytes : ℕ

pub record WorkspaceUsage : Type 0 where
  pub organization_id : String
  pub workspace_id : String
  pub memory_count : ℕ
  pub memory_bytes : ℕ
  pub document_count : ℕ
  pub ingestion_bytes : ℕ
  pub blob_count : ℕ
  pub blob_bytes : ℕ
  pub queued_or_processing_jobs : ℕ

pub record BlobManifest : Type 0 where
  pub organization_id : String
  pub workspace_id : String
  pub sha256 : String
  pub bytes : ℕ
  pub media_type : String

pub record BlobReceipt : Type 0 where
  pub sha256 : String
  pub bytes : ℕ
  pub media_type : String
  pub deduplicated : Bool
