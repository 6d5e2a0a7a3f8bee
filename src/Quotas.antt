-- ===== src/Quotas.antt =====
-- Capacity: `workspace_usage`, the `enforce_*_limits` functions and the operations
-- `*_with_limits` of packages/hangar-server/src/store.rs.
pub mod Memories
pub mod Documents
use Prim.Native.String.{◌++◌ as append}
use hangar_ia.Prelude.{
  ℕ, String, Bool, true, false, not, ◌&&◌, ◌||◌, Option, none, some, List, [], ◌∷◌, map, filter,
  length, Outcome, ok, ensure, context, ◌>>=◌, ◌>>◌, add_usize, saturating_add_usize, len, leb, ltb,
  is_some, ◌==◌, string_eq, if◌then◌else◌,
}
use hangar_ia.Platform.{Uuid, Platform, Call}
use hangar_ia.Types.Memory.{Memory, NewMemory}
use hangar_ia.Types.Ingestion.{
  Document, IngestionJob, IngestionStatus, IngestionPayload, NewDocument, IngestionReceipt,
}
use hangar_ia.Types.Quota.{WorkspaceLimits, WorkspaceUsage, BlobManifest}
use hangar_ia.Database.{Database}
use hangar_ia.Scope.{in_scope, ensure_scope}
use hangar_ia.Memory.{create_memory}
use hangar_ia.Ingestion.{document_is_deduplicated, enqueue_document}

-- `Iterator::sum` on `usize`
unfoldable pub sum_usize : List ℕ → ℕ
sum_usize [] = 0
sum_usize (n ∷ ns) = add_usize n (sum_usize ns)

abbrev pub memory_in_scope : String → String → Uuid × Memory → Bool
memory_in_scope organization_id workspace_id (key, memory) =
    in_scope memory.organization_id memory.workspace_id organization_id workspace_id

abbrev document_in_scope : String → String → Uuid × Document → Bool
document_in_scope organization_id workspace_id (key, document) =
    in_scope document.organization_id document.workspace_id organization_id workspace_id

abbrev blob_in_scope : String → String → String × BlobManifest → Bool
blob_in_scope organization_id workspace_id (key, blob) =
    in_scope blob.organization_id blob.workspace_id organization_id workspace_id

abbrev is_queued_or_processing : IngestionStatus → Bool
is_queued_or_processing IngestionStatus.queued = true
is_queued_or_processing IngestionStatus.processing = true
is_queued_or_processing _ = false

abbrev job_in_work : String → String → Uuid × IngestionJob → Bool
job_in_work organization_id workspace_id (key, job) =
    in_scope job.organization_id job.workspace_id organization_id workspace_id
    && is_queued_or_processing job.status

abbrev pub memory_size : Uuid × Memory → ℕ
memory_size (key, memory) = len memory.content

module _ (p : Platform) where
  open p.uuids use {Table, get, rows}

  -- The fold over the documents, from a total on.
  unfoldable pub ingestion_bytes_from :
      Table IngestionPayload → ℕ → List (Uuid × Document) → Outcome ℕ
  ingestion_bytes_from payloads total [] = ok total
  ingestion_bytes_from payloads total ((key, document) ∷ rest) = do
    payload ←
        context (get document.ingestion_job_id payloads)
          "document references a missing ingestion payload"
    ingestion_bytes_from payloads (saturating_add_usize total (len payload.content)) rest

  unfoldable pub workspace_usage : String → String → Database p → Outcome WorkspaceUsage
  workspace_usage organization_id workspace_id db = do
    ensure_scope organization_id workspace_id
    let scoped_memories = filter (memory_in_scope organization_id workspace_id) (rows db.memories)
    let scoped_documents =
        filter (document_in_scope organization_id workspace_id) (rows db.documents)
    ingestion_bytes ← ingestion_bytes_from db.ingestion_payloads 0 scoped_documents
    let scoped_blobs = filter (blob_in_scope organization_id workspace_id) (p.texts.rows db.blobs)
    ok (record {
      organization_id = organization_id;
      workspace_id = workspace_id;
      memory_count = length scoped_memories;
      memory_bytes = sum_usize (map memory_size scoped_memories);
      document_count = length scoped_documents;
      ingestion_bytes = ingestion_bytes;
      blob_count = length scoped_blobs;
      blob_bytes = sum_usize (map (λ row. row.1.bytes) scoped_blobs);
      queued_or_processing_jobs =
          length (filter (job_in_work organization_id workspace_id) (rows db.ingestion_jobs));
    })

  unfoldable pub enforce_memory_limits :
      String → String → ℕ → WorkspaceLimits → Database p → Outcome (Unit {0})
  enforce_memory_limits organization_id workspace_id content_bytes limits db = do
    usage ← workspace_usage organization_id workspace_id db
    ensure (ltb usage.memory_count limits.max_memories) "workspace memory quota exceeded"
    ensure
        (leb content_bytes limits.max_memory_bytes
          && leb (saturating_add_usize usage.memory_bytes content_bytes) limits.max_memory_bytes)
        "workspace memory byte quota exceeded"
    ok tt

  unfoldable pub create_memory_with_limits :
      Call → NewMemory → WorkspaceLimits → Database p → Outcome (Memory × Database p)
  create_memory_with_limits call new limits db = do
    enforce_memory_limits new.organization_id new.workspace_id (len new.content) limits db
    create_memory p call new db

  unfoldable pub enforce_document_limits :
      String → String → ℕ → WorkspaceLimits → Database p → Outcome (Unit {0})
  enforce_document_limits organization_id workspace_id content_bytes limits db = do
    ensure (leb content_bytes limits.max_document_bytes)
        "document exceeds the configured byte limit"
    usage ← workspace_usage organization_id workspace_id db
    ensure (ltb usage.document_count limits.max_documents) "workspace document quota exceeded"
    ensure
        (leb (saturating_add_usize usage.ingestion_bytes content_bytes) limits.max_ingestion_bytes)
        "workspace ingestion byte quota exceeded"
    ok tt

  unfoldable pub enforce_blob_limits :
      String → String → ℕ → String → WorkspaceLimits → Database p → Outcome (Unit {0})
  enforce_blob_limits organization_id workspace_id bytes sha256 limits db = do
    ensure (leb bytes limits.max_blob_bytes) "blob exceeds the configured byte limit"
    usage ← workspace_usage organization_id workspace_id db
    let key = append organization_id (append ":" (append workspace_id (append ":" sha256)))
    let already_counted = is_some (p.texts.get key db.blobs)
    ensure
        (already_counted
          || leb (saturating_add_usize usage.blob_bytes bytes) limits.max_blobs_bytes)
        "workspace blob byte quota exceeded"
    ok tt

  unfoldable pub enqueue_document_with_limits :
      Call → NewDocument → WorkspaceLimits → Database p → Outcome (IngestionReceipt × Database p)
  enqueue_document_with_limits call new limits db = do
    if document_is_deduplicated p new db
        then ok tt
        else enforce_document_limits new.organization_id new.workspace_id (len new.content) limits
            db
    enqueue_document p call new db
