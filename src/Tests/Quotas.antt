-- ===== src/Tests/Quotas.antt =====
-- Runs of the operations with limits.
use hangar_ia.Prelude.{◌+◌, ◌≤◌, ◌≡◌, refl, false, ok, arith, len, is_blank, is_whitespace}
use hangar_ia.Platform.Sample.{sample, call_at}
use hangar_ia.Types.Ingestion.{IngestionReceipt}
use hangar_ia.Database.{Database}
use hangar_ia.Scope.{ensure_scope}
use hangar_ia.Events.{insert_outbox_event}
use hangar_ia.Memory.{create_memory}
use hangar_ia.Memory.Records.{new_memory, check_new_memory, ensure_retention}
use hangar_ia.Ingestion.{
  enqueue_document, document_is_deduplicated, existing_job_id, store_new_document,
}
use hangar_ia.Ingestion.Jobs.{new_document, new_job, check_new_document}
use hangar_ia.Quotas.{
  create_memory_with_limits, enforce_memory_limits, workspace_usage, ingestion_bytes_from,
  sum_usize, enqueue_document_with_limits, enforce_document_limits,
}
use hangar_ia.Quotas.Memories.{memory_count, memory_bytes, create_memory_with_limits-le}
use hangar_ia.Tests.Data.{database_of, no_rows, a_fact, a_document, small_limits}

abbrev with_fact : Database sample
with_fact =
    database_of (create_memory_with_limits sample (call_at 100 1) a_fact small_limits no_rows)

a_fact-created :
    create_memory_with_limits sample (call_at 100 1) a_fact small_limits no_rows
    ≡ ok (new_memory sample (call_at 100 1) a_fact, with_fact)
unfolding create_memory_with_limits enforce_memory_limits workspace_usage ingestion_bytes_from
    sum_usize ensure_scope create_memory check_new_memory ensure_retention is_blank is_whitespace
    new_memory insert_outbox_event
a_fact-created = refl

create_memory_with_limits-le_example :
    (memory_count sample "acme" "lab" with_fact ≤ 2)
    × (memory_bytes sample "acme" "lab" with_fact ≤ 100)
    × (memory_count sample "acme" "lab" with_fact ≡ memory_count sample "acme" "lab" no_rows + 1)
    × (memory_bytes sample "acme" "lab" with_fact
        ≡ memory_bytes sample "acme" "lab" no_rows + len a_fact.content)
create_memory_with_limits-le_example =
    create_memory_with_limits-le sample (call_at 100 1) a_fact small_limits no_rows with_fact
      (new_memory sample (call_at 100 1) a_fact) refl (omega arith) (omega arith) a_fact-created

abbrev receipt : IngestionReceipt
receipt = record {
  document = new_document sample (call_at 100 1) a_document;
  job = new_job sample (call_at 100 1) a_document;
  deduplicated = false;
}

abbrev with_document : Database sample
with_document =
    database_of
      (enqueue_document_with_limits sample (call_at 100 1) a_document small_limits no_rows)

a_document-accepted :
    enqueue_document_with_limits sample (call_at 100 1) a_document small_limits no_rows
    ≡ ok (receipt, with_document)
unfolding enqueue_document_with_limits document_is_deduplicated enforce_document_limits
    workspace_usage ingestion_bytes_from sum_usize ensure_scope enqueue_document check_new_document
    existing_job_id store_new_document new_document new_job is_blank is_whitespace
    insert_outbox_event
a_document-accepted = refl
