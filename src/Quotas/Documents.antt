-- ===== src/Quotas/Documents.antt =====
-- The quotas of documents, against the documents that are already known.
use hangar_ia.Prelude.{
  String, true, Option, none, some, or_option, is_some, is_some_and, ◌||◌, ◌≡◌, ok, >>-eq-ok, arith,
}
use hangar_ia.Platform.{Uuid, Platform, Call}
use hangar_ia.Types.Ingestion.{NewDocument, IngestionReceipt}
use hangar_ia.Types.Quota.{WorkspaceLimits}
use hangar_ia.Database.{Database}
use hangar_ia.Ingestion.{
  document_is_deduplicated, existing_job_id, known_by_key, lookup_text, idempotency_key,
  deduplication_key,
}
use hangar_ia.Ingestion.Acceptance.{enqueue-again, enqueue-existing}
use hangar_ia.Quotas.{enqueue_document_with_limits}

module _ (p : Platform) where
  -- The test of the quota finds a document that the queue knows.
  known-document_is_deduplicated :
      (new : NewDocument) (db : Database p) (k : Uuid)
      → existing_job_id p new db ≡ some k
      → document_is_deduplicated p new db ≡ true
  unfolding existing_job_id document_is_deduplicated
  known-document_is_deduplicated new db k h = by_key new.idempotency_key h
    where
      by_key :
          (key : Option String)
          → or_option
              (known_by_key p new key db.ingestion_idempotency)
              (lookup_text p (deduplication_key p new) db.ingestion_deduplication)
            ≡ some k
          → (is_some (lookup_text p (deduplication_key p new) db.ingestion_deduplication)
              || is_some_and
                  (λ key.
                    is_some (lookup_text p (idempotency_key p new key) db.ingestion_idempotency))
                  key)
            ≡ true
      by_key none e = ground (arith, e)
      by_key (some key) e = ground (arith, e)

  -- A document that was accepted is accepted again whatever the limits are, even if the workspace is
  -- full: the same receipt comes back, marked as known, and nothing changes.
  pub enqueue_document_with_limits-again :
      (call again : Call) (new : NewDocument) (limits later : WorkspaceLimits) (db db' : Database p)
      (r : IngestionReceipt)
      → enqueue_document_with_limits p call new limits db ≡ ok (r, db')
      → enqueue_document_with_limits p again new later db'
        ≡ ok (record r { deduplicated = true }, db')
  unfolding enqueue_document_with_limits
  enqueue_document_with_limits-again call again new limits later db db' r h =
      let (e, h1) = >>-eq-ok _ _ h in
      let (k, known) = enqueue-existing p call new db db' r h1 in
      rw (known-document_is_deduplicated new db' k known)
        (enqueue-again p call again new db db' r h1)
