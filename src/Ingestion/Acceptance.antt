-- ===== src/Ingestion/Acceptance.antt =====
-- `enqueue_document`: a valid document is accepted, the tables agree, and a repeated request gets the
-- receipt of the first.
use hangar_ia.Prelude.{
  ◌≡◌, refl, true, false, Option, none, some, ok, arith, String, inl, inr, or_option, nat_eq,
  string_eq, ==_refl, Option-cases, subst, >>-eq-ok, >>=-eq-ok, context-eq-ok, context,
}
use hangar_ia.Platform.{Uuid, Platform, Call}
use hangar_ia.Types.Ingestion.{Document, IngestionJob, NewDocument, IngestionReceipt}
use hangar_ia.Database.{Database}
use hangar_ia.Events.{insert_outbox_event}
use hangar_ia.Ingestion.{
  store_new_document, enqueue_document, existing_job_id, deduplication_key, remember_key,
  known_by_key,
}
use hangar_ia.Ingestion.Jobs.{new_job, new_document, check_new_document}

module _ (p : Platform) where
  open p.uuids use {get, insert, get-insert}

  get-insert_self :
      (k : String) (v : Uuid) (t : p.texts.Table Uuid)
      → p.texts.get k (p.texts.insert k v t) ≡ some v
  get-insert_self k v t = rw (p.texts.get-insert, ==_refl k)

  known_by_key-remember_key :
      (new : NewDocument) (key : Option String) (k : Uuid) (t : p.texts.Table Uuid)
      → or_option (known_by_key p new key (remember_key p new key k t)) (some k) ≡ some k
  known_by_key-remember_key new none k t = refl
  known_by_key-remember_key new (some key) k t = rw get-insert_self

  -- What a new document stores is found again by its keys.
  existing-store_new_document :
      (call : Call) (new : NewDocument) (db : Database p)
      → existing_job_id p new (store_new_document p call new db) ≡ some (call.ids 0)
  unfolding existing_job_id store_new_document insert_outbox_event new_job
  existing-store_new_document call new db =
      rw (get-insert_self (deduplication_key p new) (call.ids 0) db.ingestion_deduplication)
        (known_by_key-remember_key new new.idempotency_key (call.ids 0) db.ingestion_idempotency)

  -- The rows of a receipt are stored.
  pub record IsReceipt (r : IngestionReceipt) (db : Database p) : Type 0 where
    pub job : get r.job.id db.ingestion_jobs ≡ some r.job
    pub document : get r.job.document_id db.documents ≡ some r.document

  -- The acceptance of a valid document that is not known.
  enqueue-new :
      (call : Call) (new : NewDocument) (db : Database p)
      → check_new_document new ≡ ok tt
      → existing_job_id p new db ≡ none
      → enqueue_document p call new db
        ≡ ok (
          record {
            document = new_document p call new;
            job = new_job p call new;
            deduplicated = false;
          },
          store_new_document p call new db,
        )
  unfolding enqueue_document
  enqueue-new call new db valid unknown = rw (valid, unknown)

  enqueue-known :
      (call : Call) (new : NewDocument) (db : Database p) (k : Uuid) (j : IngestionJob)
      (d : Document)
      → check_new_document new ≡ ok tt
      → existing_job_id p new db ≡ some k
      → get k db.ingestion_jobs ≡ some j
      → get j.document_id db.documents ≡ some d
      → enqueue_document p call new db
        ≡ ok (record { document = d; job = j; deduplicated = true }, db)
  unfolding enqueue_document
  enqueue-known call new db k j d valid known job document = rw (valid, known, job, document)

  enqueue-new_again :
      (call again : Call) (new : NewDocument) (db : Database p)
      → check_new_document new ≡ ok tt
      → enqueue_document p again new (store_new_document p call new db)
        ≡ ok (
          record {
            document = new_document p call new;
            job = new_job p call new;
            deduplicated = true;
          },
          store_new_document p call new db,
        )
  unfolding store_new_document insert_outbox_event new_job new_document
  enqueue-new_again call again new db valid =
      enqueue-known again new (store_new_document p call new db) (call.ids 0) (new_job p call new)
        (new_document p call new) valid (existing-store_new_document call new db)
        (rw (get-insert, ==_refl (call.ids 0))) (rw (get-insert, ==_refl (call.ids 1)))

  -- Sending the same document again gives the receipt of the first time, marked as known, and changes
  -- nothing.
  pub enqueue-again :
      (call again : Call) (new : NewDocument) (db db' : Database p) (r : IngestionReceipt)
      → enqueue_document p call new db ≡ ok (r, db')
      → enqueue_document p again new db' ≡ ok (record r { deduplicated = true }, db')
  unfolding enqueue_document
  enqueue-again call again new db db' r h =
      let a = >>-eq-ok (check_new_document new) _ h in
      elim (Option-cases (existing_job_id p new db)) [
        | inl unknown ↦
            let e = enqueue-new call new db a.0 unknown in
            let same : store_new_document p call new db ≡ db' = ground (arith, e, h) in
            let first : IngestionReceipt = record {
              document = new_document p call new;
              job = new_job p call new;
              deduplicated = false;
            } in
            let receipt : first ≡ r = ground (arith, e, h) in
            subst (λ d. enqueue_document p again new d ≡ ok (record r { deduplicated = true }, d))
              same
              (subst
                (λ (x : IngestionReceipt).
                  enqueue_document p again new (store_new_document p call new db)
                  ≡ ok (record x { deduplicated = true }, store_new_document p call new db))
                receipt (enqueue-new_again call again new db a.0))
        | inr (k, known) ↦
            let b = >>=-eq-ok (context (get k db.ingestion_jobs) _) _ (rw known at a.1) in
            let c = >>=-eq-ok (context (get b.0.document_id db.documents) _) _ b.2 in
            let e =
              enqueue-known again new db k b.0 c.0 a.0 known (context-eq-ok _ _ b.1)
                (context-eq-ok _ _ c.1) in
            let same : db ≡ db' = ground (arith, c.2) in
            let receipt : record { document = c.0; job = b.0; deduplicated = true } ≡ r =
              ground (arith, c.2) in
            ground (arith, e, same, receipt)
      ]

  -- An accepted document is known by its keys.
  pub enqueue-existing :
      (call : Call) (new : NewDocument) (db db' : Database p) (r : IngestionReceipt)
      → enqueue_document p call new db ≡ ok (r, db')
      → (k : Uuid) × (existing_job_id p new db' ≡ some k)
  unfolding enqueue_document
  enqueue-existing call new db db' r h =
      let a = >>-eq-ok (check_new_document new) _ h in
      elim (Option-cases (existing_job_id p new db)) [
        | inl unknown ↦
            let same : store_new_document p call new db ≡ db' =
              ground (arith, enqueue-new call new db a.0 unknown, h) in
            (
              call.ids 0,
              subst (λ d. existing_job_id p new d ≡ some (call.ids 0)) same
                  (existing-store_new_document call new db),
            )
        | inr (k, known) ↦
            let b = >>=-eq-ok (context (get k db.ingestion_jobs) _) _ (rw known at a.1) in
            let c = >>=-eq-ok (context (get b.0.document_id db.documents) _) _ b.2 in
            let same : db ≡ db' = ground (arith, c.2) in
            (k, subst (λ d. existing_job_id p new d ≡ some k) same known)
      ]
