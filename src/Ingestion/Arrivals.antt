-- ===== src/Ingestion/Arrivals.antt =====
-- A new document keeps the tables of the queue in agreement.
use hangar_ia.Prelude.{
  ◌≡◌, refl, none, some, ok, arith, nat_eq, inl, inr, ◌⊎◌, Option-cases, ==_iff, ==_refl, subst,
  sym, context, >>-eq-ok, >>=-eq-ok,
}
use hangar_ia.Platform.{Uuid, Platform, Call}
use hangar_ia.Platform.Exclusive.{insert-cases}
use hangar_ia.Types.Ingestion.{IngestionJob, NewDocument, IngestionReceipt}
use hangar_ia.Database.{Database, empty_database}
use hangar_ia.Events.{insert_outbox_event}
use hangar_ia.Ingestion.{store_new_document, enqueue_document, existing_job_id}
use hangar_ia.Ingestion.Jobs.{new_job, new_document, check_new_document}
use hangar_ia.Ingestion.Links.{HasLinks, IsLinked}

module _ (p : Platform) where
  open p.uuids use {get, insert, get-insert, get-empty}

  pub empty-HasLinks : HasLinks p (empty_database p)
  empty-HasLinks = record {
    at = λ k j h. absurd (ground (arith, h, get-empty {V = IngestionJob} k));
  }

  -- What a success has done: it found the job of an equal document, or it stored a new one.
  pub enqueue_document-ok :
      (call : Call) (new : NewDocument) (db db' : Database p) (r : IngestionReceipt)
      → enqueue_document p call new db ≡ ok (r, db')
      → (db' ≡ db) ⊎ (db' ≡ store_new_document p call new db)
  unfolding enqueue_document
  enqueue_document-ok call new db db' r h =
      let a = >>-eq-ok (check_new_document new) _ h in
      elim (Option-cases (existing_job_id p new db)) [
        | inl unknown ↦ inr (ground (arith, rw unknown at a.1))
        | inr (k, known) ↦
            let b = >>=-eq-ok (context (get k db.ingestion_jobs) _) _ (rw known at a.1) in
            let c = >>=-eq-ok (context (get b.0.document_id db.documents) _) _ b.2 in
            inl (ground (arith, c.2))
      ]

  new-IsLinked :
      (call : Call) (new : NewDocument) (db : Database p)
      → IsLinked p (call.ids 0) (new_job p call new) (store_new_document p call new db)
  unfolding store_new_document new_job new_document insert_outbox_event
  new-IsLinked call new db = record {
    id = refl;
    document = new_document p call new;
    stored = rw (get-insert, ==_refl (call.ids 1));
    fits = record {
      id = refl;
      job_id = refl;
      status = refl;
      organization = refl;
      workspace = refl;
    };
    payload = record { content = new.content };
    kept = rw (get-insert, ==_refl (call.ids 0));
  }

  -- A job that was there stays linked, since the new rows have keys of their own.
  old-IsLinked :
      (call : Call) (new : NewDocument) (db : Database p) (k : Uuid) (j : IngestionJob)
      → get (call.ids 0) db.ingestion_jobs ≡ none
      → get (call.ids 1) db.documents ≡ none
      → get k db.ingestion_jobs ≡ some j
      → IsLinked p k j db
      → IsLinked p k j (store_new_document p call new db)
  unfolding store_new_document new_job new_document insert_outbox_event
  old-IsLinked call new db k j fresh_job fresh_document found l = record {
    id = l.id;
    document = l.document;
    stored =
        rw get-insert (ground (arith, l.stored, fresh_document, ==_iff (call.ids 1) j.document_id));
    fits = l.fits;
    payload = l.payload;
    kept = rw get-insert (ground (arith, l.kept, fresh_job, found, ==_iff (call.ids 0) k));
  }

  store_new_document-HasLinks :
      (call : Call) (new : NewDocument) (db : Database p)
      → get (call.ids 0) db.ingestion_jobs ≡ none
      → get (call.ids 1) db.documents ≡ none
      → HasLinks p db
      → HasLinks p (store_new_document p call new db)
  unfolding store_new_document insert_outbox_event new_job
  store_new_document-HasLinks call new db fresh_job fresh_document v = record {
    at = λ k x h.
        elim (insert-cases p (call.ids 0) k (new_job p call new) x db.ingestion_jobs
          (store_new_document p call new db).ingestion_jobs refl h) [
            | inl (same, is_new) ↦
                subst (λ y. IsLinked p y x (store_new_document p call new db)) same
                  (subst (λ y. IsLinked p (call.ids 0) y (store_new_document p call new db))
                    (sym is_new) (new-IsLinked call new db))
            | inr old ↦ old-IsLinked call new db k x fresh_job fresh_document old (v.at k x old)
          ];
  }

  pub enqueue-HasLinks :
      (call : Call) (new : NewDocument) (db db' : Database p) (r : IngestionReceipt)
      → get (call.ids 0) db.ingestion_jobs ≡ none
      → get (call.ids 1) db.documents ≡ none
      → enqueue_document p call new db ≡ ok (r, db')
      → HasLinks p db
      → HasLinks p db'
  enqueue-HasLinks call new db db' r fresh_job fresh_document h v =
      elim (enqueue_document-ok call new db db' r h) [
        | inl same ↦ subst (HasLinks p) (sym same) v
        | inr stored ↦
            subst (HasLinks p) (sym stored)
              (store_new_document-HasLinks call new db fresh_job fresh_document v)
      ]
