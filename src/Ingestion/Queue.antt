-- ===== src/Ingestion/Queue.antt =====
-- Sequences of operations on the queue.
use hangar_ia.Prelude.{
  ℕ, String, true, false, not, ◌≡◌, Option, none, ok, ensure, ensure-ok, context, context-eq-ok,
  >>-eq-ok, >>=-eq-ok, Option-cases, inl, inr, arith, subst, is_blank,
}
use hangar_ia.Platform.{Uuid, Platform, Call}
use hangar_ia.Types.Ingestion.{
  IngestionJob, IngestionStatus, NewDocument, IngestionReceipt, ClaimedIngestionJob, processing,
  dead_letter,
}
use hangar_ia.Database.{Database, empty_database}
use hangar_ia.Scope.{in_scope}
use hangar_ia.Ingestion.{
  enqueue_document, claim_next_ingestion_job, fail_claimed_ingestion_job,
  retry_dead_letter_ingestion_job, recover_incomplete_ingestion_jobs,
}
use hangar_ia.Ingestion.Jobs.{is_processing, is_dead_letter}
use hangar_ia.Ingestion.Links.{HasLinks}
use hangar_ia.Ingestion.Arrivals.{empty-HasLinks, enqueue-HasLinks}
use hangar_ia.Ingestion.Claims.{claim_total}
use hangar_ia.Ingestion.Recovery.{recover_total}
use hangar_ia.Ingestion.Settling.{fail_total, retry_total}

is_processing-eq : (s : IngestionStatus) → is_processing s ≡ true → s ≡ processing
is_processing-eq s h = ground arith

is_dead_letter-eq : (s : IngestionStatus) → is_dead_letter s ≡ true → s ≡ dead_letter
is_dead_letter-eq s h = ground arith

module _ (p : Platform) where
  open p.uuids use {get}

  -- One operation that succeeds. A new document draws uuids that no row has.
  pub data QueueStep : Database p → Database p → Type 1 where
    enqueued :
        {db db' : Database p} (call : Call) (new : NewDocument) (r : IngestionReceipt)
        → get (call.ids 0) db.ingestion_jobs ≡ none
        → get (call.ids 1) db.documents ≡ none
        → enqueue_document p call new db ≡ ok (r, db')
        → QueueStep db db'
    claimed :
        {db db' : Database p} (call : Call) (r : Option ClaimedIngestionJob)
        → claim_next_ingestion_job p call db ≡ ok (r, db')
        → QueueStep db db'
    failed :
        {db db' : Database p} (call : Call) (id : Uuid) (error : String) (j : IngestionJob)
        → fail_claimed_ingestion_job p call id error db ≡ ok (j, db')
        → QueueStep db db'
    retried :
        {db db' : Database p} (call : Call) (id : Uuid) (o w : String) (r : Option IngestionJob)
        → retry_dead_letter_ingestion_job p call id o w db ≡ ok (r, db')
        → QueueStep db db'
    recovered :
        {db db' : Database p} (call : Call) (n : ℕ)
        → recover_incomplete_ingestion_jobs p call db ≡ ok (n, db')
        → QueueStep db db'

  pub data QueueReach (db : Database p) : Database p → Type 1 where
    start : QueueReach db db
    next : {db1 db2 : Database p} → QueueReach db db1 → QueueStep db1 db2 → QueueReach db db2

  claimed-HasLinks :
      (call : Call) (r : Option ClaimedIngestionJob) (db db' : Database p)
      → claim_next_ingestion_job p call db ≡ ok (r, db')
      → HasLinks p db
      → HasLinks p db'
  claimed-HasLinks call r db db' h v =
      let (r1, db1, e, end, v1) = claim_total p call db v in
      let same : db1 ≡ db' = ground (arith, e, h) in subst (HasLinks p) same v1

  failed-HasLinks :
      (call : Call) (id : Uuid) (error : String) (j : IngestionJob) (db db' : Database p)
      → fail_claimed_ingestion_job p call id error db ≡ ok (j, db')
      → HasLinks p db
      → HasLinks p db'
  unfolding fail_claimed_ingestion_job
  failed-HasLinks call id error j db db' h v =
      let (a, h1) =
        >>-eq-ok (ensure (not (is_blank error)) "ingestion error cannot be empty") _ h in
      let (job, b, h2) =
        >>=-eq-ok (context (get id db.ingestion_jobs) "ingestion job not found") _ h1 in
      let (c, h3) =
        >>-eq-ok (ensure (is_processing job.status) "only a processing job may fail") _ h2 in
      let given : is_blank error ≡ false = ground (arith, ensure-ok _ _ a) in
      let (j1, db1, e, gone_on, jobs, document, kept, documents, v1) =
        fail_total p call id error job db v given (context-eq-ok _ _ b)
          (is_processing-eq job.status (ensure-ok _ _ c)) in
      let same : db1 ≡ db' = ground (arith, e, h) in subst (HasLinks p) same v1

  retried-HasLinks :
      (call : Call) (id : Uuid) (o w : String) (r : Option IngestionJob) (db db' : Database p)
      → retry_dead_letter_ingestion_job p call id o w db ≡ ok (r, db')
      → HasLinks p db
      → HasLinks p db'
  unfolding retry_dead_letter_ingestion_job
  retried-HasLinks call id o w r db db' h v = elim (Option-cases (get id db.ingestion_jobs)) [
    | inl missing ↦ let same : db ≡ db' = ground (arith, h, missing) in subst (HasLinks p) same v
    | inr (job, found) ↦
        let k = rw (found, retry_dead_letter_ingestion_job) at h in
        let (a, h1) =
          >>-eq-ok
            (ensure (in_scope job.organization_id job.workspace_id o w)
              "ingestion job not found in this workspace")
            _ k in
        let (b, h2) =
          >>-eq-ok
            (ensure (is_dead_letter job.status) "only dead-letter jobs can be retried manually") _
            h1 in
        let (db1, e, s, v1) =
          retry_total p call id o w job db v found (ensure-ok _ _ a)
            (is_dead_letter-eq job.status (ensure-ok _ _ b)) in
        let same : db1 ≡ db' = ground (arith, e, h) in subst (HasLinks p) same v1
  ]

  recovered-HasLinks :
      (call : Call) (n : ℕ) (db db' : Database p)
      → recover_incomplete_ingestion_jobs p call db ≡ ok (n, db')
      → HasLinks p db
      → HasLinks p db'
  recovered-HasLinks call n db db' h v =
      let (db1, e, each, v1) = recover_total p call db v in
      let same : db1 ≡ db' = ground (arith, e, h) in subst (HasLinks p) same v1

  QueueStep-HasLinks : {db db' : Database p} → QueueStep db db' → HasLinks p db → HasLinks p db'
  QueueStep-HasLinks {db} {db'} (enqueued call new r f1 f2 e) v =
      enqueue-HasLinks p call new db db' r f1 f2 e v
  QueueStep-HasLinks {db} {db'} (claimed call r e) v = claimed-HasLinks call r db db' e v
  QueueStep-HasLinks {db} {db'} (failed call id error j e) v =
      failed-HasLinks call id error j db db' e v
  QueueStep-HasLinks {db} {db'} (retried call id o w r e) v =
      retried-HasLinks call id o w r db db' e v
  QueueStep-HasLinks {db} {db'} (recovered call n e) v = recovered-HasLinks call n db db' e v

  -- From an empty database on, whatever documents arrive, whatever becomes of their jobs and however
  -- often the server recovers, the tables of the queue agree: every job has its id for its key, its
  -- document, with the same status, scope and job id, and its payload.
  pub QueueReach-HasLinks : {db : Database p} → QueueReach (empty_database p) db → HasLinks p db
  QueueReach-HasLinks start = empty-HasLinks p
  QueueReach-HasLinks (next r s) = QueueStep-HasLinks s (QueueReach-HasLinks r)
