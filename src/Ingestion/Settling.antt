-- ===== src/Ingestion/Settling.antt =====
-- Failures, manual retries and new documents: what each writes, and that the tables agree afterwards.
use hangar_ia.Prelude.{
  ℕ, ◌+◌, ◌-◌, ◌%◌, ◌^◌, ◌≤◌, ◌≡◌, refl, true, false, none, some, Bool-cases, inl, inr, leb,
  take_chars, ◌==◌, ok, arith, String, is_blank, nat_eq, string_eq, ap,
}
use hangar_ia.Platform.{Uuid, Platform, Call}
use hangar_ia.Types.Ingestion.{Document, IngestionJob, processing, dead_letter, retry_wait}
use hangar_ia.Database.{Database}
use hangar_ia.Scope.{in_scope}
use hangar_ia.Events.{insert_audit_event, insert_outbox_event}
use hangar_ia.Ingestion.{
  record_failure, fail_claimed_ingestion_job, retry_dead_letter_ingestion_job, write_job,
}
use hangar_ia.Ingestion.Jobs.{is_processing, is_dead_letter, failed_job, retried_job, with_status}
use hangar_ia.Ingestion.Links.{HasLinks, Follows, Rewritten-HasLinks}

Follows-failed_job : (now : ℕ) (e : String) (j : IngestionJob) → Follows j (failed_job now e j)
unfolding failed_job
Follows-failed_job now e j = ground arith

Follows-retried_job : (now : ℕ) (j : IngestionJob) → Follows j (retried_job now j)
unfolding retried_job
Follows-retried_job now j = record {
  id = refl;
  document_id = refl;
  organization = refl;
  workspace = refl;
}

module _ (p : Platform) where
  open p.uuids use {get, insert, get-insert}

  -- How a failed job goes on: from its third attempt on it is a dead letter, and before that it waits
  -- for a retry, one second after its first attempt and two after its second.
  pub data GoesOn (now : ℕ) (j j' : IngestionJob) : Type 0 where
    ended :
        3 ≤ j.attempts
        → j'.status ≡ dead_letter
        → j'.next_attempt_at_unix_ms ≡ none
        → GoesOn now j j'
    waits_one_second :
        j.attempts ≤ 1
        → j'.status ≡ retry_wait
        → j'.next_attempt_at_unix_ms ≡ some ((now + 1000) % 2 ^ 128)
        → GoesOn now j j'
    waits_two_seconds :
        j.attempts ≡ 2
        → j'.status ≡ retry_wait
        → j'.next_attempt_at_unix_ms ≡ some ((now + 2000) % 2 ^ 128)
        → GoesOn now j j'

  -- A job that has failed: it goes on so, keeps its error cut at 512 characters, gives its lease back,
  -- and is otherwise as it was.
  pub record Failed (now : ℕ) (error : String) (j j' : IngestionJob) : Type 0 where
    pub goes_on : GoesOn now j j'
    pub rest : j' ≡ record j {
      status = j'.status;
      last_error = some (take_chars 512 error);
      next_attempt_at_unix_ms = j'.next_attempt_at_unix_ms;
      lease_expires_at_unix_ms = none;
      updated_at_unix_ms = now;
    }

  failed_job-GoesOn :
      (now : ℕ) (error : String) (j : IngestionJob) → GoesOn now j (failed_job now error j)
  unfolding failed_job
  failed_job-GoesOn now error j = elim (Bool-cases (leb 3 j.attempts)) [
    | inl last ↦ ended (ground (arith, last)) (rw last refl) (rw last refl)
    | inr again ↦ elim (Bool-cases (j.attempts == 2)) [
      | inl second ↦
          let two : j.attempts ≡ 2 = ground (arith, second) in
          waits_two_seconds two (rw again refl) (rw (again, two) refl)
      | inr other ↦
          let few : j.attempts ≤ 1 = ground (arith, again, other) in
          let none_before : j.attempts - 1 ≡ 0 = omega (arith, few) in
          waits_one_second few (rw again refl) (rw (again, none_before) refl)
    ]
  ]

  failed_job-Failed :
      (now : ℕ) (error : String) (j : IngestionJob) → Failed now error j (failed_job now error j)
  unfolding failed_job
  failed_job-Failed now error j = record {
    goes_on = failed_job-GoesOn now error j;
    rest = elim (Bool-cases (leb 3 j.attempts)) [
      | inl last ↦ rw last refl
      | inr again ↦ rw again refl
    ];
  }

  -- With the tables in agreement, a processing job with an error that is not blank is always settled:
  -- it is stored, and its document with it, as a dead letter from its third attempt on, and else as
  -- waiting for a retry in one second, or in two after its second attempt; and the tables still agree.
  pub fail_total :
      (call : Call) (id : Uuid) (error : String) (j : IngestionJob) (db : Database p)
      → HasLinks p db
      → is_blank error ≡ false
      → get id db.ingestion_jobs ≡ some j
      → j.status ≡ processing
      → (j' : IngestionJob) × (db' : Database p) × (fail_claimed_ingestion_job p call id error db
          ≡ ok (j', db'))
        × Failed (call.clock 0) error j j'
        × (db'.ingestion_jobs ≡ insert id j' db.ingestion_jobs)
        × (document : Document) × (get j.document_id db.documents ≡ some document)
        × (db'.documents
            ≡ insert j.document_id (record document { ingestion_status = j'.status }) db.documents)
        × HasLinks p db'
  unfolding fail_claimed_ingestion_job record_failure insert_audit_event insert_outbox_event
  fail_total call id error j db v given found leased =
      let j' = failed_job (call.clock 0) error j in
      let busy : is_processing j.status ≡ true = ap is_processing leased in
      let b = v.at id j found in
      let d' = with_status j'.status b.document in
      let db' = record_failure p call id j' d' (record db {
        documents = insert d'.id d' db.documents;
        ingestion_jobs = insert id j' db.ingestion_jobs;
      }) in
      let f = Follows-failed_job (call.clock 0) error j in
      let documents : db'.documents ≡ insert j.document_id d' db.documents = rw (b.fits.id) refl in
      (
        j',
        db',
        rw (given, found, busy, b.stored),
        failed_job-Failed (call.clock 0) error j,
        refl,
        b.document,
        b.stored,
        documents,
        Rewritten-HasLinks p id j j' b.document db db' v found b.stored f
            (record { jobs = refl; documents = rw (b.fits.id, f.document_id); payloads = refl }),
      )

  -- With the tables in agreement, the retry of a dead letter of the caller's scope succeeds: the job
  -- is stored as it was, but queued, without attempts or error, and due now; and the tables still
  -- agree.
  pub retry_total :
      (call : Call) (id : Uuid) (o w : String) (j : IngestionJob) (db : Database p)
      → HasLinks p db
      → get id db.ingestion_jobs ≡ some j
      → in_scope j.organization_id j.workspace_id o w ≡ true
      → j.status ≡ dead_letter
      → (db' : Database p) × (retry_dead_letter_ingestion_job p call id o w db
          ≡ ok (some (retried_job (call.clock 0) j), db'))
        × (db'.ingestion_jobs ≡ insert id (retried_job (call.clock 0) j) db.ingestion_jobs)
        × HasLinks p db'
  unfolding retry_dead_letter_ingestion_job write_job retried_job
  retry_total call id o w j db v found scope dead =
      let j' = retried_job (call.clock 0) j in
      let ended : is_dead_letter j.status ≡ true = ap is_dead_letter dead in
      let b = v.at id j found in
      let f = Follows-retried_job (call.clock 0) j in
      let db' = write_job p id j' b.document db in
      (
        db',
        rw (found, retry_dead_letter_ingestion_job, scope, ended, b.stored),
        refl,
        Rewritten-HasLinks p id j j' b.document db db' v found b.stored f
            (record { jobs = refl; documents = refl; payloads = refl }),
      )
