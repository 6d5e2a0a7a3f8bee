-- ===== src/Ingestion/Recovery.antt =====
-- The recovery of the jobs that a stopped server left in processing.
use hangar_ia.Prelude.{
  ℕ, ◌<◌, ◌≡◌, refl, sym, ◌∙◌, ap, subst, Option, none, some, List, [], ◌∷◌, ok, All, All-filter,
  arith, length, ◌==◌, nat_eq, if◌then◌else◌, ==_iff, Bool-cases, inl, inr,
}
use hangar_ia.Platform.{Uuid, Platform, Call, find_row, IsAscending}
use hangar_ia.Platform.Rows.{rows_found, find_row-below}
use hangar_ia.Types.Ingestion.{Document, IngestionJob, queued}
use hangar_ia.Database.{Database}
use hangar_ia.Ingestion.{requeue_jobs, requeue_documents, recover_incomplete_ingestion_jobs}
use hangar_ia.Ingestion.Jobs.{is_processing, recovered_job, with_status, processing_rows}
use hangar_ia.Ingestion.Links.{HasLinks, Follows, Rewritten-HasLinks}

Follows-recovered_job : (now : ℕ) (j : IngestionJob) → Follows j (recovered_job now j)
unfolding recovered_job
Follows-recovered_job now j = record {
  id = refl;
  document_id = refl;
  organization = refl;
  workspace = refl;
}

-- Some of the rows are in the order of the keys, if all are.
processing-IsAscending :
    (rs : List (Uuid × IngestionJob)) → IsAscending rs → IsAscending (processing_rows rs)
processing-IsAscending [] a = tt
processing-IsAscending (row ∷ rs) a = elim (Bool-cases (is_processing row.1.status)) [
  | inl busy ↦ rw busy (
    All-filter (λ (r : Uuid × IngestionJob). row.0 < r.0) (λ r. is_processing r.1.status) rs a.0,
    processing-IsAscending rs a.1,
  )
  | inr idle ↦ rw idle (processing-IsAscending rs a.1)
]

module _ (p : Platform) (now : ℕ) where
  open p.uuids use {Table, get, insert, rows, get-insert}

  abbrev StoredIn : Table IngestionJob → List (Uuid × IngestionJob) → Type 0
  StoredIn t rs = All (λ (row : Uuid × IngestionJob). get row.0 t ≡ some row.1) rs

  -- A write under a smaller key leaves the rows as they are stored.
  insert-StoredIn :
      (k : Uuid) (j : IngestionJob) (t : Table IngestionJob) (rs : List (Uuid × IngestionJob))
      → All (λ (row : Uuid × IngestionJob). k < row.0) rs
      → StoredIn t rs
      → StoredIn (insert k j t) rs
  insert-StoredIn k j t [] a s = tt
  insert-StoredIn k j t (row ∷ rs) a s =
      (rw get-insert (ground (arith, s.0, a.0)), insert-StoredIn k j t rs a.1 s.1)

  abbrev requeued : List (Uuid × IngestionJob) → Table Document → Database p → Database p
  requeued rs documents db = record db {
    ingestion_jobs = requeue_jobs p now rs db.ingestion_jobs;
    documents = documents;
  }

  -- The two loops over stored rows find every document, and keep the tables in agreement.
  requeue-HasLinks :
      (rs : List (Uuid × IngestionJob)) (db : Database p)
      → HasLinks p db
      → IsAscending rs
      → StoredIn db.ingestion_jobs rs
      → (documents : Table Document) × (requeue_documents p rs db.documents ≡ ok documents)
        × HasLinks p (requeued rs documents db)
  unfolding requeue_jobs requeue_documents recovered_job
  requeue-HasLinks [] db v a s = (db.documents, refl, v)
  requeue-HasLinks ((k, j) ∷ rs) db v a s =
      let b = v.at k j s.0 in
      let j' = recovered_job now j in
      let db1 : Database p = record db {
        ingestion_jobs = insert k j' db.ingestion_jobs;
        documents = insert j.document_id (with_status queued b.document) db.documents;
      } in
      let v1 =
        Rewritten-HasLinks p k j j' b.document db db1 v s.0 b.stored (Follows-recovered_job now j)
          (record { jobs = refl; documents = refl; payloads = refl }) in
      let (documents, e, v2) =
        requeue-HasLinks rs db1 v1 a.1 (insert-StoredIn k j' db.ingestion_jobs rs a.0 s.1) in
      (documents, rw b.stored e, v2)

abbrev in_processing : Option IngestionJob → Option IngestionJob
in_processing none = none
in_processing (some j) = if is_processing j.status then some j else none

find_row-processing :
    (k : Uuid) (rs : List (Uuid × IngestionJob))
    → IsAscending rs
    → find_row k (processing_rows rs) ≡ in_processing (find_row k rs)
find_row-processing k [] a = refl
find_row-processing k ((key, j) ∷ rs) a =
    let later = find_row-processing k rs a.1 in
    let above =
      All-filter (λ (r : Uuid × IngestionJob). key < r.0) (λ r. is_processing r.1.status) rs a.0 in
    ground (arith, later, above, find_row-below key (processing_rows rs) above, ==_iff key k)

-- What the recovery makes of a stored job.
abbrev pub recovered_row : ℕ → Option IngestionJob → Option IngestionJob
recovered_row now none = none
recovered_row now (some j) = some (if is_processing j.status then recovered_job now j else j)

abbrev either_row : ℕ → Option IngestionJob → Option IngestionJob → Option IngestionJob
either_row now none old = old
either_row now (some j) old = some (recovered_job now j)

module _ (p : Platform) (now : ℕ) where
  open p.uuids use {Table, get, insert, rows, get-insert, get-rows}

  requeue_jobs-each :
      (k : Uuid) (rs : List (Uuid × IngestionJob)) (t : Table IngestionJob)
      → IsAscending rs
      → get k (requeue_jobs p now rs t) ≡ either_row now (find_row k rs) (get k t)
  unfolding requeue_jobs
  requeue_jobs-each k [] t a = refl
  requeue_jobs-each k ((key, j) ∷ rs) t a =
      let later = requeue_jobs-each k rs (insert key (recovered_job now j) t) a.1 in
      elim (Bool-cases (key == k)) [
        | inl same ↦
            let e : key ≡ k = (==_iff key k).0 same in
            let none_later : find_row k rs ≡ none =
              find_row-below k rs
                (subst (λ i. All (λ (r : Uuid × IngestionJob). i < r.0) rs) e a.0) in
            rw (later, none_later, get-insert, same)
        | inr other ↦ rw (later, get-insert, other)
      ]

  requeue-row :
      (k : Uuid) (t : Table IngestionJob)
      → get k (requeue_jobs p now (processing_rows (rows t)) t) ≡ recovered_row now (get k t)
  requeue-row k t =
      let each =
        requeue_jobs-each k (processing_rows (rows t)) t
          (processing-IsAscending (rows t) (p.ascending t)) in
      let found : find_row k (processing_rows (rows t)) ≡ in_processing (get k t) =
        find_row-processing k (rows t) (p.ascending t) ∙ ap in_processing (sym (get-rows k t)) in
      let row = get k t in each ∙ (ap (λ o. either_row now o row) found ∙ settled row)
    where
      settled : (o : Option IngestionJob) → either_row now (in_processing o) o ≡ recovered_row now o
      settled none = refl
      settled (some j) = ground arith

module _ (p : Platform) where
  open p.uuids use {get, rows}

  -- With the tables in agreement the recovery cannot fail: it gives the number of the jobs that were in
  -- processing, each of them is stored as queued and due now, every other job is as it was, and the
  -- tables still agree.
  pub recover_total :
      (call : Call) (db : Database p)
      → HasLinks p db
      → (db' : Database p) × (recover_incomplete_ingestion_jobs p call db
          ≡ ok (length (processing_rows (rows db.ingestion_jobs)), db'))
        × ((k : Uuid)
            → get k db'.ingestion_jobs ≡ recovered_row (call.clock 0) (get k db.ingestion_jobs))
        × HasLinks p db'
  unfolding recover_incomplete_ingestion_jobs
  recover_total call db v =
      let now = call.clock 0 in
      let rs = processing_rows (rows db.ingestion_jobs) in
      let (documents, e, v1) =
        requeue-HasLinks p now rs db v
          (processing-IsAscending (rows db.ingestion_jobs) (p.ascending db.ingestion_jobs))
          (All-filter (λ (row : Uuid × IngestionJob). get row.0 db.ingestion_jobs ≡ some row.1)
            (λ r. is_processing r.1.status) (rows db.ingestion_jobs)
            (rows_found p db.ingestion_jobs)) in
      (requeued p now rs documents db, rw e, λ k. requeue-row p now k db.ingestion_jobs, v1)
