-- ===== src/Ingestion/Links.antt =====
-- The tables of the queue agree: every job has its document, with the same status and scope, and its
-- payload. So the errors for missing rows never come up.
use hangar_ia.Prelude.{
  ◌≡◌, ◌≢◌, refl, some, arith, ◌==◌, nat_eq, if◌then◌else◌, inl, inr, Bool-cases, ==_iff, subst, ap,
  sym, ◌∙◌,
}
use hangar_ia.Platform.{Uuid, Platform}
use hangar_ia.Types.Ingestion.{Document, IngestionJob, IngestionPayload}
use hangar_ia.Database.{Database}
use hangar_ia.Ingestion.Jobs.{with_status}

-- A document that belongs to a job.
pub record Matches (k : Uuid) (j : IngestionJob) (d : Document) : Type 0 where
  pub id : d.id ≡ j.document_id
  pub job_id : d.ingestion_job_id ≡ k
  pub status : d.ingestion_status ≡ j.status
  pub organization : d.organization_id ≡ j.organization_id
  pub workspace : d.workspace_id ≡ j.workspace_id

-- A job with another status, on the same document.
pub record Follows (j j' : IngestionJob) : Type 0 where
  pub id : j'.id ≡ j.id
  pub document_id : j'.document_id ≡ j.document_id
  pub organization : j'.organization_id ≡ j.organization_id
  pub workspace : j'.workspace_id ≡ j.workspace_id

Matches-with_status :
    (k : Uuid) (j j' : IngestionJob) (d : Document)
    → Follows j j'
    → Matches k j d
    → Matches k j' (with_status j'.status d)
Matches-with_status k j j' d f m = record {
  id = m.id ∙ sym f.document_id;
  job_id = m.job_id;
  status = refl;
  organization = m.organization ∙ sym f.organization;
  workspace = m.workspace ∙ sym f.workspace;
}

module _ (p : Platform) where
  open p.uuids use {get, insert, get-insert}

  pub record IsLinked (k : Uuid) (j : IngestionJob) (db : Database p) : Type 0 where
    pub id : j.id ≡ k
    pub document : Document
    pub stored : get j.document_id db.documents ≡ some document
    pub fits : Matches k j document
    pub payload : IngestionPayload
    pub kept : get k db.ingestion_payloads ≡ some payload

  pub record HasLinks (db : Database p) : Type 0 where
    pub at : (k : Uuid) (j : IngestionJob) → get k db.ingestion_jobs ≡ some j → IsLinked k j db

  -- What a job and its document are written back as.
  pub record Rewritten (k : Uuid) (j' : IngestionJob) (d : Document) (db db' : Database p)
      : Type 0 where
    pub jobs : db'.ingestion_jobs ≡ insert k j' db.ingestion_jobs
    pub documents : db'.documents ≡ insert j'.document_id (with_status j'.status d) db.documents
    pub payloads : db'.ingestion_payloads ≡ db.ingestion_payloads

  -- Two jobs do not share a document.
  unshared :
      (i k : Uuid) (x j : IngestionJob) (db : Database p)
      → IsLinked i x db
      → IsLinked k j db
      → x.document_id ≡ j.document_id
      → i ≡ k
  unshared i k x j db a b e =
      let same : a.document ≡ b.document = ground (arith, a.stored, b.stored, e) in
      sym a.fits.job_id ∙ (ap (λ (d : Document). d.ingestion_job_id) same ∙ b.fits.job_id)

  other_link :
      (i k : Uuid) (x j j' : IngestionJob) (d : Document) (db db' : Database p)
      → IsLinked i x db
      → IsLinked k j db
      → Follows j j'
      → Rewritten k j' d db db'
      → i ≢ k
      → IsLinked i x db'
  other_link i k x j j' d db db' a b f w ne = record {
    id = a.id;
    document = a.document;
    stored =
        rw (w.documents, get-insert)
          (ground (arith, a.stored, f.document_id, ne, unshared i k x j db a b));
    fits = a.fits;
    payload = a.payload;
    kept = rw w.payloads a.kept;
  }

  pub Rewritten-HasLinks :
      (k : Uuid) (j j' : IngestionJob) (d : Document) (db db' : Database p)
      → HasLinks db
      → get k db.ingestion_jobs ≡ some j
      → get j.document_id db.documents ≡ some d
      → Follows j j'
      → Rewritten k j' d db db'
      → HasLinks db'
  Rewritten-HasLinks k j j' d db db' v found stored f w = record {
    at = λ i x h.
        let b = v.at k j found in
        let here : (if k == i then some j' else get i db.ingestion_jobs) ≡ some x =
          rw (w.jobs, get-insert) at h in
        elim (Bool-cases (k == i)) [
          | inl same ↦
              let e : k ≡ i = (==_iff k i).0 same in
              let q : j' ≡ x = ground (arith, here, same) in
              let sd : b.document ≡ d = ground (arith, b.stored, stored) in
              subst (λ y. IsLinked i y db') q
                (subst (λ y. IsLinked y j' db') e
                  (record {
                    id = f.id ∙ b.id;
                    document = with_status j'.status d;
                    stored = rw (w.documents, get-insert) (ground arith);
                    fits = Matches-with_status k j j' d f (subst (λ y. Matches k j y) sd b.fits);
                    payload = b.payload;
                    kept = rw w.payloads b.kept;
                  }))
          | inr other ↦
              let back : get i db.ingestion_jobs ≡ some x = ground (arith, here, other) in
              other_link i k x j j' d db db' (v.at i x back) b f w (λ e. ground (arith, e, other))
        ];
  }
