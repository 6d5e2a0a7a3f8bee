-- ===== src/Retrieval/Chunks/Unseen.antt =====
-- `retrieve_chunks` after the first transaction of `process_claimed_ingestion_job`.
use hangar_ia.Prelude.{
  ok, some_inj, ℕ, String, ◌≡◌, sym, ap, ◌∙◌, subst, false, some, List, [], ◌∷◌, map, All, All-imp,
  arith, ◌==◌, nat_eq, string_eq, sort_by, take,
}
use hangar_ia.Platform.{Uuid, Platform, Call}
use hangar_ia.Types.Ingestion.{Document, IngestionJob, ClaimedIngestionJob}
use hangar_ia.Types.Projections.{DocumentChunk}
use hangar_ia.Floats.{Floats}
use hangar_ia.Database.{Database}
use hangar_ia.Ingestion.Links.{HasLinks}
use hangar_ia.Graph.{Letters}
use hangar_ia.Projections.{EmbeddingProfile, Indexing}
use hangar_ia.Projections.Prepare.{
  Prepared, pending_vector, pending_text, pending_graph, write_prepared, prepare_job,
}
use hangar_ia.Projections.Prepare.Pending.{IsPrepared, prepare_job-IsPrepared}
use hangar_ia.Projections.Publish.{is_succeeded}
use hangar_ia.Retrieval.Chunks.{
  RetrievedChunk, Candidates, score_chunk, score_chunks, rank_chunks, fuse, maximum_lexical_score,
  chunk_order,
}
use hangar_ia.Retrieval.Chunks.Hidden.{
  Avoids, IsKeyed, new_chunks-document, insert_manifests-get, score_chunk-same, score_chunks-same,
  insert_chunks-hidden,
}

-- None of some chunks has an id.
abbrev pub IsFresh : List DocumentChunk → Uuid → Type 0
IsFresh chunks id = All (λ (c : DocumentChunk). (c.id == id) ≡ false) chunks

Avoids-map :
    {X M : Type 0} (key : X → Uuid) (value : X → M) (id : Uuid) (xs : List X)
    → All (λ x. (key x == id) ≡ false) xs
    → Avoids id (map (λ x. (key x, value x)) xs)
Avoids-map key value id [] h = tt
Avoids-map key value id (x ∷ xs) h = (h.0, Avoids-map key value id xs h.1)

All-unmap :
    {X Y : Type 0} (P : Y → Type 0) (f : X → Y) (xs : List X)
    → All P (map f xs)
    → All (λ x. P (f x)) xs
All-unmap P f [] h = tt
All-unmap P f (x ∷ xs) h = (h.0, All-unmap P f xs h.1)

module _ (p : Platform) (engine : Indexing) (o w : String) (call : Call)
    (claimed : ClaimedIngestionJob) (db db' : Database p) (prepared : Prepared)
    (is : IsPrepared p engine.profile call claimed db prepared db') where
  -- The manifests of a chunk that was there are the old ones.
  old_chunk-same :
      (candidates : Candidates) (c : DocumentChunk)
      → IsFresh prepared.prepared_chunks c.id
      → score_chunk p engine o w candidates db' c ≡ score_chunk p engine o w candidates db c
  unfolding write_prepared
  old_chunk-same candidates c fresh =
      let now = call.clock 0 in
      let document = prepared.document in
      let chunks = prepared.prepared_chunks in
      let keyed =
        All-unmap (λ (x : DocumentChunk). (x.id == c.id) ≡ false)
          (λ (pair : DocumentChunk × ℕ). pair.0) is.keys.prepared_vectors
          (subst (λ (xs : List DocumentChunk). IsFresh xs c.id) (sym is.allocated.for_each)
            fresh) in
      let documents = ap (λ (d : Database p). d.documents) is.written in
      let texts = ap (λ (d : Database p). p.uuids.get c.id d.text_manifests) is.written in
      let vectors = ap (λ (d : Database p). p.uuids.get c.id d.vector_manifests) is.written in
      let graphs = ap (λ (d : Database p). p.uuids.get c.id d.graph_manifests) is.written in
      score_chunk-same p engine o w candidates db db' c documents
        (texts
          ∙ insert_manifests-get p _ db.text_manifests c.id (
              Avoids-map (λ (x : DocumentChunk). x.id) (pending_text p engine.profile now document)
                c.id chunks fresh))
        (vectors
          ∙ insert_manifests-get p _ db.vector_manifests c.id (
              Avoids-map (λ (x : DocumentChunk × ℕ). x.0.id)
                (λ x. pending_vector p engine.profile now document x.0 x.1) c.id
                is.keys.prepared_vectors keyed))
        (graphs
          ∙ insert_manifests-get p _ db.graph_manifests c.id (
              Avoids-map (λ (x : DocumentChunk). x.id) (pending_graph p engine.profile now document)
                c.id chunks fresh))

  prepared-same :
      (candidates : Candidates)
      → p.uuids.get prepared.document.id db.documents ≡ some prepared.document
      → is_succeeded prepared.document.ingestion_status ≡ false
      → IsKeyed p prepared.document.id db.chunks
      → All
          (λ (row : String × DocumentChunk). IsFresh prepared.prepared_chunks row.1.id)
          (p.texts.rows db.chunks)
      → score_chunks p engine o w candidates db' (p.texts.rows db'.chunks)
        ≡ score_chunks p engine o w candidates db (p.texts.rows db.chunks)
  unfolding write_prepared
  prepared-same candidates found closed keyed fresh =
      let document = prepared.document in
      let documents = ap (λ (d : Database p). d.documents) is.written in
      let tables = ap (λ (d : Database p). d.chunks) is.written in
      ap
        (λ (t : p.texts.Table DocumentChunk).
          score_chunks p engine o w candidates db' (p.texts.rows t))
        tables
      ∙ (insert_chunks-hidden p engine o w candidates db' document.id document
            (ap (p.uuids.get document.id) documents ∙ found) closed prepared.prepared_chunks
            db.chunks
            (subst (All (λ (c : DocumentChunk). c.document_id ≡ document.id)) (sym is.chunked)
              (new_chunks-document call document.id _ _))
            keyed
          ∙ score_chunks-same p engine o w candidates db db' (p.texts.rows db.chunks) (
              All-imp (λ (row : String × DocumentChunk). IsFresh prepared.prepared_chunks row.1.id)
                (λ (row : String × DocumentChunk).
                  score_chunk p engine o w candidates db' row.1
                  ≡ score_chunk p engine o w candidates db row.1)
                (p.texts.rows db.chunks) (λ row. old_chunk-same candidates row.1) fresh))

-- The document of a leased job is in work, under its own id.
in_work :
    (p : Platform) (profile : EmbeddingProfile) (call : Call) (claimed : ClaimedIngestionJob)
    (db db' : Database p) (prepared : Prepared)
    → HasLinks p db
    → p.uuids.get claimed.job.id db.ingestion_jobs ≡ some claimed.job
    → IsPrepared p profile call claimed db prepared db'
    → (p.uuids.get prepared.document.id db.documents ≡ some prepared.document)
      × (is_succeeded prepared.document.ingestion_status ≡ false)
      × (prepared.document.id ≡ claimed.job.document_id)
in_work p profile call claimed db db' prepared links stored is =
    let link = links.at claimed.job.id claimed.job stored in
    let job : claimed.job ≡ prepared.job = some_inj (
      sym stored
      ∙ (ap (λ (k : Uuid). p.uuids.get k db.ingestion_jobs) (sym is.job_key) ∙ is.job_found)) in
    let document : link.document ≡ prepared.document = some_inj (
      sym link.stored
      ∙ (ap (λ (k : Uuid). p.uuids.get k db.documents) (sym is.document_key)
          ∙ is.document_found)) in
    let own : prepared.document.id ≡ claimed.job.document_id =
      ap (λ (d : Document). d.id) (sym document) ∙ link.fits.id in
    let status : prepared.document.ingestion_status ≡ prepared.job.status =
      ap (λ (d : Document). d.ingestion_status) (sym document)
      ∙ (link.fits.status ∙ ap (λ (j : IngestionJob). j.status) job) in
    (
      ap (λ (k : Uuid). p.uuids.get k db.documents) (own ∙ sym is.document_key) ∙ is.document_found,
      ap is_succeeded status ∙ ground (arith, is.leased),
      own,
    )

-- When the claim is still the stored job of a queue in agreement, the new chunks have fresh ids, and
-- under the document's keys stand only chunks of it, the first transaction changes no ranking of
-- chunks, whatever the indexes propose, those that were published for it included.
pub prepare_job-unseen :
    (p : Platform) (engine : Indexing) (letters : Letters) (floats : Floats) (o w : String)
    (call : Call) (claimed : ClaimedIngestionJob) (candidates : Candidates) (limit : ℕ)
    (db db' : Database p) (prepared : Prepared)
    → HasLinks p db
    → p.uuids.get claimed.job.id db.ingestion_jobs ≡ some claimed.job
    → IsKeyed p claimed.job.document_id db.chunks
    → All
        (λ (row : String × DocumentChunk). IsFresh prepared.prepared_chunks row.1.id)
        (p.texts.rows db.chunks)
    → prepare_job p engine.profile call claimed db ≡ ok (prepared, db')
    → rank_chunks p engine o w letters floats candidates limit db'
      ≡ rank_chunks p engine o w letters floats candidates limit db
unfolding rank_chunks
prepare_job-unseen p engine letters floats o w call claimed candidates limit db db' prepared links
      stored keyed fresh h =
    let is = prepare_job-IsPrepared p engine.profile call claimed db prepared db' h in
    let (found, closed, id) =
      in_work p engine.profile call claimed db db' prepared links stored is in
    ap
      (λ (results : List RetrievedChunk). take limit (
        sort_by (chunk_order floats)
          (map (fuse floats (maximum_lexical_score floats 0 results)) results)))
      (prepared-same p engine o w call claimed db db' prepared is candidates found closed
        (subst (λ (d : Uuid). IsKeyed p d db.chunks) (sym id) keyed) fresh)
