-- ===== src/Retrieval/Chunks/Hidden.antt =====
-- The scores of chunks of `retrieve_chunks` while a document is processed: how one chunk, and the
-- storing of new chunks, changes them.
use hangar_ia.Prelude.{
  is_some, ℕ, ◌+◌, String, ◌≡◌, refl, sym, ap, ◌∙◌, false, not, ◌||◌, Bool-cases, inl, inr, Option,
  none, some, Option-cases, List, [], ◌∷◌, ◌++◌, All, arith, ◌==◌, nat_eq, string_eq, if◌then◌else◌,
}
use hangar_ia.Platform.{Uuid, Platform, Call, old_row, find_row}
use hangar_ia.Types.Ingestion.{Document}
use hangar_ia.Types.Projections.{DocumentChunk, TextManifest, VectorManifest, GraphManifest}
use hangar_ia.Database.{Database}
use hangar_ia.Projections.{Indexing}
use hangar_ia.Projections.Prepare.{new_chunks, chunk_key, insert_chunks, insert_manifests}
use hangar_ia.Projections.Publish.{
  is_current_text, is_current_vector, is_current_graph, is_open_document, is_succeeded,
}
use hangar_ia.Retrieval.Chunks.{
  RetrievedChunk, Candidates, when_current, graph_score_of, result_of, lexical_score_of,
  vector_score_of, graph_score_for, score_chunk, score_chunks,
}

-- No row of a list stands under an id.
abbrev pub Avoids : {M : Type 0} → Uuid → List (Uuid × M) → Type 0
Avoids {M} id rows = All (λ (row : Uuid × M). (row.0 == id) ≡ false) rows

pub new_chunks-document :
    (call : Call) (d : Uuid) (n : ℕ) (contents : List String)
    → All (λ (c : DocumentChunk). c.document_id ≡ d) (new_chunks call d n contents)
unfolding new_chunks
new_chunks-document call d n [] = tt
new_chunks-document call d n (content ∷ rest) = (refl, new_chunks-document call d (n + 1) rest)

module _ (p : Platform) where
  pub insert_manifests-get :
      {M : Type 0} (rows : List (Uuid × M)) (t : p.uuids.Table M) (id : Uuid)
      → Avoids id rows
      → p.uuids.get id (insert_manifests p rows t) ≡ p.uuids.get id t
  unfolding insert_manifests
  insert_manifests-get [] t id h = refl
  insert_manifests-get ((k, m) ∷ rows) t id h =
      insert_manifests-get rows (p.uuids.insert k m t) id h.1
      ∙ (p.uuids.get-insert id k m t ∙ rw h.0 refl)

  -- What stands under a key of a document is a chunk of it.
  abbrev pub IsKeyed : Uuid → p.texts.Table DocumentChunk → Type 0
  IsKeyed d t =
      (c old : DocumentChunk)
      → c.document_id ≡ d
      → p.texts.get (chunk_key p c) t ≡ some old
      → old.document_id ≡ d

  insert-IsKeyed :
      (d : Uuid) (c : DocumentChunk) (t : p.texts.Table DocumentChunk)
      → c.document_id ≡ d
      → IsKeyed d t
      → IsKeyed d (p.texts.insert (chunk_key p c) c t)
  insert-IsKeyed d c t own keyed c' old e found =
      let got = sym (p.texts.get-insert (chunk_key p c') (chunk_key p c) c t) ∙ found in
      elim (Bool-cases (chunk_key p c == chunk_key p c')) [
        | inl same ↦ ground (arith, got, same, own)
        | inr other ↦ keyed c' old e (ground (arith, got, other))
      ]

  module _ (engine : Indexing) (o w : String) (candidates : Candidates) where
    score_chunks-append :
        (db : Database p) (xs ys : List (String × DocumentChunk))
        → score_chunks p engine o w candidates db (xs ++ ys)
          ≡ score_chunks p engine o w candidates db xs ++ score_chunks p engine o w candidates db ys
    unfolding score_chunks
    score_chunks-append db [] ys = refl
    score_chunks-append db ((k, c) ∷ xs) ys =
        elim (Option-cases (score_chunk p engine o w candidates db c)) [
          | inl e ↦ rw e (score_chunks-append db xs ys)
          | inr (r, e) ↦ rw e (ap (◌∷◌ r) (score_chunks-append db xs ys))
        ]

    -- `score_chunk` by what it reads.
    abbrev scored :
        Candidates
        → DocumentChunk
        → Option Document
        → Option TextManifest
        → Option VectorManifest
        → Option GraphManifest
        → Option RetrievedChunk
    scored candidates chunk document text vector graph = elim document [
      | none ↦ none
      | some found ↦
          let lexical =
            when_current (is_current_text o w) (λ manifest. find_row chunk.id candidates.texts)
              text in
          let near =
            when_current (is_current_vector o w engine.profile)
              (λ (manifest : VectorManifest). find_row manifest.ann_key candidates.vectors)
              vector in
          let linked =
            when_current (is_current_graph o w)
              (λ manifest. graph_score_of (find_row chunk.id candidates.graph)) graph in
          if not (is_open_document o w found)
          then none
          else if is_some lexical || (is_some near || is_some linked)
          then some (result_of p engine o w candidates chunk found lexical near linked)
          else none
    ]

    score_chunk-scored :
        (db : Database p) (c : DocumentChunk)
        → score_chunk p engine o w candidates db c
          ≡ scored candidates c
              (p.uuids.get c.document_id db.documents)
              (p.uuids.get c.id db.text_manifests)
              (p.uuids.get c.id db.vector_manifests)
              (p.uuids.get c.id db.graph_manifests)
    unfolding score_chunk lexical_score_of vector_score_of graph_score_for
    score_chunk-scored db c = refl

    -- A chunk of a document that is not done has no result.
    score_chunk-closed :
        (db : Database p) (c : DocumentChunk) (document : Document)
        → p.uuids.get c.document_id db.documents ≡ some document
        → is_succeeded document.ingestion_status ≡ false
        → score_chunk p engine o w candidates db c ≡ none
    score_chunk-closed db c document found closed =
        score_chunk-scored db c ∙ rw found (ground (arith, closed))

    -- A chunk for which the manifests and the document are the same has the same result.
    pub score_chunk-same :
        (db db' : Database p) (c : DocumentChunk)
        → db'.documents ≡ db.documents
        → p.uuids.get c.id db'.text_manifests ≡ p.uuids.get c.id db.text_manifests
        → p.uuids.get c.id db'.vector_manifests ≡ p.uuids.get c.id db.vector_manifests
        → p.uuids.get c.id db'.graph_manifests ≡ p.uuids.get c.id db.graph_manifests
        → score_chunk p engine o w candidates db' c ≡ score_chunk p engine o w candidates db c
    score_chunk-same db db' c ed et ev eg =
        score_chunk-scored db' c
        ∙ ((λ i. scored candidates c (p.uuids.get c.document_id (ed i)) (et i) (ev i) (eg i))
            ∙ sym (score_chunk-scored db c))

    pub score_chunks-same :
        (db db' : Database p) (rows : List (String × DocumentChunk))
        → All
            (λ (row : String × DocumentChunk).
              score_chunk p engine o w candidates db' row.1
              ≡ score_chunk p engine o w candidates db row.1)
            rows
        → score_chunks p engine o w candidates db' rows
          ≡ score_chunks p engine o w candidates db rows
    unfolding score_chunks
    score_chunks-same db db' [] h = refl
    score_chunks-same db db' ((k, c) ∷ rows) h = rw (h.0, score_chunks-same db db' rows h.1) refl

    module _ (db : Database p) (d : Uuid) (document : Document)
        (found : p.uuids.get d db.documents ≡ some document)
        (closed : is_succeeded document.ingestion_status ≡ false) where
      own :
          (c : DocumentChunk) → c.document_id ≡ d → score_chunk p engine o w candidates db c ≡ none
      own c e =
          score_chunk-closed db c document (ap (λ (i : Uuid). p.uuids.get i db.documents) e ∙ found)
            closed

      old_row-hidden :
          (k : String) (old : Option DocumentChunk)
          → ((c : DocumentChunk) → old ≡ some c → c.document_id ≡ d)
          → score_chunks p engine o w candidates db (old_row k old) ≡ []
      unfolding score_chunks
      old_row-hidden k none h = refl
      old_row-hidden k (some c) h = rw (own c (h c refl)) refl

      insert_chunk-hidden :
          (c : DocumentChunk) (t : p.texts.Table DocumentChunk)
          → c.document_id ≡ d
          → IsKeyed d t
          → score_chunks p engine o w candidates db
              (p.texts.rows (p.texts.insert (chunk_key p c) c t))
            ≡ score_chunks p engine o w candidates db (p.texts.rows t)
      unfolding score_chunks
      insert_chunk-hidden c t e keyed =
          let k = chunk_key p c in
          let (before, after, was, is) = p.text_rows-insert k c t in
          let scored_rows = score_chunks p engine o w candidates db in
          let old = old_row-hidden k (p.texts.get k t) (λ x. keyed c x e) in
          ap scored_rows is
          ∙ (score_chunks-append db before ((k, c) ∷ after)
              ∙ rw (own c e) (
                  sym (
                    ap scored_rows was
                    ∙ (score_chunks-append db before (old_row k (p.texts.get k t) ++ after)
                        ∙ rw (score_chunks-append db (old_row k (p.texts.get k t)) after, old)
                            refl))))

      -- The chunks of the document change nothing, however many are stored.
      pub insert_chunks-hidden :
          (chunks : List DocumentChunk) (t : p.texts.Table DocumentChunk)
          → All (λ (c : DocumentChunk). c.document_id ≡ d) chunks
          → IsKeyed d t
          → score_chunks p engine o w candidates db (p.texts.rows (insert_chunks p chunks t))
            ≡ score_chunks p engine o w candidates db (p.texts.rows t)
      unfolding insert_chunks
      insert_chunks-hidden [] t es keyed = refl
      insert_chunks-hidden (c ∷ rest) t es keyed =
          insert_chunks-hidden rest (p.texts.insert (chunk_key p c) c t) es.1
            (insert-IsKeyed d c t es.0 keyed)
          ∙ insert_chunk-hidden c t es.0 keyed
