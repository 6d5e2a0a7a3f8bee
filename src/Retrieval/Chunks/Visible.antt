-- ===== src/Retrieval/Chunks/Visible.antt =====
-- What `retrieve_chunks` returns, against the rows of the database.
use mathlib.Core.List.{Memᴰ}
use hangar_ia.Prelude.{
  ℕ, String, ◌≡◌, refl, ap, Bool, true, false, ◌||◌, Bool-cases, ◌⊎◌, inl, inr, Option, none, some,
  Option-cases, List, [], ◌∷◌, map, All, Memᴰ-All, ok, arith, is_blank, is_some, nat_eq, string_eq,
  sort_by, IsTop, take-sort_by-IsTop, All-sort_by, All-take,
}
use hangar_ia.Platform.{Uuid, Platform}
use hangar_ia.Types.Ingestion.{Document}
use hangar_ia.Types.Projections.{DocumentChunk}
use hangar_ia.Floats.{Floats}
use hangar_ia.Database.{Database}
use hangar_ia.Graph.{Letters}
use hangar_ia.Graph.Traversal.{GraphCandidate, graph_candidates}
use hangar_ia.Graph.Traversal.Reached.{graph_candidates_total}
use hangar_ia.Projections.{Indexing}
use hangar_ia.Projections.Publish.{
  is_current_vector, is_current_text, is_current_graph, is_open_document,
}
use hangar_ia.Projections.Confirm.{Projected}
use hangar_ia.Retrieval.Chunks.{
  RetrievedChunk, Candidates, gather, when_current, chunk_order, maximum_lexical_score, fuse,
  lexical_score_of, vector_score_of, graph_score_for, result_of, score_chunk, score_chunks,
  text_candidates, vector_candidates, collect_candidates, rank_chunks, retrieve_chunks,
  candidate_limit,
}

module _ (floats : Floats) where
  chunk_order_total :
      (x y : RetrievedChunk) → chunk_order floats x y ≡ false → chunk_order floats y x ≡ true
  chunk_order_total x y h =
      ground (
        arith,
        h,
        floats.total x.final_score y.final_score,
        floats.total y.final_score x.final_score,
      )

  chunk_order_trans :
      (x y z : RetrievedChunk)
      → chunk_order floats x y ≡ true
      → chunk_order floats y z ≡ true
      → chunk_order floats x z ≡ true
  chunk_order_trans x y z h k =
      let a = x.final_score in
      let b = y.final_score in
      let c = z.final_score in
      ground (
        arith,
        h,
        k,
        floats.transitive a b c,
        floats.transitive a c b,
        floats.transitive b a c,
        floats.transitive b c a,
        floats.transitive c a b,
        floats.transitive c b a,
      )

-- A manifest that is there and passes its test.
abbrev pub Vouches : {M : Type 0} → (M → Bool) → Option M → Type 0
Vouches {M} test found = (manifest : M) × (found ≡ some manifest) × (test manifest ≡ true)

when_current-some :
    {M V : Type 0} (test : M → Bool) (value : M → Option V) (found : Option M)
    → is_some (when_current test value found) ≡ true
    → Vouches test found
when_current-some test value none h = absurd (cc)
when_current-some test value (some manifest) h = elim (Bool-cases (test manifest)) [
  | inl current ↦ (manifest, refl, current)
  | inr stale ↦ absurd (ground (arith, h, stale))
]

module _ (p : Platform) (engine : Indexing) (o w : String) (db : Database p) where
  -- A stored chunk of a stored document that is done and belongs to the workspace, which a ready and
  -- current manifest of one of the three projections vouches for; the result shows this chunk.
  pub record IsVisible (r : RetrievedChunk) : Type 0 where
    pub key : String
    pub chunk : DocumentChunk
    pub document : Document
    pub chunk_stored : Memᴰ (key, chunk) (p.texts.rows db.chunks)
    pub document_stored : p.uuids.get chunk.document_id db.documents ≡ some document
    pub readable : is_open_document o w document ≡ true
    pub vouched :
        Vouches (is_current_text o w) (p.uuids.get chunk.id db.text_manifests)
        ⊎ (Vouches (is_current_vector o w engine.profile) (p.uuids.get chunk.id db.vector_manifests)
            ⊎ Vouches (is_current_graph o w) (p.uuids.get chunk.id db.graph_manifests))
    pub same_document : r.document_id ≡ document.id
    pub same_ordinal : r.ordinal ≡ chunk.ordinal
    pub same_content : r.content ≡ chunk.content

  scored :
      (candidates : Candidates) (chunk : DocumentChunk) (r : RetrievedChunk)
      → score_chunk p engine o w candidates db chunk ≡ some r
      → (document : Document) × (p.uuids.get chunk.document_id db.documents ≡ some document)
        × (is_open_document o w document ≡ true)
        × ((is_some (lexical_score_of p engine o w candidates chunk db)
              || (is_some (vector_score_of p engine o w candidates chunk db)
                  || is_some (graph_score_for p engine o w candidates chunk db)))
            ≡ true)
        × (r
            ≡ result_of p engine o w candidates chunk document
                (lexical_score_of p engine o w candidates chunk db)
                (vector_score_of p engine o w candidates chunk db)
                (graph_score_for p engine o w candidates chunk db))
  unfolding score_chunk
  scored candidates chunk r h = elim (Option-cases (p.uuids.get chunk.document_id db.documents)) [
    | inl missing ↦ absurd (ground (arith, h, missing))
    | inr (document, found) ↦ (
      document,
      found,
      ground (arith, h, found),
      ground (arith, h, found),
      ground (arith, h, found),
    )
  ]

  vouched_by :
      (candidates : Candidates) (chunk : DocumentChunk)
      → (is_some (lexical_score_of p engine o w candidates chunk db)
          || (is_some (vector_score_of p engine o w candidates chunk db)
              || is_some (graph_score_for p engine o w candidates chunk db)))
        ≡ true
      → Vouches (is_current_text o w) (p.uuids.get chunk.id db.text_manifests)
        ⊎ (Vouches (is_current_vector o w engine.profile) (p.uuids.get chunk.id db.vector_manifests)
            ⊎ Vouches (is_current_graph o w) (p.uuids.get chunk.id db.graph_manifests))
  unfolding lexical_score_of vector_score_of graph_score_for
  vouched_by candidates chunk h =
      elim (Bool-cases (is_some (lexical_score_of p engine o w candidates chunk db))) [
        | inl lexical ↦ inl (
            when_current-some (is_current_text o w) _ (p.uuids.get chunk.id db.text_manifests)
              lexical)
        | inr no_text ↦
            elim (Bool-cases (is_some (vector_score_of p engine o w candidates chunk db))) [
              | inl vector ↦ inr (
                  inl (
                    when_current-some (is_current_vector o w engine.profile) _
                      (p.uuids.get chunk.id db.vector_manifests) vector))
              | inr no_vector ↦ inr (
                  inr (
                    when_current-some (is_current_graph o w) _
                      (p.uuids.get chunk.id db.graph_manifests)
                      (rw no_text at (rw no_vector at h))))
            ]
      ]

  score_chunk-IsVisible :
      (candidates : Candidates) (key : String) (chunk : DocumentChunk) (maximum : ℕ)
      (floats : Floats) (r : RetrievedChunk)
      → Memᴰ (key, chunk) (p.texts.rows db.chunks)
      → score_chunk p engine o w candidates db chunk ≡ some r
      → IsVisible (fuse floats maximum r)
  unfolding fuse result_of
  score_chunk-IsVisible candidates key chunk maximum floats r m h =
      let (document, found, readable, some_score, result) = scored candidates chunk r h in
      record {
        key = key;
        chunk = chunk;
        document = document;
        chunk_stored = m;
        document_stored = found;
        readable = readable;
        vouched = vouched_by candidates chunk some_score;
        same_document = ap (λ (x : RetrievedChunk). x.document_id) result;
        same_ordinal = ap (λ (x : RetrievedChunk). x.ordinal) result;
        same_content = ap (λ (x : RetrievedChunk). x.content) result;
      }

  score_chunks-IsVisible :
      (candidates : Candidates) (maximum : ℕ) (floats : Floats)
      (rows : List (String × DocumentChunk))
      → All (λ (row : String × DocumentChunk). Memᴰ row (p.texts.rows db.chunks)) rows
      → All IsVisible (map (fuse floats maximum) (score_chunks p engine o w candidates db rows))
  unfolding score_chunks
  score_chunks-IsVisible candidates maximum floats [] h = tt
  score_chunks-IsVisible candidates maximum floats ((key, chunk) ∷ rows) h =
      elim (Option-cases (score_chunk p engine o w candidates db chunk)) [
        | inl none_here ↦ rw none_here (score_chunks-IsVisible candidates maximum floats rows h.1)
        | inr (r, here) ↦ rw here (
          score_chunk-IsVisible candidates key chunk maximum floats r h.0 here,
          score_chunks-IsVisible candidates maximum floats rows h.1,
        )
      ]

  -- The results are visible, at most the limit, and the best of the chunks that have a score by the
  -- candidates of the three indexes.
  pub record IsRanking (letters : Letters) (floats : Floats) (query : String) (limit : ℕ)
      (texts : List (Uuid × ℕ)) (vectors : List (ℕ × ℕ)) (results : List RetrievedChunk)
      : Type 0 where
    pub graph : List GraphCandidate
    pub walked :
        graph_candidates p letters floats o w query (candidate_limit limit) 2 db ≡ some graph
    pub maximum : ℕ
    pub maximum_is :
        maximum
        ≡ maximum_lexical_score floats 0
            (score_chunks p engine o w (gather texts vectors graph) db (p.texts.rows db.chunks))
    pub top :
        IsTop
          (chunk_order floats)
          limit
          (map
            (fuse floats maximum)
            (score_chunks p engine o w (gather texts vectors graph) db (p.texts.rows db.chunks)))
          results
    pub visible : All IsVisible results

  rank_chunks-IsRanking :
      (letters : Letters) (floats : Floats) (query : String) (limit : ℕ) (texts : List (Uuid × ℕ))
      (vectors : List (ℕ × ℕ)) (graph : List GraphCandidate)
      → graph_candidates p letters floats o w query (candidate_limit limit) 2 db ≡ some graph
      → IsRanking letters floats query limit texts vectors
          (rank_chunks p engine o w letters floats (gather texts vectors graph) limit db)
  unfolding rank_chunks
  rank_chunks-IsRanking letters floats query limit texts vectors graph walked =
      let candidates = gather texts vectors graph in
      let rows = p.texts.rows db.chunks in
      let results = score_chunks p engine o w candidates db rows in
      let maximum = maximum_lexical_score floats 0 results in
      let fused = map (fuse floats maximum) results in
      record {
        graph = graph;
        walked = walked;
        maximum = maximum;
        maximum_is = refl;
        top =
            take-sort_by-IsTop (chunk_order floats) (chunk_order_total floats)
              (chunk_order_trans floats) limit fused;
        visible = All-take IsVisible limit (sort_by (chunk_order floats) fused) (
            All-sort_by IsVisible (chunk_order floats) fused (
              score_chunks-IsVisible candidates maximum floats rows
                (Memᴰ-All (λ (row : String × DocumentChunk). Memᴰ row rows) rows (λ row m. m))));
      }

-- With a query that is not blank, and indexes that answer, the retrieval succeeds: the walk over the
-- graph ends. Whatever the indexes propose, each result is a stored chunk of a done document of the
-- workspace, with a ready manifest. There are at most as many as the limit, by descending score, and
-- a chunk that has a score by these proposals is left out only behind better ones.
pub retrieve_chunks-IsRanking :
    (p : Platform) (engine : Indexing) (letters : Letters) (floats : Floats) (o w query : String)
    (limit : ℕ) (s : Projected p engine) (texts : List (Uuid × ℕ)) (vectors : List (ℕ × ℕ))
    → is_blank query ≡ false
    → text_candidates p engine o w query limit s ≡ ok texts
    → vector_candidates p engine o w letters floats query limit s ≡ ok vectors
    → (results : List RetrievedChunk) × (retrieve_chunks p engine o w letters floats query limit s
        ≡ ok results)
      × IsRanking p engine o w s.database letters floats query limit texts vectors results
unfolding retrieve_chunks collect_candidates
retrieve_chunks-IsRanking p engine letters floats o w query limit s texts vectors words et ev =
    let (graph, eg, _) =
      graph_candidates_total p letters floats o w query (candidate_limit limit) 2 s.database in
    (
      rank_chunks p engine o w letters floats (gather texts vectors graph) limit s.database,
      rw words (rw et (rw ev (rw eg refl))),
      rank_chunks-IsRanking p engine o w s.database letters floats query limit texts vectors graph
          eg,
    )
