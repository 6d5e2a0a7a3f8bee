-- ===== src/Retrieval/Chunks.antt =====
-- `retrieve_chunks` of packages/hangar-server/src/store.rs: the chunks of a workspace that one of the
-- indexes names and canonical storage shows as ready, ranked by their fused scores.
pub mod Visible
pub mod Hidden
pub mod Unseen
use hangar_ia.Prelude.{
  ℕ, ◌*◌, ◌-◌, ◌^◌, min, max, String, Bool, true, false, not, ◌&&◌, ◌||◌, Option, none, some,
  cons_some, List, [], ◌∷◌, map, take, Outcome, ok, err, ensure, ◌>>=◌, ◌>>◌, is_blank, is_some,
  unwrap_or, ltb, leb, ◌==◌, nat_eq, string_eq, sort_by, put, if◌then◌else◌,
}
use hangar_ia.Platform.{Uuid, Platform, find_row}
use hangar_ia.Types.Ingestion.{Document}
use hangar_ia.Types.Projections.{
  DocumentChunk, VectorManifest, TextManifest, GraphManifest, TextGeneration,
}
use hangar_ia.Floats.{Floats}
use hangar_ia.Database.{Database}
use hangar_ia.Scope.{in_scope}
use hangar_ia.Ingestion.Jobs.{ingestion_pipeline_version}
use hangar_ia.Graph.{Letters}
use hangar_ia.Graph.Traversal.{GraphCandidate, graph_candidates}
use hangar_ia.Projections.{Indexing}
use hangar_ia.Projections.Publish.{
  is_current_vector, is_current_text, is_current_graph, is_open_document, text_generation_key,
}
use hangar_ia.Projections.Confirm.{Projected}

-- The scores are the bits of f32 numbers.
pub record RetrievedChunk : Type 0 where
  pub document_id : Uuid
  pub document_name : String
  pub source : Option String
  pub ordinal : ℕ
  pub content : String
  pub score : ℕ
  pub vector_score : Option ℕ
  pub graph_score : Option ℕ
  pub graph_hops : Option ℕ
  pub final_score : ℕ
  pub embedding_provider : Option String
  pub embedding_model_revision : Option String

-- What the three indexes propose: by chunk, by ANN key, and by chunk.
pub record Candidates : Type 0 where
  pub texts : List (Uuid × ℕ)
  pub vectors : List (ℕ × ℕ)
  pub graph : List (Uuid × GraphCandidate)

-- `collect` into a map
unfoldable pub collect_map {ℓ} : {V : Type ℓ} → List (ℕ × V) → List (ℕ × V) → List (ℕ × V)
collect_map rows [] = rows
collect_map rows ((k, v) ∷ rest) = collect_map (put k v rows) rest

abbrev pub gather : List (Uuid × ℕ) → List (ℕ × ℕ) → List GraphCandidate → Candidates
gather texts vectors graph = record {
  texts = collect_map [] texts;
  vectors = collect_map [] vectors;
  graph = collect_map [] (map (λ (c : GraphCandidate). (c.chunk_id, c)) graph);
}

-- `limit.saturating_mul(4).max(limit)`
abbrev pub candidate_limit : ℕ → ℕ
candidate_limit limit = max (min (limit * 4) (2 ^ 64 - 1)) limit

-- The value that a manifest which passes its test gives.
abbrev pub when_current {ℓ} :
    {M : Type 0} {V : Type ℓ} → (M → Bool) → (M → Option V) → Option M → Option V
when_current test value none = none
when_current test value (some manifest) = if test manifest then value manifest else none

-- 0.0, 0.5, 1.0 and 2.0
abbrev pub zero_point_five : ℕ
zero_point_five = 0x3F000000

abbrev pub one_point_zero : ℕ
one_point_zero = 0x3F800000

abbrev pub two_point_zero : ℕ
two_point_zero = 0x40000000

module _ (floats : Floats) where
  -- The order of the answer: the better final score, then the document, then the ordinal.
  abbrev pub chunk_order : RetrievedChunk → RetrievedChunk → Bool
  chunk_order left right =
      if floats.total_le right.final_score left.final_score
      then if floats.total_le left.final_score right.final_score
        then ltb left.document_id right.document_id
          || (left.document_id == right.document_id && leb left.ordinal right.ordinal)
        else true
      else false

  -- `fold(0.0_f32, f32::max)` over the lexical scores
  unfoldable pub maximum_lexical_score : ℕ → List RetrievedChunk → ℕ
  maximum_lexical_score best [] = best
  maximum_lexical_score best (result ∷ rest) =
      maximum_lexical_score (floats.larger best result.score) rest

  abbrev pub fused_score : ℕ → RetrievedChunk → ℕ
  fused_score maximum result =
      floats.add
        (floats.add (if floats.greater maximum 0 then floats.div result.score maximum else 0)
          (floats.mul (unwrap_or result.vector_score 0) two_point_zero))
        (floats.mul (unwrap_or result.graph_score 0) zero_point_five)

  unfoldable pub fuse : ℕ → RetrievedChunk → RetrievedChunk
  fuse maximum result = record result { final_score = fused_score maximum result }

abbrev pub score_if : Option ℕ → Option ℕ → Option ℕ
score_if none hops = none
score_if (some score) hops = hops

abbrev pub hops_of : Option GraphCandidate → Option ℕ
hops_of none = none
hops_of (some candidate) = some candidate.hops

abbrev pub graph_score_of : Option GraphCandidate → Option ℕ
graph_score_of none = none
graph_score_of (some candidate) = some candidate.score

abbrev pub text_if : Option ℕ → String → Option String
text_if none value = none
text_if (some score) value = some value

module _ (p : Platform) (engine : Indexing) (organization_id workspace_id : String) where
  unfoldable pub lexical_score_of : Candidates → DocumentChunk → Database p → Option ℕ
  lexical_score_of candidates chunk db =
      when_current (is_current_text organization_id workspace_id)
        (λ manifest. find_row chunk.id candidates.texts) (p.uuids.get chunk.id db.text_manifests)

  unfoldable pub vector_score_of : Candidates → DocumentChunk → Database p → Option ℕ
  vector_score_of candidates chunk db =
      when_current (is_current_vector organization_id workspace_id engine.profile)
        (λ (manifest : VectorManifest). find_row manifest.ann_key candidates.vectors)
        (p.uuids.get chunk.id db.vector_manifests)

  unfoldable pub graph_score_for : Candidates → DocumentChunk → Database p → Option ℕ
  graph_score_for candidates chunk db =
      when_current (is_current_graph organization_id workspace_id)
        (λ manifest. graph_score_of (find_row chunk.id candidates.graph))
        (p.uuids.get chunk.id db.graph_manifests)

  -- The result of a chunk that has a score.
  unfoldable pub result_of :
      Candidates → DocumentChunk → Document → Option ℕ → Option ℕ → Option ℕ → RetrievedChunk
  result_of candidates chunk document lexical vector graph = record {
    document_id = document.id;
    document_name = document.name;
    source = document.source;
    ordinal = chunk.ordinal;
    content = chunk.content;
    score = unwrap_or lexical 0;
    vector_score = vector;
    graph_score = graph;
    graph_hops = score_if graph (hops_of (find_row chunk.id candidates.graph));
    final_score = 0;
    embedding_provider = text_if vector engine.profile.provider;
    embedding_model_revision = text_if vector engine.profile.model_revision;
  }

  -- The body of the loop over the chunks.
  unfoldable pub score_chunk : Candidates → Database p → DocumentChunk → Option RetrievedChunk
  score_chunk candidates db chunk = elim (p.uuids.get chunk.document_id db.documents) [
    | none ↦ none
    | some document ↦
        let lexical = lexical_score_of candidates chunk db in
        let vector = vector_score_of candidates chunk db in
        let graph = graph_score_for candidates chunk db in
        if not (is_open_document organization_id workspace_id document)
        then none
        else if is_some lexical || (is_some vector || is_some graph)
        then some (result_of candidates chunk document lexical vector graph)
        else none
  ]

  unfoldable pub score_chunks :
      Candidates → Database p → List (String × DocumentChunk) → List RetrievedChunk
  score_chunks candidates db [] = []
  score_chunks candidates db ((key, chunk) ∷ rest) =
      cons_some (score_chunk candidates db chunk) (score_chunks candidates db rest)

  -- The generation that may be searched.
  abbrev pub is_current_generation : TextGeneration → Bool
  is_current_generation generation =
      in_scope generation.organization_id generation.workspace_id organization_id workspace_id
      && generation.pipeline_version == ingestion_pipeline_version

  unfoldable pub text_candidates : String → ℕ → Projected p engine → Outcome (List (Uuid × ℕ))
  text_candidates query limit s =
      elim (p.texts.get (text_generation_key p organization_id workspace_id)
        s.database.text_active_generations) [
          | none ↦ ok []
          | some generation ↦
              if is_current_generation generation
              then engine.search_text organization_id workspace_id generation.generation query
                  (candidate_limit limit) s.texts
              else ok []
        ]

  module _ (letters : Letters) (floats : Floats) where
    unfoldable pub vector_candidates : String → ℕ → Projected p engine → Outcome (List (ℕ × ℕ))
    vector_candidates query limit s = do
      query_embedding ← engine.embed query
      found ←
          engine.search_vectors organization_id workspace_id query_embedding (candidate_limit limit)
            s.vectors
      ok (map (λ pair. (pair.0, floats.larger (floats.sub one_point_zero pair.1) 0)) found)

    unfoldable pub collect_candidates : String → ℕ → Projected p engine → Outcome Candidates
    collect_candidates query limit s = do
      texts ← text_candidates query limit s
      vectors ← vector_candidates query limit s
      elim (graph_candidates p letters floats organization_id workspace_id query
          (candidate_limit limit) 2 s.database) [
            | none ↦ err "out of fuel"
            | some graph ↦ ok (gather texts vectors graph)
          ]

    -- What follows the searches.
    unfoldable pub rank_chunks : Candidates → ℕ → Database p → List RetrievedChunk
    rank_chunks candidates limit db =
        let results = score_chunks candidates db (p.texts.rows db.chunks) in
        let fused = map (fuse floats (maximum_lexical_score floats 0 results)) results in
        take limit (sort_by (chunk_order floats) fused)

    unfoldable pub retrieve_chunks : String → ℕ → Projected p engine → Outcome (List RetrievedChunk)
    retrieve_chunks query limit s = do
      ensure (not (is_blank query)) "query cannot be empty"
      candidates ← collect_candidates query limit s
      ok (rank_chunks candidates limit s.database)
