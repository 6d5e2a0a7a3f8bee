-- ===== src/Projections.antt =====
-- The projections of a document: its chunks, and their vector, text and graph manifests, first pending
-- and then ready (`process_claimed_ingestion_job` of packages/hangar-server/src/store.rs).
pub mod Keys
pub mod Prepare
pub mod Publish
pub mod Confirm
pub mod Rebuild
use hangar_ia.Prelude.{ℕ, String, Bool, List, Outcome, ◌&&◌, ◌==◌, string_eq, nat_eq}
use hangar_ia.Platform.{Uuid}

-- The identity of an embedding space (packages/hangar-server/src/vector.rs).
pub record EmbeddingProfile : Type 0 where
  pub provider : String
  pub model_revision : String
  pub dimensions : ℕ

unfoldable pub matches_manifest : EmbeddingProfile → String → String → ℕ → Bool
matches_manifest profile provider model_revision dimensions =
    profile.provider == provider
    && (profile.model_revision == model_revision && profile.dimensions == dimensions)

-- A document of the text index (packages/hangar-server/src/text.rs), under the id of its chunk.
pub record TextEntry : Type 0 where
  pub chunk_id : Uuid
  pub content : String

-- The indexes, which stand on usearch, tantivy and an embedding model: their files, and the
-- operations that replace and search them, each of which may fail. A score is the bits of an f32.
pub record Indexing : Type 1 where
  pub Vector : Type 0
  pub VectorFiles : Type 0
  pub TextFiles : Type 0
  pub profile : EmbeddingProfile
  pub embed : String → Outcome Vector
  pub publish_vectors : String → String → List (ℕ × Vector) → VectorFiles → Outcome VectorFiles
  pub search_vectors : String → String → Vector → ℕ → VectorFiles → Outcome (List (ℕ × ℕ))
  pub publish_text : String → String → Uuid → List TextEntry → TextFiles → Outcome TextFiles
  pub search_text : String → String → Uuid → String → ℕ → TextFiles → Outcome (List (Uuid × ℕ))
