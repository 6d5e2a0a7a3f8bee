-- ===== src/Types/Projections.antt =====
-- Chunks of documents, and the records of their vector, text and graph projections
-- (packages/hangar-server/src/store.rs).
use hangar_ia.Prelude.{ℕ, String}
use hangar_ia.Platform.{Uuid}

pub record DocumentChunk : Type 0 where
  pub id : Uuid
  pub document_id : Uuid
  pub ordinal : ℕ
  pub content : String

pub data VectorProjectionState : Type 0 where
  pending ready : VectorProjectionState

pub data TextProjectionState : Type 0 where
  pending ready : TextProjectionState

pub data GraphProjectionState : Type 0 where
  pending ready : GraphProjectionState

pub record VectorManifest : Type 0 where
  pub chunk_id : Uuid
  pub organization_id : String
  pub workspace_id : String
  pub ann_key : ℕ
  pub provider : String
  pub model_revision : String
  pub dimensions : ℕ
  pub pipeline_version : ℕ
  pub source_sha256 : String
  pub state : VectorProjectionState
  pub updated_at_unix_ms : ℕ

pub record TextManifest : Type 0 where
  pub chunk_id : Uuid
  pub organization_id : String
  pub workspace_id : String
  pub source_sha256 : String
  pub pipeline_version : ℕ
  pub state : TextProjectionState
  pub updated_at_unix_ms : ℕ

pub record TextGeneration : Type 0 where
  pub organization_id : String
  pub workspace_id : String
  pub generation : Uuid
  pub pipeline_version : ℕ
  pub updated_at_unix_ms : ℕ

pub record GraphManifest : Type 0 where
  pub chunk_id : Uuid
  pub organization_id : String
  pub workspace_id : String
  pub source_sha256 : String
  pub pipeline_version : ℕ
  pub extractor : String
  pub extraction_version : ℕ
  pub state : GraphProjectionState
  pub updated_at_unix_ms : ℕ

pub record GraphEntity : Type 0 where
  pub id : Uuid
  pub organization_id : String
  pub workspace_id : String
  pub normalized_name : String
  pub display_name : String
  pub entity_type : String
  pub extractor : String
  pub extraction_version : ℕ
  pub created_at_unix_ms : ℕ
  pub updated_at_unix_ms : ℕ

pub record GraphEdge : Type 0 where
  pub id : Uuid
  pub organization_id : String
  pub workspace_id : String
  pub source_entity_id : Uuid
  pub target_entity_id : Uuid
  pub relation_type : String
  pub confidence : ℕ
  pub extractor : String
  pub extraction_version : ℕ
  pub created_at_unix_ms : ℕ
  pub updated_at_unix_ms : ℕ

pub record GraphEdgeEvidence : Type 0 where
  pub edge_id : Uuid
  pub chunk_id : Uuid
  pub source_sha256 : String
  pub confidence : ℕ
  pub created_at_unix_ms : ℕ
