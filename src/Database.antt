-- ===== src/Database.antt =====
-- The canonical database: one redb table for each kind of record. A write transaction that ends in
-- an error is dropped, and redb then discards its writes, so a failed operation gives no database.
use hangar_ia.Prelude.{ℕ}
use hangar_ia.Platform.{Uuid, Platform}
use hangar_ia.Types.Sharing.{MemoryShare}
use hangar_ia.Types.Access.{ApiKeyRecord}
use hangar_ia.Types.Memory.{Memory}
use hangar_ia.Types.Ingestion.{Document, IngestionJob, IngestionPayload}
use hangar_ia.Types.Catalog.{AgentSkill, GuardrailPolicy}
use hangar_ia.Types.Events.{AuditEvent, OutboxEvent}
use hangar_ia.Types.Projections.{
  DocumentChunk, VectorManifest, TextManifest, TextGeneration, GraphManifest, GraphEntity,
  GraphEdge, GraphEdgeEvidence,
}
use hangar_ia.Types.Quota.{BlobManifest}

pub record Database (p : Platform) : Type 0 where
  pub memories : p.uuids.Table Memory
  pub blobs : p.texts.Table BlobManifest
  pub api_keys : p.texts.Table ApiKeyRecord
  pub audit_events : p.uuids.Table AuditEvent
  pub documents : p.uuids.Table Document
  pub ingestion_jobs : p.uuids.Table IngestionJob
  pub ingestion_payloads : p.uuids.Table IngestionPayload
  -- the rows of these two hold the text of a job's id
  pub ingestion_deduplication : p.texts.Table Uuid
  pub ingestion_idempotency : p.texts.Table Uuid
  -- keyed by the document and the ordinal of the chunk
  pub chunks : p.texts.Table DocumentChunk
  pub vector_manifests : p.uuids.Table VectorManifest
  -- the chunk of each ANN key of a workspace, and the next key of a workspace
  pub vector_chunks : p.texts.Table Uuid
  pub vector_next_keys : p.texts.Table ℕ
  pub text_manifests : p.uuids.Table TextManifest
  pub text_active_generations : p.texts.Table TextGeneration
  pub graph_manifests : p.uuids.Table GraphManifest
  pub graph_entities : p.texts.Table GraphEntity
  pub graph_edges : p.uuids.Table GraphEdge
  pub graph_edges_by_source : p.texts.Table Uuid
  pub graph_edges_by_target : p.texts.Table Uuid
  pub graph_edge_evidence : p.texts.Table GraphEdgeEvidence
  pub outbox_events : p.uuids.Table OutboxEvent
  pub memory_shares : p.uuids.Table MemoryShare
  pub agent_skills : p.uuids.Table AgentSkill
  pub guardrail_policies : p.uuids.Table GuardrailPolicy

-- The tables as `open_with_embedding_provider` creates them in a new directory.
abbrev pub empty_database : (p : Platform) → Database p
empty_database p = record {
  memories = p.uuids.empty;
  blobs = p.texts.empty;
  api_keys = p.texts.empty;
  audit_events = p.uuids.empty;
  documents = p.uuids.empty;
  ingestion_jobs = p.uuids.empty;
  ingestion_payloads = p.uuids.empty;
  ingestion_deduplication = p.texts.empty;
  ingestion_idempotency = p.texts.empty;
  chunks = p.texts.empty;
  vector_manifests = p.uuids.empty;
  vector_chunks = p.texts.empty;
  vector_next_keys = p.texts.empty;
  text_manifests = p.uuids.empty;
  text_active_generations = p.texts.empty;
  graph_manifests = p.uuids.empty;
  graph_entities = p.texts.empty;
  graph_edges = p.uuids.empty;
  graph_edges_by_source = p.texts.empty;
  graph_edges_by_target = p.texts.empty;
  graph_edge_evidence = p.texts.empty;
  outbox_events = p.uuids.empty;
  memory_shares = p.uuids.empty;
  agent_skills = p.uuids.empty;
  guardrail_policies = p.uuids.empty;
}
