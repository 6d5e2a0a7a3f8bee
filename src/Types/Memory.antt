-- ===== src/Types/Memory.antt =====
-- Durable memories (packages/hangar-server/src/store.rs).
use hangar_ia.Prelude.{ℕ, String, Option}
use hangar_ia.Platform.{Uuid}

pub data MemoryRetention : Type 0 where
  indefinite expire_at : MemoryRetention

pub data MemoryProvenance : Type 0 where
  direct : MemoryProvenance
  -- the session, the entry, the digest of the entry and the author of the session
  session_promotion : Uuid → Uuid → String → Uuid → MemoryProvenance

pub data MemoryLifecycle : Type 0 where
  proposed validated published superseded expired : MemoryLifecycle

-- `confidence` is the bit pattern of an `f32`.
pub record Memory : Type 0 where
  pub id : Uuid
  pub organization_id : String
  pub workspace_id : String
  pub content : String
  pub source : Option String
  pub content_sha256 : String
  pub created_by : Uuid
  pub confidence : ℕ
  pub lifecycle : MemoryLifecycle
  pub created_at_unix_ms : ℕ
  pub updated_at_unix_ms : ℕ
  pub expires_at_unix_ms : Option ℕ
  pub superseded_by : Option Uuid
  pub version : ℕ
  pub retention : MemoryRetention
  pub provenance : MemoryProvenance

pub record NewMemory : Type 0 where
  pub organization_id : String
  pub workspace_id : String
  pub content : String
  pub source : Option String
  pub created_by : Uuid
  pub confidence : ℕ
  pub expires_at_unix_ms : Option ℕ
  pub provenance : MemoryProvenance

pub record MemoryTransition : Type 0 where
  pub lifecycle : MemoryLifecycle
  pub expires_at_unix_ms : Option ℕ
  pub superseded_by : Option Uuid
