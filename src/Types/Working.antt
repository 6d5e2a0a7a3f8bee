-- ===== src/Types/Working.antt =====
-- Working sessions (packages/hangar-server/src/store.rs).
use hangar_ia.Prelude.{ℕ, String, Option, List}
use hangar_ia.Platform.{Uuid}

pub data WorkingMemoryKind : Type 0 where
  note tool_output observation : WorkingMemoryKind

pub record WorkingSessionSummary : Type 0 where
  pub content : String
  pub content_sha256 : String
  pub updated_by : Uuid
  pub updated_at_unix_ms : ℕ
  pub version : ℕ

pub record WorkingMemoryEntry : Type 0 where
  pub id : Uuid
  pub kind : WorkingMemoryKind
  pub content : String
  pub content_sha256 : String
  pub created_by : Uuid
  pub created_at_unix_ms : ℕ

pub record WorkingSession : Type 0 where
  pub id : Uuid
  pub organization_id : String
  pub workspace_id : String
  pub created_by : Uuid
  pub created_at_unix_ms : ℕ
  pub updated_at_unix_ms : ℕ
  pub expires_at_unix_ms : ℕ
  pub summary : Option WorkingSessionSummary
  pub entries : List WorkingMemoryEntry

pub record NewWorkingSession : Type 0 where
  pub organization_id : String
  pub workspace_id : String
  pub created_by : Uuid
  pub ttl_ms : Option ℕ

pub record NewWorkingMemoryEntry : Type 0 where
  pub kind : WorkingMemoryKind
  pub content : String
  pub created_by : Uuid

-- The hash map of the sessions by id. The program never depends on its order.
pub record WorkingMemoryStore : Type 0 where
  pub sessions : List (Uuid × WorkingSession)
