-- ===== src/Types/Events.antt =====
-- Audit and outbox events (packages/hangar-server/src/store.rs), and the JSON values that they carry.
use hangar_ia.Prelude.{ℕ, String, Option}
use hangar_ia.Platform.{Uuid}

-- `serde_json::Value`, as far as the events use it; a uuid is written as its text.
mutual
  pub data Value : Type 0 where
    null : Value
    text : String → Value
    number : ℕ → Value
    uuid : Uuid → Value
    object : Fields → Value

  pub data Fields : Type 0 where
    end : Fields
    field : String → Value → Fields → Fields

pub record AuditEvent : Type 0 where
  pub id : Uuid
  pub principal_id : Uuid
  pub organization_id : String
  pub workspace_id : Option String
  pub action : String
  pub resource : String
  pub created_at_unix_ms : ℕ

-- `event_data` is the field `data`.
pub record OutboxEvent : Type 0 where
  pub id : Uuid
  pub spec_version : ℕ
  pub event_type : String
  pub subject : String
  pub organization_id : String
  pub workspace_id : Option String
  pub event_data : Value
  pub occurred_at_unix_ms : ℕ
