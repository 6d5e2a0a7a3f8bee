-- ===== src/Types/Access.antt =====
-- Roles and principals (packages/hangar-server/src/store.rs).
use hangar_ia.Prelude.{ℕ, String, Bool, true, false, Option, Eq, ◌≡◌, ◌↔◌, arith}
use hangar_ia.Platform.{Uuid}
use hangar_ia.Types.Sharing.{SubjectKind}

pub data Role : Type 0 where
  owner writer reader : Role

pub record Principal : Type 0 where
  pub id : Uuid
  pub organization_id : String
  pub workspace_id : Option String
  pub role : Role
  pub subject_kind : SubjectKind

pub record IssuedApiKey : Type 0 where
  pub id : Uuid
  pub token : String
  pub organization_id : String
  pub workspace_id : Option String
  pub role : Role
  pub subject_kind : SubjectKind

pub record ApiKeyRecord : Type 0 where
  pub principal : Principal
  pub token_hash : String
  pub created_at_unix_ms : ℕ

abbrev role_beq : Role → Role → Bool
role_beq Role.owner Role.owner = true
role_beq Role.writer Role.writer = true
role_beq Role.reader Role.reader = true
role_beq _ _ = false

pub role_beq_iff : (a b : Role) → (role_beq a b ≡ true) ↔ (a ≡ b)
role_beq_iff a b = ground arith

instance abbrev pub role_eq : Eq Role
role_eq = record { beq = role_beq; beq_iff = role_beq_iff }
