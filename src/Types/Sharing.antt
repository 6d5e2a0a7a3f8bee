-- ===== src/Types/Sharing.antt =====
-- The types of packages/hangar-server/src/sharing.rs.
use hangar_ia.Prelude.{ℕ, String, Bool, Option, List, Eq, ◌≡◌, ◌↔◌, true, false, arith}
use hangar_ia.Platform.{Uuid}

pub data SubjectKind : Type 0 where
  agent user : SubjectKind

pub data ShareAudience : Type 0 where
  organization : ShareAudience
  workspace : String → ShareAudience
  agent user : Uuid → ShareAudience

pub data ShareReviewState : Type 0 where
  pending approved rejected revoked : ShareReviewState

pub record MemoryShare : Type 0 where
  pub id : Uuid
  pub organization_id : String
  pub source_workspace_id : String
  pub memory_id : Uuid
  pub audience : ShareAudience
  pub state : ShareReviewState
  pub proposed_by : Uuid
  pub reviewed_by : Option Uuid
  pub review_note : Option String
  pub source_memory_version : ℕ
  pub expires_at_unix_ms : Option ℕ
  pub created_at_unix_ms : ℕ
  pub updated_at_unix_ms : ℕ
  pub version : ℕ

pub record ContextEvidence : Type 0 where
  pub memory_id : Uuid
  pub source_workspace_id : String
  pub source : Option String
  pub content_sha256 : String
  pub memory_version : ℕ
  pub share_id : Option Uuid

pub record ContextItem : Type 0 where
  pub content : String
  pub score : ℕ
  pub estimated_tokens : ℕ
  pub untrusted : Bool
  pub evidence : ContextEvidence

pub record ContextPackage : Type 0 where
  pub organization_id : String
  pub workspace_id : String
  pub query : String
  pub token_budget : ℕ
  pub estimated_tokens : ℕ
  pub items : List ContextItem
  pub policy_notice : String

abbrev subject_beq : SubjectKind → SubjectKind → Bool
subject_beq SubjectKind.agent SubjectKind.agent = true
subject_beq SubjectKind.user SubjectKind.user = true
subject_beq _ _ = false

pub subject_beq_iff : (a b : SubjectKind) → (subject_beq a b ≡ true) ↔ (a ≡ b)
subject_beq_iff a b = ground arith

instance abbrev pub subject_eq : Eq SubjectKind
subject_eq = record { beq = subject_beq; beq_iff = subject_beq_iff }

abbrev review_beq : ShareReviewState → ShareReviewState → Bool
review_beq ShareReviewState.pending ShareReviewState.pending = true
review_beq ShareReviewState.approved ShareReviewState.approved = true
review_beq ShareReviewState.rejected ShareReviewState.rejected = true
review_beq ShareReviewState.revoked ShareReviewState.revoked = true
review_beq _ _ = false

pub review_beq_iff : (a b : ShareReviewState) → (review_beq a b ≡ true) ↔ (a ≡ b)
review_beq_iff a b = ground arith

instance abbrev pub review_eq : Eq ShareReviewState
review_eq = record { beq = review_beq; beq_iff = review_beq_iff }
