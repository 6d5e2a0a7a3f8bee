-- ===== src/Types/Catalog.antt =====
-- Skills and guardrail policies (packages/hangar-server/src/store.rs).
use hangar_ia.Prelude.{ℕ, String, Bool, true, false, List, Eq, ◌≡◌, ◌↔◌, arith}
use hangar_ia.Platform.{Uuid}
use hangar_ia.Types.Access.{Role}

pub data GuardrailAction : Type 0 where
  memory_read memory_share context_read export skill_read skill_use tool_invoke : GuardrailAction

pub record SkillCapabilities : Type 0 where
  pub declared_tools : List String
  pub declared_context_actions : List GuardrailAction

pub data SkillLifecycle : Type 0 where
  draft published revoked : SkillLifecycle

pub record AgentSkill : Type 0 where
  pub id : Uuid
  pub organization_id : String
  pub workspace_id : String
  pub name : String
  pub version : ℕ
  pub description : String
  pub content : String
  pub content_sha256 : String
  pub capabilities : SkillCapabilities
  pub lifecycle : SkillLifecycle
  pub created_by : Uuid
  pub created_at_unix_ms : ℕ
  pub updated_at_unix_ms : ℕ

pub record NewAgentSkill : Type 0 where
  pub organization_id : String
  pub workspace_id : String
  pub name : String
  pub description : String
  pub content : String
  pub capabilities : SkillCapabilities
  pub created_by : Uuid

pub data PolicyEffect : Type 0 where
  allow deny : PolicyEffect

pub data PolicyLifecycle : Type 0 where
  draft enforced retired : PolicyLifecycle

pub record GuardrailRule : Type 0 where
  pub id : String
  pub action : GuardrailAction
  pub effect : PolicyEffect
  pub roles : List Role
  pub targets : List String

pub record GuardrailPolicy : Type 0 where
  pub id : Uuid
  pub organization_id : String
  pub workspace_id : String
  pub name : String
  pub version : ℕ
  pub lifecycle : PolicyLifecycle
  pub rules : List GuardrailRule
  pub created_by : Uuid
  pub created_at_unix_ms : ℕ
  pub updated_at_unix_ms : ℕ

pub record NewGuardrailPolicy : Type 0 where
  pub organization_id : String
  pub workspace_id : String
  pub name : String
  pub rules : List GuardrailRule
  pub created_by : Uuid

pub record GuardrailDecision : Type 0 where
  pub allowed : Bool
  pub action : GuardrailAction
  pub target : String
  pub reason : String
  pub evaluated_policy_ids : List Uuid
  pub matched_rule_ids : List String
  pub retrieved_content_is_untrusted : Bool

abbrev action_beq : GuardrailAction → GuardrailAction → Bool
action_beq memory_read memory_read = true
action_beq memory_share memory_share = true
action_beq context_read context_read = true
action_beq export export = true
action_beq skill_read skill_read = true
action_beq skill_use skill_use = true
action_beq tool_invoke tool_invoke = true
action_beq _ _ = false

pub action_beq_iff : (a b : GuardrailAction) → (action_beq a b ≡ true) ↔ (a ≡ b)
action_beq_iff a b = ground arith

instance abbrev pub action_eq : Eq GuardrailAction
action_eq = record { beq = action_beq; beq_iff = action_beq_iff }

abbrev skill_lifecycle_beq : SkillLifecycle → SkillLifecycle → Bool
skill_lifecycle_beq SkillLifecycle.draft SkillLifecycle.draft = true
skill_lifecycle_beq SkillLifecycle.published SkillLifecycle.published = true
skill_lifecycle_beq SkillLifecycle.revoked SkillLifecycle.revoked = true
skill_lifecycle_beq _ _ = false

pub skill_lifecycle_beq_iff : (a b : SkillLifecycle) → (skill_lifecycle_beq a b ≡ true) ↔ (a ≡ b)
skill_lifecycle_beq_iff a b = ground arith

instance abbrev pub skill_lifecycle_eq : Eq SkillLifecycle
skill_lifecycle_eq = record { beq = skill_lifecycle_beq; beq_iff = skill_lifecycle_beq_iff }

abbrev policy_lifecycle_beq : PolicyLifecycle → PolicyLifecycle → Bool
policy_lifecycle_beq PolicyLifecycle.draft PolicyLifecycle.draft = true
policy_lifecycle_beq PolicyLifecycle.enforced PolicyLifecycle.enforced = true
policy_lifecycle_beq PolicyLifecycle.retired PolicyLifecycle.retired = true
policy_lifecycle_beq _ _ = false

pub policy_lifecycle_beq_iff : (a b : PolicyLifecycle) → (policy_lifecycle_beq a b ≡ true) ↔ (a ≡ b)
policy_lifecycle_beq_iff a b = ground arith

instance abbrev pub policy_lifecycle_eq : Eq PolicyLifecycle
policy_lifecycle_eq = record { beq = policy_lifecycle_beq; beq_iff = policy_lifecycle_beq_iff }
