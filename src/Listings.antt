-- ===== src/Listings.antt =====
-- The reads of packages/hangar-server/src/store.rs that sort their rows: `list_guardrail_policies`,
-- `list_published_skills` and `list_memory_shares`.
pub mod Order
use hangar_ia.Prelude.{
  ℕ, String, Bool, true, false, ◌&&◌, List, map, filter, leb, ◌==◌, string_eq, sort_by, text_le,
  if◌then◌else◌,
}
use hangar_ia.Platform.{Uuid, Platform}
use hangar_ia.Types.Catalog.{GuardrailPolicy, AgentSkill, SkillLifecycle, skill_lifecycle_eq}
use hangar_ia.Types.Sharing.{MemoryShare}
use hangar_ia.Database.{Database}
use hangar_ia.Scope.{in_scope}

-- `left.name.cmp(&right.name).then(left.version.cmp(&right.version))` is not `Greater`
abbrev pub name_and_version_le : String → ℕ → String → ℕ → Bool
name_and_version_le left left_version right right_version =
    if text_le left right
    then if left == right then leb left_version right_version else true
    else false

-- `sort_by_key(|share| share.id)`
abbrev pub by_id : MemoryShare → MemoryShare → Bool
by_id left right = leb left.id right.id

module _ (p : Platform) (organization_id : String) where
  unfoldable pub list_guardrail_policies : String → Database p → List GuardrailPolicy
  list_guardrail_policies workspace_id db =
      sort_by
        (λ (left : GuardrailPolicy) (right : GuardrailPolicy).
          name_and_version_le left.name left.version right.name right.version)
        (filter
          (λ (policy : GuardrailPolicy).
            in_scope policy.organization_id policy.workspace_id organization_id workspace_id)
          (map (λ row. row.1) (p.uuids.rows db.guardrail_policies)))

  unfoldable pub list_published_skills : String → Database p → List AgentSkill
  list_published_skills workspace_id db =
      sort_by
        (λ (left : AgentSkill) (right : AgentSkill).
          name_and_version_le left.name left.version right.name right.version)
        (filter
          (λ (skill : AgentSkill).
            in_scope skill.organization_id skill.workspace_id organization_id workspace_id
            && skill.lifecycle == SkillLifecycle.published)
          (map (λ row. row.1) (p.uuids.rows db.agent_skills)))

  unfoldable pub list_memory_shares : String → Database p → List MemoryShare
  list_memory_shares source_workspace_id db = sort_by by_id (
      filter
        (λ (share : MemoryShare).
          in_scope share.organization_id share.source_workspace_id organization_id
            source_workspace_id)
        (map (λ row. row.1) (p.uuids.rows db.memory_shares)))
