-- ===== src/Skills.antt =====
-- The catalog of agent skills: `create_skill`, `transition_skill` and `get_published_skill` of
-- packages/hangar-server/src/store.rs.
pub mod Laws
pub mod Catalogued
use hangar_ia.Prelude.{
  ℕ, ◌*◌, String, Bool, true, false, not, ◌&&◌, Option, none, some, List, [], ◌∷◌, Outcome, ok,
  ensure, ◌>>=◌, ◌>>◌, max, leb, len, length, then_some, is_blank, ◌==◌, nat_eq, string_eq,
  saturating_add_u32, if◌then◌else◌,
}
use hangar_ia.Platform.{Uuid, Platform, Call}
use hangar_ia.Types.Catalog.{
  SkillCapabilities, SkillLifecycle, AgentSkill, NewAgentSkill, skill_lifecycle_eq,
}
use hangar_ia.Types.Events.{number, text, uuid, object, field, end}
use hangar_ia.Database.{Database}
use hangar_ia.Scope.{in_scope, validate_scope, validate_catalog_name}
use hangar_ia.Events.{skill_text, path_of, insert_outbox_event}

unfoldable pub validate_tools : List String → Outcome (Unit {0})
validate_tools [] = ok tt
validate_tools (tool ∷ tools) = do
  validate_catalog_name tool
      "declared tool must use 1-128 ASCII letters, digits, '-', '_', '.', or '/'"
  validate_tools tools

unfoldable pub validate_capabilities : SkillCapabilities → Outcome (Unit {0})
validate_capabilities capabilities = do
  ensure (leb (length capabilities.declared_tools) 32) "a skill may declare at most 32 tools"
  ensure (leb (length capabilities.declared_context_actions) 8)
      "a skill may declare at most 8 context actions"
  validate_tools capabilities.declared_tools

-- The tests of a new skill.
unfoldable pub check_new_skill : NewAgentSkill → Outcome (Unit {0})
check_new_skill new = do
  validate_scope new.organization_id new.workspace_id
  validate_catalog_name new.name
      "skill name must use 1-128 ASCII letters, digits, '-', '_', '.', or '/'"
  ensure (not (is_blank new.description) && leb (len new.description) 2000)
      "skill description must be between 1 and 2000 characters"
  ensure (not (is_blank new.content) && leb (len new.content) (64 * 1024))
      "skill content must be between 1 and 65536 characters"
  validate_capabilities new.capabilities

-- The largest version of the skills of one name in a workspace, 0 if there is none.
unfoldable pub latest_skill_version : String → String → String → List (Uuid × AgentSkill) → ℕ
latest_skill_version organization_id workspace_id name [] = 0
latest_skill_version organization_id workspace_id name ((key, skill) ∷ rest) =
    let latest = latest_skill_version organization_id workspace_id name rest in
    if in_scope skill.organization_id skill.workspace_id organization_id workspace_id
      && skill.name == name
    then max skill.version latest
    else latest

unfoldable pub is_valid_skill_transition : SkillLifecycle → SkillLifecycle → Bool
is_valid_skill_transition SkillLifecycle.draft SkillLifecycle.published = true
is_valid_skill_transition SkillLifecycle.draft SkillLifecycle.revoked = true
is_valid_skill_transition SkillLifecycle.published SkillLifecycle.revoked = true
is_valid_skill_transition _ _ = false

unfoldable pub relabelled : ℕ → SkillLifecycle → AgentSkill → AgentSkill
relabelled now lifecycle skill = record skill { lifecycle = lifecycle; updated_at_unix_ms = now }

module _ (p : Platform) where
  open p.uuids use {get, insert, rows}

  -- The skill that a creation stores.
  unfoldable pub new_skill : Call → NewAgentSkill → Database p → AgentSkill
  new_skill call new db = record {
    id = call.ids 0;
    organization_id = new.organization_id;
    workspace_id = new.workspace_id;
    name = new.name;
    version =
        saturating_add_u32
          (latest_skill_version new.organization_id new.workspace_id new.name
            (rows db.agent_skills))
          1;
    description = new.description;
    content = new.content;
    content_sha256 = p.digest new.content;
    capabilities = new.capabilities;
    lifecycle = SkillLifecycle.draft;
    created_by = new.created_by;
    created_at_unix_ms = call.clock 0;
    updated_at_unix_ms = call.clock 0;
  }

  unfoldable pub create_skill :
      Call → NewAgentSkill → Database p → Outcome (AgentSkill × Database p)
  create_skill call new db = do
    check_new_skill new
    let skill = new_skill call new db
    ok (
      skill,
      insert_outbox_event p (call.ids 1) (call.clock 1) "skill.created.v1"
          (path_of p "skills/" skill.id) skill.organization_id (some skill.workspace_id)
          (object (
            field "skill_id" (uuid skill.id)
              (field "name" (text skill.name) (field "version" (number skill.version) end))))
          (record db { agent_skills = insert skill.id skill db.agent_skills }),
    )

  unfoldable pub transition_skill :
      Call
      → Uuid
      → String
      → String
      → SkillLifecycle
      → Database p
      → Outcome (Option AgentSkill × Database p)
  transition_skill call id organization_id workspace_id lifecycle db =
      elim (get id db.agent_skills) [
        | none ↦ ok (none, db)
        | some skill ↦ do
          ensure (in_scope skill.organization_id skill.workspace_id organization_id workspace_id)
              "skill not found in this workspace"
          ensure (is_valid_skill_transition skill.lifecycle lifecycle)
              "invalid skill lifecycle transition"
          let skill' = relabelled (call.clock 0) lifecycle skill
          ok (
            some skill',
            insert_outbox_event p (call.ids 0) (call.clock 1) "skill.lifecycle_changed.v1"
                (path_of p "skills/" skill'.id) skill'.organization_id (some skill'.workspace_id)
                (object (
                  field "skill_id" (uuid skill'.id) (
                    field "lifecycle" (text (skill_text skill'.lifecycle))
                      (field "version" (number skill'.version) end))))
                (record db { agent_skills = insert id skill' db.agent_skills }),
          )
      ]

  unfoldable pub get_published_skill : Uuid → String → String → Database p → Option AgentSkill
  get_published_skill id organization_id workspace_id db = elim (get id db.agent_skills) [
    | none ↦ none
    | some skill ↦
        then_some
          (in_scope skill.organization_id skill.workspace_id organization_id workspace_id
            && skill.lifecycle == SkillLifecycle.published)
          skill
  ]
