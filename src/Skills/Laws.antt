-- ===== src/Skills/Laws.antt =====
-- What holds of the stored skills, and of the ones that are read.
use hangar_ia.Prelude.{String, Option, none, some, ◌≡◌, ok, nat_eq, string_eq}
use hangar_ia.Platform.{Uuid, Platform, Call}
use hangar_ia.Types.Catalog.{SkillLifecycle, AgentSkill, NewAgentSkill, skill_lifecycle_eq}
use hangar_ia.Database.{Database}
use hangar_ia.Skills.{create_skill, transition_skill}
use hangar_ia.Skills.Catalogued.{IsCatalogued}

module _ (p : Platform) where
  open p.uuids use {get, insert, get-insert, get-empty}

  -- One operation: a creation, a transition, or anything that leaves the skills alone.
  pub data SkillStep : Database p → Database p → Type 1 where
    created :
        {db db' : Database p} (call : Call) (new : NewAgentSkill) (skill : AgentSkill)
        → get (call.ids 0) db.agent_skills ≡ none
        → create_skill p call new db ≡ ok (skill, db')
        → SkillStep db db'
    transitioned :
        {db db' : Database p} (call : Call) (id : Uuid) (o w : String) (l : SkillLifecycle)
        (r : Option AgentSkill)
        → transition_skill p call id o w l db ≡ ok (r, db')
        → SkillStep db db'
    elsewhere : {db db' : Database p} → db'.agent_skills ≡ db.agent_skills → SkillStep db db'

  pub data SkillReach (db : Database p) : Database p → Type 1 where
    start : SkillReach db db
    next : {db1 db2 : Database p} → SkillReach db db1 → SkillStep db1 db2 → SkillReach db db2

  abbrev AllCatalogued : Database p → Type 0
  AllCatalogued db = (k : Uuid) (a : AgentSkill) → get k db.agent_skills ≡ some a → IsCatalogued p a

  -- A skill that a read gives is the stored one, of the asked workspace and published.
  pub record IsPublishedIn (id : Uuid) (o w : String) (db : Database p) (skill : AgentSkill)
      : Type 0 where
    pub stored : get id db.agent_skills ≡ some skill
    pub scope : (skill.organization_id ≡ o) × (skill.workspace_id ≡ w)
    pub published : skill.lifecycle ≡ SkillLifecycle.published
