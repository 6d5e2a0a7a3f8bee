-- ===== src/Skills/Catalogued.antt =====
-- The limits of the catalog, and the operations that keep them.
use hangar_ia.Prelude.{
  ℕ, ◌*◌, ◌≤◌, String, true, false, not, ◌&&◌, Option, some, List, [], ◌∷◌, ◌≡◌, refl, ok, ensure,
  ensure-ok, >>-eq-ok, leb, leb→le, len, length, is_blank, Option-cases, nat_eq, string_eq, ◌⊎◌,
  inl, inr, arith, All,
}
use hangar_ia.Platform.{Uuid, Platform, Call}
use hangar_ia.Types.Catalog.{SkillLifecycle, AgentSkill, NewAgentSkill, skill_lifecycle_eq}
use hangar_ia.Database.{Database}
use hangar_ia.Scope.{in_scope, validate_scope, validate_catalog_name}
use hangar_ia.Events.{insert_outbox_event}
use hangar_ia.Skills.{
  validate_tools, validate_capabilities, check_new_skill, is_valid_skill_transition, relabelled,
  new_skill, create_skill, transition_skill,
}

-- The message of the names of tools.
abbrev tool_message : String
tool_message = "declared tool must use 1-128 ASCII letters, digits, '-', '_', '.', or '/'"

abbrev IsToolName : String → Type 0
IsToolName tool = validate_catalog_name tool tool_message ≡ ok tt

validate_tools-All : (tools : List String) → validate_tools tools ≡ ok tt → All IsToolName tools
unfolding validate_tools
validate_tools-All [] h = tt
validate_tools-All (tool ∷ tools) h =
    let (a, b) = >>-eq-ok (validate_catalog_name tool tool_message) _ h in
    (a, validate_tools-All tools b)

module _ (p : Platform) where
  open p.uuids use {get, insert, get-insert, get-empty}

  -- A skill that keeps the limits of the catalog and the digest of its content.
  pub record IsCatalogued (skill : AgentSkill) : Type 0 where
    pub digest : skill.content_sha256 ≡ p.digest skill.content
    pub scope : validate_scope skill.organization_id skill.workspace_id ≡ ok tt
    pub description : (is_blank skill.description ≡ false) × (len skill.description ≤ 2000)
    pub content : (is_blank skill.content ≡ false) × (len skill.content ≤ 64 * 1024)
    pub tools : length skill.capabilities.declared_tools ≤ 32
    pub actions : length skill.capabilities.declared_context_actions ≤ 8
    pub tool_names : All IsToolName skill.capabilities.declared_tools

  pub new_skill-IsCatalogued :
      (call : Call) (new : NewAgentSkill) (db : Database p)
      → check_new_skill new ≡ ok tt
      → IsCatalogued (new_skill p call new db)
  unfolding check_new_skill new_skill validate_capabilities
  new_skill-IsCatalogued call new db h =
      let (s, h1) = >>-eq-ok (validate_scope new.organization_id new.workspace_id) _ h in
      let (n, h2) =
        >>-eq-ok
          (validate_catalog_name new.name
            "skill name must use 1-128 ASCII letters, digits, '-', '_', '.', or '/'")
          _ h1 in
      let (d, h3) =
        >>-eq-ok
          (ensure (not (is_blank new.description) && leb (len new.description) 2000)
            "skill description must be between 1 and 2000 characters")
          _ h2 in
      let (c, h4) =
        >>-eq-ok
          (ensure (not (is_blank new.content) && leb (len new.content) (64 * 1024))
            "skill content must be between 1 and 65536 characters")
          _ h3 in
      let (t, h5) =
        >>-eq-ok
          (ensure (leb (length new.capabilities.declared_tools) 32)
            "a skill may declare at most 32 tools")
          _ h4 in
      let (x, h6) =
        >>-eq-ok
          (ensure (leb (length new.capabilities.declared_context_actions) 8)
            "a skill may declare at most 8 context actions")
          _ h5 in
      record {
        digest = refl;
        scope = s;
        description = (ground (arith, ensure-ok _ _ d), ground (arith, ensure-ok _ _ d));
        content = (ground (arith, ensure-ok _ _ c), ground (arith, ensure-ok _ _ c));
        tools = leb→le _ _ (ensure-ok _ _ t);
        actions = leb→le _ _ (ensure-ok _ _ x);
        tool_names = validate_tools-All new.capabilities.declared_tools h6;
      }

  pub relabelled-IsCatalogued :
      (now : ℕ) (l : SkillLifecycle) (a : AgentSkill)
      → IsCatalogued a
      → IsCatalogued (relabelled now l a)
  unfolding relabelled
  relabelled-IsCatalogued now l a h = record {
    digest = h.digest;
    scope = h.scope;
    description = h.description;
    content = h.content;
    tools = h.tools;
    actions = h.actions;
    tool_names = h.tool_names;
  }

  pub create_skill-ok :
      (call : Call) (new : NewAgentSkill) (db : Database p) {skill : AgentSkill} {db' : Database p}
      → create_skill p call new db ≡ ok (skill, db')
      → (check_new_skill new ≡ ok tt)
        × (db'.agent_skills ≡ insert (call.ids 0) (new_skill p call new db) db.agent_skills)
  unfolding create_skill new_skill insert_outbox_event
  create_skill-ok call new db h =
      let (c, h1) = >>-eq-ok (check_new_skill new) _ h in (c, ground arith)

  pub record SkillMoved (call : Call) (id : Uuid) (l : SkillLifecycle) (db db' : Database p)
      : Type 0 where
    pub skill : AgentSkill
    pub found : get id db.agent_skills ≡ some skill
    pub forward : is_valid_skill_transition skill.lifecycle l ≡ true
    pub stored : db'.agent_skills ≡ insert id (relabelled (call.clock 0) l skill) db.agent_skills

  pub transition_skill-ok :
      (call : Call) (id : Uuid) (o w : String) (l : SkillLifecycle) (db : Database p)
      {r : Option AgentSkill} {db' : Database p}
      → transition_skill p call id o w l db ≡ ok (r, db')
      → (db' ≡ db) ⊎ SkillMoved call id l db db'
  unfolding transition_skill insert_outbox_event
  transition_skill-ok call id o w l db h = elim (Option-cases (get id db.agent_skills)) [
    | inl missing ↦ inl (ground (arith, h, missing))
    | inr (m, found) ↦
        let k = rw (found, transition_skill) at h in
        let (a, k1) =
          >>-eq-ok
            (ensure (in_scope m.organization_id m.workspace_id o w)
              "skill not found in this workspace")
            _ k in
        let (b, k2) =
          >>-eq-ok
            (ensure (is_valid_skill_transition m.lifecycle l) "invalid skill lifecycle transition")
            _ k1 in
        inr (record { skill = m; found = found; forward = ensure-ok _ _ b; stored = ground arith })
  ]
