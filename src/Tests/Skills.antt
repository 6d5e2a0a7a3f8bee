-- ===== src/Tests/Skills.antt =====
-- Runs of the operations on skills.
use hangar_ia.Platform.Sample.{sample, call_at}
use hangar_ia.Types.Catalog.{SkillLifecycle, AgentSkill}
use hangar_ia.Database.{Database}
use hangar_ia.Skills.{create_skill, transition_skill, new_skill, relabelled}
use hangar_ia.Tests.Data.{database_of, no_rows, a_skill}

abbrev draft_skill : AgentSkill
draft_skill = new_skill sample (call_at 100 1) a_skill no_rows

abbrev with_draft : Database sample
with_draft = database_of (create_skill sample (call_at 100 1) a_skill no_rows)

abbrev published_skill : AgentSkill
published_skill = relabelled 200 SkillLifecycle.published draft_skill

abbrev with_published : Database sample
with_published =
    database_of
      (transition_skill sample (call_at 200 10) 1 "acme" "lab" SkillLifecycle.published with_draft)
