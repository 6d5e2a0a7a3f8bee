-- ===== src/Tests/Data.antt =====
-- The requests and databases of the tests.
use hangar_ia.Prelude.{none, some, [], ◌∷◌, Outcome, ok, err}
use hangar_ia.Platform.{Uuid}
use hangar_ia.Platform.Sample.{sample}
use hangar_ia.Types.Memory.{NewMemory, MemoryTransition, MemoryLifecycle, MemoryProvenance}
use hangar_ia.Types.Access.{Role}
use hangar_ia.Types.Catalog.{GuardrailAction, PolicyEffect, NewGuardrailPolicy, NewAgentSkill}
use hangar_ia.Types.Ingestion.{NewDocument}
use hangar_ia.Types.Quota.{WorkspaceLimits}
use hangar_ia.Database.{Database, empty_database}

-- The database that a success leaves.
abbrev pub database_of : {A : Type 0} → Outcome (A × Database sample) → Database sample
database_of (ok r) = r.1
database_of (err message) = empty_database sample

abbrev pub no_rows : Database sample
no_rows = empty_database sample

-- 0.5, without an expiry
abbrev pub a_fact : NewMemory
a_fact = record {
  organization_id = "acme";
  workspace_id = "lab";
  content = "water boils at 100";
  source = none;
  created_by = 7;
  confidence = 0x3F000000;
  expires_at_unix_ms = none;
  provenance = MemoryProvenance.direct;
}

abbrev pub brief_fact : NewMemory
brief_fact = record a_fact { expires_at_unix_ms = some 500 }

abbrev pub to : MemoryLifecycle → MemoryTransition
to lifecycle = record { lifecycle = lifecycle; expires_at_unix_ms = none; superseded_by = none }

abbrev pub superseded_by : Uuid → MemoryTransition
superseded_by id = record {
  lifecycle = MemoryLifecycle.superseded;
  expires_at_unix_ms = none;
  superseded_by = some id;
}

-- A policy that lets no reader export.
abbrev pub no_export : NewGuardrailPolicy
no_export = record {
  organization_id = "acme";
  workspace_id = "lab";
  name = "exports";
  rules =
      (record {
        id = "readers";
        action = GuardrailAction.export;
        effect = PolicyEffect.deny;
        roles = Role.reader ∷ [];
        targets = "*" ∷ [];
      })
      ∷ [];
  created_by = 7;
}

abbrev pub a_skill : NewAgentSkill
a_skill = record {
  organization_id = "acme";
  workspace_id = "lab";
  name = "search";
  description = "finds facts";
  content = "look it up";
  capabilities = record { declared_tools = "grep" ∷ []; declared_context_actions = [] };
  created_by = 7;
}

abbrev pub a_document : NewDocument
a_document = record {
  organization_id = "acme";
  workspace_id = "lab";
  name = "notes";
  source = none;
  content = "water and ice";
  created_by = 7;
  idempotency_key = none;
}

abbrev pub small_limits : WorkspaceLimits
small_limits = record {
  max_document_bytes = 100;
  max_documents = 1;
  max_ingestion_bytes = 100;
  max_blob_bytes = 100;
  max_blobs_bytes = 100;
  max_memories = 2;
  max_memory_bytes = 100;
}
