-- ===== src/Memory/Records.antt =====
-- What creation, transition and expiry make of a memory, and the tests that they make
-- (packages/hangar-server/src/store.rs).
use hangar_ia.Prelude.{
  ℕ, ◌-◌, ◌*◌, Bool, true, false, not, ◌&&◌, Option, none, some, List, [], ◌∷◌, Outcome, ok, ensure,
  ◌>>◌, add_u32, in_unit_interval, is_blank, is_some, is_none_or, is_some_and, or_option, ltb, leb,
  nat_eq, string_eq, if◌then◌else◌,
}
use hangar_ia.Platform.{Uuid, Platform, Call}
use hangar_ia.Types.Access.{Principal, Role}
use hangar_ia.Types.Sharing.{SubjectKind}
use hangar_ia.Types.Memory.{
  Memory, NewMemory, MemoryTransition, MemoryLifecycle, MemoryRetention, proposed, validated,
  published, superseded, expired,
}

abbrev pub max_memory_retention_ms : ℕ
max_memory_retention_ms = 365 * 24 * 60 * 60 * 1000

unfoldable pub is_valid_transition : MemoryLifecycle → MemoryLifecycle → Bool
is_valid_transition proposed validated = true
is_valid_transition validated published = true
is_valid_transition proposed expired = true
is_valid_transition validated expired = true
is_valid_transition published expired = true
is_valid_transition published superseded = true
is_valid_transition _ _ = false

abbrev pub is_published : MemoryLifecycle → Bool
is_published published = true
is_published _ = false

abbrev pub is_superseded : MemoryLifecycle → Bool
is_superseded superseded = true
is_superseded _ = false

-- The time is the one that the test reads.
unfoldable pub is_retrievable : ℕ → Memory → Bool
is_retrievable now memory =
    is_published memory.lifecycle
    && is_none_or (λ expires_at. ltb now expires_at) memory.expires_at_unix_ms

-- The two checks that creation and transition make of a new expiry.
unfoldable pub ensure_retention : ℕ → Option ℕ → Outcome (Unit {0})
ensure_retention now none = ok tt
ensure_retention now (some expires_at) = do
  ensure (ltb now expires_at) "expires_at_unix_ms must be in the future"
  ensure (leb (expires_at - now) max_memory_retention_ms) "memory retention cannot exceed one year"
  ok tt

-- The memory that a creation stores.
unfoldable pub new_memory : (p : Platform) → Call → NewMemory → Memory
new_memory p call new = record {
  id = call.ids 0;
  organization_id = new.organization_id;
  workspace_id = new.workspace_id;
  content = new.content;
  source = new.source;
  content_sha256 = p.digest new.content;
  created_by = new.created_by;
  confidence = new.confidence;
  lifecycle = proposed;
  created_at_unix_ms = call.clock 0;
  updated_at_unix_ms = call.clock 0;
  expires_at_unix_ms = new.expires_at_unix_ms;
  superseded_by = none;
  version = 1;
  retention =
      if is_some new.expires_at_unix_ms
      then MemoryRetention.expire_at
      else MemoryRetention.indefinite;
  provenance = new.provenance;
}

-- The outcome of the tests that a new memory has to pass.
unfoldable pub check_new_memory : ℕ → NewMemory → Outcome (Unit {0})
check_new_memory now new = do
  ensure (not (is_blank new.organization_id)) "organization_id cannot be empty"
  ensure (not (is_blank new.workspace_id)) "workspace_id cannot be empty"
  ensure (not (is_blank new.content)) "content cannot be empty"
  ensure (in_unit_interval new.confidence) "confidence must be between 0 and 1"
  ensure_retention now new.expires_at_unix_ms

-- What a transition makes of a memory, at the time of the change.
unfoldable pub moved : ℕ → MemoryTransition → Memory → Memory
moved now transition memory =
    let expires_at = or_option transition.expires_at_unix_ms memory.expires_at_unix_ms in
    record memory {
      lifecycle = transition.lifecycle;
      expires_at_unix_ms = expires_at;
      retention = if is_some expires_at then MemoryRetention.expire_at else memory.retention;
      superseded_by = transition.superseded_by;
      updated_at_unix_ms = now;
      version = add_u32 memory.version 1;
    }

abbrev pub is_open : MemoryLifecycle → Bool
is_open proposed = true
is_open validated = true
is_open published = true
is_open _ = false

unfoldable pub is_due : ℕ → Memory → Bool
is_due now memory =
    is_open memory.lifecycle
    && is_some_and (λ expires_at. leb expires_at now) memory.expires_at_unix_ms

-- The first loop of `expire_due_memories`: the keys of the memories that are due.
unfoldable pub due_keys : ℕ → List (Uuid × Memory) → List Uuid
due_keys now [] = []
due_keys now ((key, memory) ∷ rest) =
    let keys = due_keys now rest in if is_due now memory then key ∷ keys else keys

-- A memory that its retention has ended.
unfoldable pub expire_memory : ℕ → Memory → Memory
expire_memory now memory = record memory {
  lifecycle = expired;
  updated_at_unix_ms = now;
  version = add_u32 memory.version 1;
}

abbrev pub system_principal : Memory → Principal
system_principal memory = record {
  id = 0;
  organization_id = memory.organization_id;
  workspace_id = some memory.workspace_id;
  role = Role.owner;
  subject_kind = SubjectKind.agent;
}
