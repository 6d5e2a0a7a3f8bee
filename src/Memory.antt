-- ===== src/Memory.antt =====
-- Durable memories: the operations of `HangarStore` in packages/hangar-server/src/store.rs that
-- create, move, expire and read them. Each gives the new database, or the error of a transaction
-- that is rolled back.
pub mod Records
pub mod Expiry
pub mod Reading
pub mod Accept
pub mod History
pub mod Invariant
pub mod Outcomes
pub mod Lifecycle
use hangar_ia.Prelude.{
  ℕ, ◌-◌, ◌*◌, ◌+◌, String, Bool, true, false, not, ◌&&◌, Option, none, some, List, [], ◌∷◌, map,
  length, Outcome, ok, err, ensure, context, ◌>>=◌, ◌>>◌, add_u32, in_unit_interval, is_blank,
  is_some, is_none_or, is_some_and, or_option, then_some, ltb, leb, ◌==◌, nat_eq, string_eq,
  if◌then◌else◌,
}
use hangar_ia.Platform.{Uuid, Platform, Call}
use hangar_ia.Types.Access.{Principal, Role}
use hangar_ia.Types.Sharing.{SubjectKind}
use hangar_ia.Types.Memory.{
  Memory, NewMemory, MemoryTransition, MemoryLifecycle, MemoryRetention, proposed, validated,
  published, superseded, expired,
}
use hangar_ia.Types.Events.{number, text, uuid, object, field, end}
use hangar_ia.Database.{Database}
use hangar_ia.Scope.{in_scope}
use hangar_ia.Events.{
  lifecycle_text, provenance_value, path_of, insert_audit_event, insert_outbox_event,
}
use hangar_ia.Memory.Records.{
  max_memory_retention_ms, is_valid_transition, is_published, is_superseded, is_retrievable,
  ensure_retention, new_memory, check_new_memory, moved, is_open, is_due, due_keys, expire_memory,
  system_principal,
}

module _ (p : Platform) where
  open p.uuids use {Table, get, insert, rows}

  unfoldable pub create_memory : Call → NewMemory → Database p → Outcome (Memory × Database p)
  create_memory call new db = do
    check_new_memory (call.clock 0) new
    let memory = new_memory p call new
    let stored = record db { memories = insert memory.id memory db.memories }
    ok (
      memory,
      insert_outbox_event p (call.ids 1) (call.clock 1) "memory.proposed.v1"
          (path_of p "memories/" memory.id) memory.organization_id (some memory.workspace_id)
          (object (
            field "memory_id" (uuid memory.id) (
              field "version" (number memory.version)
                (field "provenance" (provenance_value memory.provenance) end))))
          stored,
    )

  -- What a transition to `superseded` asks of the memory that takes the place of this one.
  unfoldable pub check_replacement :
      ℕ → String → String → MemoryTransition → Memory → Database p → Outcome (Unit {0})
  check_replacement now organization_id workspace_id transition memory db = do
    replacement ← context transition.superseded_by "superseded memory requires superseded_by"
    ensure (not (replacement == memory.id)) "a memory cannot supersede itself"
    replacement_memory ← context (get replacement db.memories) "replacement memory not found"
    ensure
        (in_scope replacement_memory.organization_id replacement_memory.workspace_id organization_id
          workspace_id)
        "replacement memory must be in the same workspace"
    ensure (is_retrievable now replacement_memory)
        "replacement memory must be published and unexpired"
    ok tt

  -- The tests that a transition makes before it writes.
  unfoldable pub check_transition :
      Call → String → String → MemoryTransition → Memory → Database p → Outcome (Unit {0})
  check_transition call organization_id workspace_id transition memory db = do
    ensure (in_scope memory.organization_id memory.workspace_id organization_id workspace_id)
        "memory not found in this workspace"
    ensure (is_valid_transition memory.lifecycle transition.lifecycle)
        "invalid lifecycle transition"
    if is_superseded transition.lifecycle
        then check_replacement (call.clock 0) organization_id workspace_id transition memory db
        else ok tt
    ensure_retention (call.clock 1) transition.expires_at_unix_ms

  unfoldable pub transition_memory :
      Call
      → Uuid
      → String
      → String
      → MemoryTransition
      → Database p
      → Outcome (Option Memory × Database p)
  transition_memory call id organization_id workspace_id transition db = elim (get id db.memories) [
    | none ↦ ok (none, db)
    | some memory ↦ do
      check_transition call organization_id workspace_id transition memory db
      let memory' = moved (call.clock 2) transition memory
      let stored = record db { memories = insert id memory' db.memories }
      ok (
        some memory',
        insert_outbox_event p (call.ids 0) (call.clock 3) "memory.lifecycle_changed.v1"
            (path_of p "memories/" memory'.id) memory'.organization_id (some memory'.workspace_id)
            (object (
              field "memory_id" (uuid memory'.id) (
                field "lifecycle" (text (lifecycle_text memory'.lifecycle))
                  (field "version" (number memory'.version) end))))
            stored,
      )
  ]

  -- The second loop.
  unfoldable pub expire_keys : ℕ → List Uuid → Table Memory → Outcome (List Memory × Table Memory)
  expire_keys now [] table = ok ([], table)
  expire_keys now (key ∷ keys) table = do
    memory ← context (get key table) "memory disappeared while expiring"
    let memory' = expire_memory now memory
    done ← expire_keys now keys (insert key memory' table)
    ok (memory' ∷ done.0, done.1)

  -- The third loop: an audit event and an outbox event for each expired memory. The number counts
  -- the events so far.
  unfoldable pub record_expiries : Call → ℕ → List Memory → Database p → Database p
  record_expiries call n [] db = db
  record_expiries call n (memory ∷ rest) db = record_expiries call (n + 2) rest (
      insert_outbox_event p (call.ids (n + 1)) (call.clock (n + 2)) "memory.lifecycle_changed.v1"
        (path_of p "memories/" memory.id) memory.organization_id (some memory.workspace_id)
        (object (
          field "memory_id" (uuid memory.id) (
            field "lifecycle" (text (lifecycle_text memory.lifecycle)) (
              field "version" (number memory.version)
                (field "reason" (text "retention_expired") end)))))
        (insert_audit_event p (call.ids n) (call.clock (n + 1)) (system_principal memory)
          "memory.expired" (path_of p "memories/" memory.id) db))

  unfoldable pub expire_due_memories : Call → Database p → Outcome (ℕ × Database p)
  expire_due_memories call db = do
    let now = call.clock 0
    done ← expire_keys now (due_keys now (rows db.memories)) db.memories
    ok (length done.0, record_expiries call 0 done.0 (record db { memories = done.1 }))

  -- The expiry comes first and is kept, whatever the read finds.
  unfoldable pub get_memory :
      Call → Uuid → String → String → Database p → Outcome (Option Memory × Database p)
  get_memory call id organization_id workspace_id db = do
    swept ← expire_due_memories call db
    let found = get id swept.1.memories
    ok (
      elim found [
        | none ↦ none
        | some memory ↦
            then_some
              (in_scope memory.organization_id memory.workspace_id organization_id workspace_id)
              memory
      ],
      swept.1,
    )
