-- ===== src/Working.antt =====
-- Working memory: the private sessions of `HangarStore` in packages/hangar-server/src/store.rs. They
-- live in a hash map and not in the database, so what an operation has pruned stays pruned when the
-- operation then fails: an action gives its outcome and the store that it leaves.
mod Effects
pub mod Sessions
pub mod Session
pub mod Privacy
pub mod Invariant
pub mod Capacity
pub mod Bounds
pub use Effects.*
use hangar_ia.Prelude.{
  ℕ, String, Bool, not, ◌&&◌, Option, none, some, [], length, ok, err, ensure, add_u128, is_blank,
  unwrap_or, then_some, ltb, leb, len, ◌==◌, nat_eq, string_eq, if◌then◌else◌, Outcome,
}
use hangar_ia.Platform.{Uuid, Platform, Call}
use hangar_ia.Types.Working.{
  WorkingSession, WorkingMemoryEntry, NewWorkingSession, NewWorkingMemoryEntry, WorkingMemoryStore,
}
use hangar_ia.Scope.{ensure_scope}
use Sessions.{find_session, insert_session, retain_sessions}
use Session.{
  max_working_sessions, max_working_entry_bytes, max_working_session_ttl_ms,
  default_working_session_ttl_ms, is_owner, append_to_session, summarise_session,
}

unfoldable pub prune_expired_working_sessions : ℕ → WorkingMemoryStore → WorkingMemoryStore
prune_expired_working_sessions now store = record store {
  sessions = retain_sessions (λ session. ltb now session.expires_at_unix_ms) store.sessions;
}

unfoldable pub create_working_session : Call → NewWorkingSession → Action WorkingSession
create_working_session call new = do
  lift (ensure_scope new.organization_id new.workspace_id)
  modify (prune_expired_working_sessions (call.clock 0))
  count ← gets (λ store. length store.sessions)
  lift (ensure (ltb count max_working_sessions) "working session capacity reached")
  let ttl_ms = unwrap_or new.ttl_ms default_working_session_ttl_ms
  lift (ensure (ltb 0 ttl_ms) "session ttl_ms must be positive")
  lift (ensure (leb ttl_ms max_working_session_ttl_ms) "session ttl_ms cannot exceed 24 hours")
  let session : WorkingSession = record {
    id = call.ids 0;
    organization_id = new.organization_id;
    workspace_id = new.workspace_id;
    created_by = new.created_by;
    created_at_unix_ms = call.clock 0;
    updated_at_unix_ms = call.clock 0;
    expires_at_unix_ms = add_u128 (call.clock 0) ttl_ms;
    summary = none;
    entries = [];
  }
  modify (λ store. record store { sessions = insert_session session.id session store.sessions })
  pure session

unfoldable pub get_working_session :
    Call → Uuid → String → String → Uuid → Action (Option WorkingSession)
get_working_session call id organization_id workspace_id principal_id = do
  modify (prune_expired_working_sessions (call.clock 0))
  found ← gets (λ store. find_session id store.sessions)
  pure (elim found [
    | none ↦ none
    | some session ↦ then_some (is_owner session organization_id workspace_id principal_id) session
  ])

unfoldable pub append_working_memory :
    Platform
    → Call
    → Uuid
    → String
    → String
    → Uuid
    → NewWorkingMemoryEntry
    → Action (Option WorkingMemoryEntry)
append_working_memory p call session_id organization_id workspace_id principal_id new = do
  lift (ensure (not (is_blank new.content)) "working memory content cannot be empty")
  lift (
      ensure (leb (len new.content) max_working_entry_bytes)
        "working memory entry exceeds the 8 KiB limit")
  modify (prune_expired_working_sessions (call.clock 0))
  found ← gets (λ store. find_session session_id store.sessions)
  elim found [
    | none ↦ pure none
    | some session ↦ do
      appended ←
          lift (append_to_session p call organization_id workspace_id principal_id new session)
      modify
          (λ store. record store { sessions = insert_session session_id appended.1 store.sessions })
      pure (some appended.0)
  ]

unfoldable pub update_working_summary :
    Platform → Call → Uuid → String → String → Uuid → String → Action (Option WorkingSession)
update_working_summary p call session_id organization_id workspace_id principal_id content = do
  lift (ensure (not (is_blank content)) "working memory summary cannot be empty")
  lift (
      ensure (leb (len content) max_working_entry_bytes)
        "working memory summary exceeds the 8 KiB limit")
  modify (prune_expired_working_sessions (call.clock 0))
  found ← gets (λ store. find_session session_id store.sessions)
  elim found [
    | none ↦ pure none
    | some session ↦ do
      session' ←
          lift (summarise_session p call organization_id workspace_id principal_id content session)
      modify
          (λ store. record store { sessions = insert_session session_id session' store.sessions })
      pure (some session')
  ]
