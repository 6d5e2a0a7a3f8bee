-- ===== src/Promotion/Limited.antt =====
-- `promote_working_memory_with_limits` of packages/hangar-server/src/store.rs: a promotion under the
-- quotas of the workspace.
pub mod Bounds
use hangar_ia.Prelude.{
  ℕ, String, len, Option, none, some, find, if◌then◌else◌, Outcome, ok, err, ◌==◌, nat_eq,
}
use hangar_ia.Platform.{Uuid, Platform, Call, after_clock}
use hangar_ia.Types.Memory.{Memory}
use hangar_ia.Types.Working.{WorkingSession, WorkingMemoryEntry, WorkingMemoryStore}
use hangar_ia.Types.Quota.{WorkspaceLimits}
use hangar_ia.Store.{HangarStore}
use hangar_ia.Working.{prune_expired_working_sessions}
use hangar_ia.Working.Sessions.{find_session}
use hangar_ia.Working.Session.{is_owner}
use hangar_ia.Quotas.{enforce_memory_limits}
use hangar_ia.Promotion.{Promotion, promote_working_memory}

abbrev pub entry_size : Option WorkingMemoryEntry → Option ℕ
entry_size none = none
entry_size (some entry) = some (len entry.content)

-- `content_bytes`: the size of the entry, if the session is the one of the caller and holds it
abbrev pub content_bytes_of : Promotion → Option WorkingSession → Option ℕ
content_bytes_of r none = none
content_bytes_of r (some session) =
    if is_owner session r.organization_id r.workspace_id r.principal_id
    then entry_size (find (λ (entry : WorkingMemoryEntry). entry.id == r.entry_id) session.entries)
    else none

unfoldable pub promote_working_memory_with_limits :
    (p : Platform)
    → Call
    → Promotion
    → WorkspaceLimits
    → HangarStore p
    → Outcome (Option Memory) × HangarStore p
promote_working_memory_with_limits p call r limits store =
    let pruned = record store {
      working_memory = prune_expired_working_sessions (call.clock 0) store.working_memory;
    } in
    elim (content_bytes_of r (find_session r.session_id pruned.working_memory.sessions)) [
      | none ↦ (ok none, pruned)
      | some content_bytes ↦
          elim (enforce_memory_limits p r.organization_id r.workspace_id content_bytes limits
            pruned.database) [
              | err message ↦ (err message, pruned)
              | ok allowed ↦ promote_working_memory p (after_clock call) r pruned
            ]
    ]
