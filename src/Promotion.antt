-- ===== src/Promotion.antt =====
-- `promote_working_memory` of packages/hangar-server/src/store.rs: an entry of a working session
-- becomes a proposed durable memory. The pruning of the sessions is kept, also when the promotion
-- fails.
pub mod Laws
pub mod Limited
use Prim.Native.String.{◌++◌ as append}
use hangar_ia.Prelude.{
  ℕ, String, Option, none, some, find, Outcome, ok, err, context, or_option, ◌==◌, nat_eq, ◌>>=◌,
  ◌>>◌,
}
use hangar_ia.Platform.{Uuid, Platform, Call, after_clock}
use hangar_ia.Types.Memory.{Memory, NewMemory, session_promotion}
use hangar_ia.Types.Working.{WorkingSession, WorkingMemoryEntry}
use hangar_ia.Database.{Database}
use hangar_ia.Store.{HangarStore}
use hangar_ia.Memory.{create_memory}
use hangar_ia.Working.{prune_expired_working_sessions}
use hangar_ia.Working.Sessions.{find_session}
use hangar_ia.Working.Session.{ensure_session_owner}

-- What the caller asks for.
pub record Promotion : Type 0 where
  pub session_id : Uuid
  pub entry_id : Uuid
  pub organization_id : String
  pub workspace_id : String
  pub principal_id : Uuid
  pub source : Option String
  pub confidence : ℕ
  pub expires_at_unix_ms : Option ℕ

module _ (p : Platform) where
  -- `format!("session://{session_id}/entries/{entry_id}")`
  abbrev pub entry_path : Promotion → String
  entry_path r =
      append "session://"
        (append (p.uuid_text r.session_id) (append "/entries/" (p.uuid_text r.entry_id)))

  unfoldable pub promoted : Promotion → WorkingSession → WorkingMemoryEntry → NewMemory
  promoted r session entry = record {
    organization_id = r.organization_id;
    workspace_id = r.workspace_id;
    content = entry.content;
    source = or_option r.source (some (entry_path r));
    created_by = r.principal_id;
    confidence = r.confidence;
    expires_at_unix_ms = r.expires_at_unix_ms;
    provenance = session_promotion r.session_id r.entry_id entry.content_sha256 session.created_by;
  }

  unfoldable pub promote_entry :
      Call → Promotion → WorkingSession → Database p → Outcome (Memory × Database p)
  promote_entry call r session db = do
    ensure_session_owner session r.organization_id r.workspace_id r.principal_id
    entry ←
        context (find (λ (entry : WorkingMemoryEntry). entry.id == r.entry_id) session.entries)
          "working memory entry not found"
    create_memory p call (promoted r session entry) db

  abbrev settle :
      HangarStore p → Outcome (Memory × Database p) → Outcome (Option Memory) × HangarStore p
  settle store (ok (memory, db)) = (ok (some memory), record store { database = db })
  settle store (err message) = (err message, store)

  unfoldable pub promote_working_memory :
      Call → Promotion → HangarStore p → Outcome (Option Memory) × HangarStore p
  promote_working_memory call r store =
      let pruned = record store {
        working_memory = prune_expired_working_sessions (call.clock 0) store.working_memory;
      } in
      elim (find_session r.session_id pruned.working_memory.sessions) [
        | none ↦ (ok none, pruned)
        | some session ↦ settle pruned (promote_entry (after_clock call) r session pruned.database)
      ]
