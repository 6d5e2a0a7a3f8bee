-- ===== src/Working/Session.antt =====
-- One working session: its owner, its size, and what appending an entry or writing the summary makes of
-- it (packages/hangar-server/src/store.rs).
use hangar_ia.Prelude.{
  ℕ, ◌*◌, String, Bool, ◌&&◌, Option, none, some, List, [], ◌∷◌, ◌++◌, length, Outcome, ok, ensure,
  add_u32, add_usize, sub_usize, ltb, leb, len, ◌==◌, nat_eq, ◌>>◌,
}
use hangar_ia.Platform.{Uuid, Platform, Call}
use hangar_ia.Types.Working.{
  WorkingSession, WorkingSessionSummary, WorkingMemoryEntry, NewWorkingMemoryEntry,
}
use hangar_ia.Scope.{in_scope}

abbrev pub max_working_sessions : ℕ
max_working_sessions = 1024

abbrev pub max_working_entries_per_session : ℕ
max_working_entries_per_session = 64

abbrev pub max_working_entry_bytes : ℕ
max_working_entry_bytes = 8 * 1024

abbrev pub max_working_session_bytes : ℕ
max_working_session_bytes = 64 * 1024

abbrev pub max_working_session_ttl_ms : ℕ
max_working_session_ttl_ms = 24 * 60 * 60 * 1000

abbrev pub default_working_session_ttl_ms : ℕ
default_working_session_ttl_ms = 30 * 60 * 1000

-- The scope and the author of a session.
abbrev pub is_owner : WorkingSession → String → String → Uuid → Bool
is_owner session organization_id workspace_id principal_id =
    in_scope session.organization_id session.workspace_id organization_id workspace_id
    && session.created_by == principal_id

unfoldable pub ensure_session_owner : WorkingSession → String → String → Uuid → Outcome (Unit {0})
ensure_session_owner session organization_id workspace_id principal_id =
    ensure (is_owner session organization_id workspace_id principal_id)
      "working session not found in this scope"

-- The sum of the lengths, in `usize`.
abbrev pub entry_bytes : List WorkingMemoryEntry → ℕ
entry_bytes [] = 0
entry_bytes (entry ∷ rest) = add_usize (len entry.content) (entry_bytes rest)

abbrev pub summary_bytes : Option WorkingSessionSummary → ℕ
summary_bytes none = 0
summary_bytes (some summary) = len summary.content

unfoldable pub session_content_bytes : WorkingSession → ℕ
session_content_bytes session =
    add_usize (entry_bytes session.entries) (summary_bytes session.summary)

-- `append_working_memory` on the session that the map holds.
unfoldable pub append_to_session :
    Platform
    → Call
    → String
    → String
    → Uuid
    → NewWorkingMemoryEntry
    → WorkingSession
    → Outcome (WorkingMemoryEntry × WorkingSession)
append_to_session p call organization_id workspace_id principal_id new session = do
  ensure_session_owner session organization_id workspace_id principal_id
  ensure (ltb (length session.entries) max_working_entries_per_session)
      "working memory entry capacity reached"
  let entry : WorkingMemoryEntry = record {
    id = call.ids 0;
    kind = new.kind;
    content = new.content;
    content_sha256 = p.digest new.content;
    created_by = new.created_by;
    created_at_unix_ms = call.clock 0;
  }
  ensure
      (leb (add_usize (session_content_bytes session) (len entry.content))
        max_working_session_bytes)
      "working session exceeds the 64 KiB limit"
  ok (
    entry,
    record session { entries = session.entries ++ entry ∷ []; updated_at_unix_ms = call.clock 0 },
  )

abbrev pub next_version : Option WorkingSessionSummary → ℕ
next_version none = 1
next_version (some summary) = add_u32 summary.version 1

-- `update_working_summary` on the session that the map holds.
unfoldable pub summarise_session :
    Platform → Call → String → String → Uuid → String → WorkingSession → Outcome WorkingSession
summarise_session p call organization_id workspace_id principal_id content session = do
  ensure_session_owner session organization_id workspace_id principal_id
  ensure
      (leb
        (add_usize (sub_usize (session_content_bytes session) (summary_bytes session.summary))
          (len content))
        max_working_session_bytes)
      "working session exceeds the 64 KiB limit"
  ok (record session {
    summary = some (record {
      content = content;
      content_sha256 = p.digest content;
      updated_by = principal_id;
      updated_at_unix_ms = call.clock 0;
      version = next_version session.summary;
    });
    updated_at_unix_ms = call.clock 0;
  })
