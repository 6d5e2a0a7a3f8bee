-- ===== src/Tests/Sessions.antt =====
-- Runs of the operations on working memory, and of a promotion.
use hangar_ia.Prelude.{
  ◌≤◌, ◌+◌, ◌≡◌, ◌≢◌, refl, none, some, [], ◌∷◌, ok, arith, is_blank, is_whitespace,
}
use hangar_ia.Platform.{Uuid}
use hangar_ia.Platform.Sample.{sample, call_at}
use hangar_ia.Types.Memory.{Memory}
use hangar_ia.Types.Working.{
  WorkingMemoryKind, WorkingSession, NewWorkingSession, WorkingMemoryEntry, NewWorkingMemoryEntry,
  WorkingMemoryStore,
}
use hangar_ia.Store.{HangarStore}
use hangar_ia.Scope.{ensure_scope}
use hangar_ia.Events.{insert_outbox_event}
use hangar_ia.Memory.{create_memory}
use hangar_ia.Memory.Records.{check_new_memory, ensure_retention, new_memory}
use hangar_ia.Working.{
  create_working_session, get_working_session, append_working_memory,
  prune_expired_working_sessions,
}
use hangar_ia.Working.Session.{append_to_session, ensure_session_owner, session_content_bytes}
use hangar_ia.Working.Capacity.{HasCapacity}
use hangar_ia.Working.Invariant.{WorkingReach, here, next, opens, appends, WorkingReach-HasCapacity}
use hangar_ia.Working.Privacy.{IsOwnLive, get_working_session-IsOwnLive}
use hangar_ia.Promotion.{Promotion, promoted, promote_entry, promote_working_memory}
use hangar_ia.Promotion.Laws.{IsPromoted, promote-IsPromoted}
use hangar_ia.Promotion.Limited.{promote_working_memory_with_limits}
use hangar_ia.Promotion.Limited.Bounds.{promote_working_memory_with_limits-le}
use hangar_ia.Quotas.{enforce_memory_limits, workspace_usage, ingestion_bytes_from, sum_usize}
use hangar_ia.Quotas.Memories.{memory_count, memory_bytes}
use hangar_ia.Tests.Data.{no_rows, small_limits}

abbrev no_sessions : WorkingMemoryStore
no_sessions = record { sessions = [] }

abbrev a_session : NewWorkingSession
a_session = record {
  organization_id = "acme";
  workspace_id = "lab";
  created_by = 7;
  ttl_ms = some 1000;
}

abbrev a_note : NewWorkingMemoryEntry
a_note = record { kind = WorkingMemoryKind.note; content = "ice floats"; created_by = 7 }

abbrev opened : WorkingMemoryStore
opened = (create_working_session (call_at 100 1) a_session no_sessions).1

abbrev noted : WorkingMemoryStore
noted = (append_working_memory sample (call_at 200 5) 1 "acme" "lab" 7 a_note opened).1

no_sessions-HasCapacity : HasCapacity no_sessions
no_sessions-HasCapacity = record { count = omega arith; bounded = tt }

history : WorkingReach sample no_sessions noted
history =
    next (next here (opens (call_at 100 1) a_session refl))
      (appends (call_at 200 5) 1 "acme" "lab" 7 a_note refl)

WorkingReach-HasCapacity_example : HasCapacity noted
WorkingReach-HasCapacity_example = WorkingReach-HasCapacity no_sessions-HasCapacity history

-- The session with its entry, written out.
abbrev the_entry : WorkingMemoryEntry
the_entry = record {
  id = 5;
  kind = WorkingMemoryKind.note;
  content = "ice floats";
  content_sha256 = "ice floats";
  created_by = 7;
  created_at_unix_ms = 200;
}

abbrev the_session : WorkingSession
the_session = record {
  id = 1;
  organization_id = "acme";
  workspace_id = "lab";
  created_by = 7;
  created_at_unix_ms = 100;
  updated_at_unix_ms = 200;
  expires_at_unix_ms = 1100;
  summary = none;
  entries = the_entry ∷ [];
}

abbrev one_session : WorkingMemoryStore
one_session = record { sessions = (1, the_session) ∷ [] }

noted-is : noted ≡ one_session
unfolding create_working_session ensure_scope is_blank is_whitespace prune_expired_working_sessions
    append_working_memory append_to_session ensure_session_owner session_content_bytes
noted-is = refl

get_working_session-IsOwnLive_example : IsOwnLive 300 "acme" "lab" 7 the_session
unfolding get_working_session prune_expired_working_sessions
get_working_session-IsOwnLive_example =
    get_working_session-IsOwnLive (call_at 300 0) 1 "acme" "lab" 7 one_session the_session refl

apart : ◌≢◌ {A = Uuid} 2 1
apart = omega arith

abbrev a_promotion : Promotion
a_promotion = record {
  session_id = 1;
  entry_id = 5;
  organization_id = "acme";
  workspace_id = "lab";
  principal_id = 7;
  source = none;
  confidence = 0x3F000000;
  expires_at_unix_ms = none;
}

abbrev a_store : HangarStore sample
a_store = record { database = no_rows; working_memory = one_session }

abbrev the_memory : Memory
the_memory = new_memory sample (call_at 300 20) (promoted sample a_promotion the_session the_entry)

abbrev after_promotion : HangarStore sample
after_promotion = (promote_working_memory sample (call_at 300 20) a_promotion a_store).1

a_promotion-ok :
    promote_working_memory sample (call_at 300 20) a_promotion a_store
    ≡ (ok (some the_memory), after_promotion)
unfolding promote_working_memory promote_entry promoted create_memory check_new_memory
    ensure_retention new_memory is_blank is_whitespace prune_expired_working_sessions
    ensure_session_owner insert_outbox_event
a_promotion-ok = refl

promote-IsPromoted_example : IsPromoted sample 300 a_promotion a_store the_memory after_promotion
promote-IsPromoted_example =
    promote-IsPromoted sample (call_at 300 20) a_promotion a_store after_promotion the_memory
      a_promotion-ok

abbrev after_limited : HangarStore sample
after_limited =
    (promote_working_memory_with_limits sample (call_at 300 20) a_promotion small_limits a_store).1

limited-ok :
    promote_working_memory_with_limits sample (call_at 300 20) a_promotion small_limits a_store
    ≡ (ok (some the_memory), after_limited)
unfolding promote_working_memory_with_limits enforce_memory_limits workspace_usage
    ingestion_bytes_from sum_usize ensure_scope promote_working_memory promote_entry promoted
    create_memory check_new_memory ensure_retention new_memory is_blank is_whitespace
    prune_expired_working_sessions ensure_session_owner insert_outbox_event
limited-ok = refl

promote_working_memory_with_limits-le_example :
    (memory_count sample "acme" "lab" after_limited.database ≤ 2)
    × (memory_bytes sample "acme" "lab" after_limited.database ≤ 100)
    × (memory_count sample "acme" "lab" after_limited.database
        ≡ memory_count sample "acme" "lab" no_rows + 1)
promote_working_memory_with_limits-le_example =
    promote_working_memory_with_limits-le sample (call_at 300 20) a_promotion small_limits a_store
      after_limited the_memory (refl, tt) refl (omega arith) (omega arith) limited-ok
