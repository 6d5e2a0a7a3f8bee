-- ===== src/Shares.antt =====
-- Grants of a memory to an audience: `propose_memory_share` and `review_memory_share` of
-- packages/hangar-server/src/store.rs.
pub mod Outcomes
pub mod History
pub mod Steps
pub mod Twins
pub mod Conditions
pub mod Admission
pub mod Decisions
use hangar_ia.Prelude.{
  ℕ, ◌-◌, String, Bool, true, false, not, ◌&&◌, ◌||◌, Option, none, some, List, [], ◌∷◌, Outcome,
  ok, ensure, context, ◌>>=◌, ◌>>◌, add_u32, any, is_blank, is_none_or, len, leb, ltb, ◌==◌, nat_eq,
  string_eq, if◌then◌else◌,
}
use hangar_ia.Platform.{Uuid, Platform, Call}
use hangar_ia.Types.Sharing.{ShareAudience, ShareReviewState, MemoryShare, review_eq}
use hangar_ia.Types.Memory.{Memory}
use hangar_ia.Types.Events.{number, text, uuid, object, field, end}
use hangar_ia.Database.{Database}
use hangar_ia.Scope.{in_scope, ensure_scope}
use hangar_ia.Sharing.{validates, stable_key, can_transition_to}
use hangar_ia.Memory.Records.{is_retrievable, max_memory_retention_ms}
use hangar_ia.Events.{review_text, audience_value, path_of, insert_outbox_event}

-- The tests of a new expiry.
unfoldable pub ensure_share_expiry : ℕ → Option ℕ → Outcome (Unit {0})
ensure_share_expiry now none = ok tt
ensure_share_expiry now (some expires_at) = do
  ensure (ltb now expires_at) "share expiry must be in the future"
  ensure (leb (expires_at - now) max_memory_retention_ms) "share expiry cannot exceed one year"
  ok tt

abbrev pub is_open_grant : ShareReviewState → Bool
is_open_grant ShareReviewState.pending = true
is_open_grant ShareReviewState.approved = true
is_open_grant _ = false

-- `review_note.filter(|note| !note.trim().is_empty())`
abbrev pub keep_note : Option String → Option String
keep_note none = none
keep_note (some note) = if is_blank note then none else some note

-- The grant that a proposal stores, of a memory's version.
unfoldable pub new_share :
    Call → String → String → Uuid → ShareAudience → Uuid → Option ℕ → ℕ → MemoryShare
new_share call organization_id source_workspace_id memory_id audience proposed_by expires_at
      version =
    record {
      id = call.ids 0;
      organization_id = organization_id;
      source_workspace_id = source_workspace_id;
      memory_id = memory_id;
      audience = audience;
      state = ShareReviewState.pending;
      proposed_by = proposed_by;
      reviewed_by = none;
      review_note = none;
      source_memory_version = version;
      expires_at_unix_ms = expires_at;
      created_at_unix_ms = call.clock 0;
      updated_at_unix_ms = call.clock 0;
      version = 1;
    }

-- What a review makes of a grant.
unfoldable pub reviewed : ℕ → ShareReviewState → Uuid → Option String → MemoryShare → MemoryShare
reviewed now state reviewed_by review_note share = record share {
  state = state;
  reviewed_by = some reviewed_by;
  review_note = keep_note review_note;
  updated_at_unix_ms = now;
  version = add_u32 share.version 1;
}

module _ (p : Platform) where
  open p.uuids use {Table, get, insert, rows}

  -- A row that stands in the way of a new grant.
  unfoldable pub is_duplicate : String → String → Uuid → ShareAudience → Uuid × MemoryShare → Bool
  is_duplicate organization_id source_workspace_id memory_id audience (key, share) =
      in_scope share.organization_id share.source_workspace_id organization_id source_workspace_id
      && (share.memory_id == memory_id
          && (stable_key p.uuid_text share.audience == stable_key p.uuid_text audience
              && is_open_grant share.state))

  -- The tests of a proposal, with the memory that they find.
  unfoldable pub check_proposal :
      Call → String → String → Uuid → ShareAudience → Option ℕ → Database p → Outcome Memory
  check_proposal call organization_id source_workspace_id memory_id audience expires_at db = do
    ensure_scope organization_id source_workspace_id
    ensure (validates audience) "share audience is invalid"
    ensure_share_expiry (call.clock 0) expires_at
    memory ← context (get memory_id db.memories) "memory not found in source workspace"
    ensure (in_scope memory.organization_id memory.workspace_id organization_id source_workspace_id)
        "memory not found in source workspace"
    ensure (is_retrievable (call.clock 1) memory)
        "only published and unexpired memory may be shared"
    ensure
        (not (
          any (is_duplicate organization_id source_workspace_id memory_id audience)
            (rows db.memory_shares)))
        "a pending or approved grant already exists for this memory audience"
    ok memory

  unfoldable pub propose_memory_share :
      Call
      → String
      → String
      → Uuid
      → ShareAudience
      → Uuid
      → Option ℕ
      → Database p
      → Outcome (MemoryShare × Database p)
  propose_memory_share call organization_id source_workspace_id memory_id audience proposed_by
        expires_at db =
      do
        memory ←
            check_proposal call organization_id source_workspace_id memory_id audience expires_at db
        let share =
            new_share call organization_id source_workspace_id memory_id audience proposed_by
              expires_at memory.version
        ok (
          share,
          insert_outbox_event p (call.ids 1) (call.clock 2) "memory.share_proposed.v1"
              (path_of p "memory-shares/" share.id) organization_id (some source_workspace_id)
              (object (
                field "share_id" (uuid share.id) (
                  field "memory_id" (uuid memory_id) (
                    field "audience" (audience_value share.audience)
                      (field "version" (number share.version) end)))))
              (record db { memory_shares = insert share.id share db.memory_shares }),
        )

  -- An approval tests the source memory once more.
  unfoldable pub check_approval :
      ℕ → String → String → MemoryShare → Database p → Outcome (Unit {0})
  check_approval now organization_id source_workspace_id share db = do
    memory ← context (get share.memory_id db.memories) "source memory no longer exists"
    ensure
        (in_scope memory.organization_id memory.workspace_id organization_id source_workspace_id
          && is_retrievable now memory)
        "only published and unexpired memory may be approved for sharing"
    ok tt

  -- The tests of a review, once the grant is found.
  unfoldable pub check_review :
      Call → String → String → ShareReviewState → MemoryShare → Database p → Outcome (Unit {0})
  check_review call organization_id source_workspace_id state share db = do
    ensure
        (in_scope share.organization_id share.source_workspace_id organization_id
          source_workspace_id)
        "memory share not found in source workspace"
    ensure (can_transition_to share.state state) "invalid memory share review transition"
    if state == ShareReviewState.approved
        then check_approval (call.clock 0) organization_id source_workspace_id share db
        else ok tt

  unfoldable pub review_memory_share :
      Call
      → Uuid
      → String
      → String
      → ShareReviewState
      → Uuid
      → Option String
      → Database p
      → Outcome (Option MemoryShare × Database p)
  review_memory_share call id organization_id source_workspace_id state reviewed_by review_note db =
      do
        ensure_scope organization_id source_workspace_id
        ensure (is_none_or (λ note. leb (len note) 1024) review_note)
            "review note exceeds the 1 KiB limit"
        elim (get id db.memory_shares) [
          | none ↦ ok (none, db)
          | some share ↦ do
            check_review call organization_id source_workspace_id state share db
            let share' = reviewed (call.clock 1) state reviewed_by review_note share
            ok (
              some share',
              insert_outbox_event p (call.ids 0) (call.clock 2) "memory.share_reviewed.v1"
                  (path_of p "memory-shares/" share'.id) organization_id (some source_workspace_id)
                  (object (
                    field "share_id" (uuid share'.id) (
                      field "memory_id" (uuid share'.memory_id) (
                        field "state" (text (review_text share'.state))
                          (field "version" (number share'.version) end)))))
                  (record db { memory_shares = insert id share' db.memory_shares }),
            )
        ]
