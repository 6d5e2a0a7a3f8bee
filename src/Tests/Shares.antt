-- ===== src/Tests/Shares.antt =====
-- Runs of the operations on grants.
use hangar_ia.Prelude.{
  ◌≡◌, ◌↔◌, ◌⊎◌, refl, true, none, some, String, Option, ok, err, is_blank, is_whitespace,
}
use hangar_ia.Platform.Sample.{sample, call_at}
use hangar_ia.Types.Memory.{Memory, MemoryLifecycle}
use hangar_ia.Types.Sharing.{SubjectKind, ShareAudience, ShareReviewState, MemoryShare}
use hangar_ia.Database.{Database}
use hangar_ia.Scope.{ensure_scope}
use hangar_ia.Events.{insert_outbox_event}
use hangar_ia.Memory.Records.{new_memory, moved, is_retrievable}
use hangar_ia.Sharing.{is_active_for, validates, can_transition_to}
use hangar_ia.Sharing.Access.{IsActive, is_active_for_iff, Reviews, none_yet, review}
use hangar_ia.Shares.{
  propose_memory_share, review_memory_share, new_share, reviewed, check_proposal, check_review,
  check_approval, ensure_share_expiry, is_duplicate,
}
use hangar_ia.Shares.Admission.{MayPropose, IsPending, propose_memory_share_lem}
use hangar_ia.Shares.Decisions.{MayReview, AfterReview, review_memory_share_lem}
use hangar_ia.Shares.Steps.{ShareReach, start, next, proposed, reviewing, elsewhere}
use hangar_ia.Shares.Twins.{ShareReach-one}
use hangar_ia.Shares.History.{GrantKept, ShareReach-Kept}
use hangar_ia.Tests.Data.{database_of, no_rows, a_fact, to}

-- A published memory.
abbrev shared_fact : Memory
shared_fact = moved 20 (to MemoryLifecycle.published) (new_memory sample (call_at 10 1) a_fact)

abbrev with_fact : Database sample
with_fact = record no_rows { memories = sample.uuids.insert 1 shared_fact no_rows.memories }

abbrev pending_share : MemoryShare
pending_share = new_share (call_at 100 50) "acme" "lab" 1 (ShareAudience.workspace "shop") 7 none 2

abbrev with_pending : Database sample
with_pending = database_of (
    propose_memory_share sample (call_at 100 50) "acme" "lab" 1 (ShareAudience.workspace "shop") 7
      none with_fact)

abbrev approved_share : MemoryShare
approved_share = reviewed 200 ShareReviewState.approved 8 none pending_share

abbrev with_approved : Database sample
with_approved = database_of (
    review_memory_share sample (call_at 200 60) 50 "acme" "lab" ShareReviewState.approved 8 none
      with_pending)

share-proposed :
    propose_memory_share sample
      (call_at 100 50)
      "acme"
      "lab"
      1
      (ShareAudience.workspace "shop")
      7
      none
      with_fact
    ≡ ok (pending_share, with_pending)
unfolding propose_memory_share check_proposal ensure_scope validates ensure_share_expiry is_blank
    is_whitespace is_retrievable moved new_memory is_duplicate insert_outbox_event new_share
share-proposed = refl

share-approved :
    review_memory_share sample
      (call_at 200 60)
      50
      "acme"
      "lab"
      ShareReviewState.approved
      8
      none
      with_pending
    ≡ ok (some approved_share, with_approved)
unfolding propose_memory_share check_proposal ensure_scope validates ensure_share_expiry is_blank
    is_whitespace is_retrievable moved new_memory is_duplicate insert_outbox_event new_share
    review_memory_share check_review check_approval can_transition_to reviewed
share-approved = refl

-- The memory is stored by other operations.
history : ShareReach sample no_rows with_approved
history =
    next
      (next (next start (elsewhere {db' = with_fact} refl)) (
        proposed (call_at 100 50) "acme" "lab" 1 (ShareAudience.workspace "shop") 7 none
          pending_share refl share-proposed))
      (reviewing (call_at 200 60) 50 "acme" "lab" ShareReviewState.approved 8 none
        (some approved_share) share-approved)

later : ShareReach sample with_pending with_approved
later = next start (
    reviewing (call_at 200 60) 50 "acme" "lab" ShareReviewState.approved 8 none
      (some approved_share) share-approved)

ShareReach-one_example : pending_share.id ≡ approved_share.id
unfolding propose_memory_share check_proposal ensure_scope validates ensure_share_expiry is_blank
    is_whitespace is_retrievable moved new_memory is_duplicate insert_outbox_event new_share
    review_memory_share check_review check_approval can_transition_to reviewed
ShareReach-one_example =
    ShareReach-one sample pending_share.id approved_share.id approved_share approved_share history
      refl refl (record { organization = refl; workspace = refl; memory = refl; audience = refl })
      refl refl

ShareReach-Kept_example : GrantKept sample 50 pending_share with_approved
unfolding propose_memory_share check_proposal ensure_scope validates ensure_share_expiry is_blank
    is_whitespace is_retrievable moved new_memory is_duplicate insert_outbox_event new_share
ShareReach-Kept_example = ShareReach-Kept sample 50 pending_share refl later

propose_memory_share_lem_example :
    (MayPropose sample
        (call_at 100 50)
        "acme"
        "lab"
        1
        (ShareAudience.workspace "shop")
        none
        with_fact
      × ((share : MemoryShare) × (db' : Database sample) × (propose_memory_share sample
              (call_at 100 50)
              "acme"
              "lab"
              1
              (ShareAudience.workspace "shop")
              7
              none
              with_fact
            ≡ ok (share, db'))
          × IsPending sample
              (call_at 100 50)
              "acme"
              "lab"
              1
              (ShareAudience.workspace "shop")
              7
              none
              with_fact
              share
              db'))
    ⊎ ((¬ MayPropose sample
          (call_at 100 50)
          "acme"
          "lab"
          1
          (ShareAudience.workspace "shop")
          none
          with_fact)
        × ((message : String) × (propose_memory_share sample
                (call_at 100 50)
                "acme"
                "lab"
                1
                (ShareAudience.workspace "shop")
                7
                none
                with_fact
              ≡ err message)))
propose_memory_share_lem_example =
    propose_memory_share_lem sample (call_at 100 50) "acme" "lab" 1 (ShareAudience.workspace "shop")
      7 none with_fact

review_memory_share_lem_example :
    (MayReview sample (call_at 200 60) 50 "acme" "lab" ShareReviewState.approved none with_pending
      × ((r : Option MemoryShare) × (db' : Database sample) × (review_memory_share sample
              (call_at 200 60)
              50
              "acme"
              "lab"
              ShareReviewState.approved
              8
              none
              with_pending
            ≡ ok (r, db'))
          × AfterReview sample
              (call_at 200 60)
              50
              ShareReviewState.approved
              8
              none
              (sample.uuids.get 50 with_pending.memory_shares)
              r
              with_pending
              db'))
    ⊎ ((¬ MayReview sample
          (call_at 200 60)
          50
          "acme"
          "lab"
          ShareReviewState.approved
          none
          with_pending)
        × ((message : String) × (review_memory_share sample
                (call_at 200 60)
                50
                "acme"
                "lab"
                ShareReviewState.approved
                8
                none
                with_pending
              ≡ err message)))
review_memory_share_lem_example =
    review_memory_share_lem sample (call_at 200 60) 50 "acme" "lab" ShareReviewState.approved 8 none
      with_pending

is_active_for_iff_example :
    (is_active_for approved_share "shop" 9 SubjectKind.agent 300 ≡ true)
    ↔ IsActive approved_share "shop" 9 SubjectKind.agent 300
is_active_for_iff_example = is_active_for_iff approved_share "shop" 9 SubjectKind.agent 300

two-Reviews : Reviews 2 ShareReviewState.pending ShareReviewState.revoked
unfolding can_transition_to
two-Reviews =
    review {b = ShareReviewState.approved} (review (none_yet ShareReviewState.pending) refl) refl
