-- ===== src/Sharing.antt =====
-- The grants of packages/hangar-server/src/sharing.rs: whom an audience permits, the review of a
-- grant, and when a grant is active.
pub mod Access
use Prim.Native.String.{◌++◌ as append}
use hangar_ia.Prelude.{
  ℕ, String, Bool, true, false, not, ◌&&◌, is_none_or, ltb, is_blank, ◌==◌, nat_eq, string_eq,
}
use hangar_ia.Platform.{Uuid}
use hangar_ia.Types.Sharing.{
  SubjectKind, ShareAudience, ShareReviewState, MemoryShare, subject_eq, review_eq,
}

unfoldable pub validates : ShareAudience → Bool
validates (ShareAudience.workspace workspace_id) = not (is_blank workspace_id)
validates _ = true

unfoldable pub permits : ShareAudience → String → Uuid → SubjectKind → Bool
permits ShareAudience.organization request_workspace_id subject_id subject_kind = true
permits (ShareAudience.workspace workspace_id) request_workspace_id subject_id subject_kind =
    workspace_id == request_workspace_id
permits (ShareAudience.agent target) request_workspace_id subject_id subject_kind =
    subject_kind == SubjectKind.agent && target == subject_id
permits (ShareAudience.user target) request_workspace_id subject_id subject_kind =
    subject_kind == SubjectKind.user && target == subject_id

-- The first argument is the text of a uuid.
unfoldable pub stable_key : (Uuid → String) → ShareAudience → String
stable_key uuid_text ShareAudience.organization = "organization"
stable_key uuid_text (ShareAudience.workspace workspace_id) = append "workspace:" workspace_id
stable_key uuid_text (ShareAudience.agent subject_id) = append "agent:" (uuid_text subject_id)
stable_key uuid_text (ShareAudience.user subject_id) = append "user:" (uuid_text subject_id)

unfoldable pub can_transition_to : ShareReviewState → ShareReviewState → Bool
can_transition_to ShareReviewState.pending ShareReviewState.approved = true
can_transition_to ShareReviewState.pending ShareReviewState.rejected = true
can_transition_to ShareReviewState.pending ShareReviewState.revoked = true
can_transition_to ShareReviewState.approved ShareReviewState.revoked = true
can_transition_to _ _ = false

unfoldable pub is_active_for : MemoryShare → String → Uuid → SubjectKind → ℕ → Bool
unfolding permits
is_active_for share request_workspace_id subject_id subject_kind now_unix_ms =
    share.state == ShareReviewState.approved
    && (is_none_or (λ expires_at. ltb now_unix_ms expires_at) share.expires_at_unix_ms
        && permits share.audience request_workspace_id subject_id subject_kind)
