-- ===== src/Events.antt =====
-- `insert_audit_event`, `insert_outbox_event` and the texts that events carry
-- (packages/hangar-server/src/store.rs). The caller gives the uuid and the time that the event draws.
use Prim.Native.String.{◌++◌ as append}
use hangar_ia.Prelude.{ℕ, String, Option}
use hangar_ia.Platform.{Uuid, Platform}
use hangar_ia.Types.Access.{Principal}
use hangar_ia.Types.Sharing.{ShareAudience, ShareReviewState}
use hangar_ia.Types.Memory.{MemoryLifecycle, MemoryProvenance, direct, session_promotion}
use hangar_ia.Types.Ingestion.{IngestionStatus}
use hangar_ia.Types.Catalog.{SkillLifecycle, PolicyLifecycle}
use hangar_ia.Types.Events.{Value, text, uuid, object, end, field}
use hangar_ia.Database.{Database}

abbrev pub lifecycle_text : MemoryLifecycle → String
lifecycle_text MemoryLifecycle.proposed = "proposed"
lifecycle_text MemoryLifecycle.validated = "validated"
lifecycle_text MemoryLifecycle.published = "published"
lifecycle_text MemoryLifecycle.superseded = "superseded"
lifecycle_text MemoryLifecycle.expired = "expired"

abbrev pub skill_text : SkillLifecycle → String
skill_text SkillLifecycle.draft = "draft"
skill_text SkillLifecycle.published = "published"
skill_text SkillLifecycle.revoked = "revoked"

abbrev pub policy_text : PolicyLifecycle → String
policy_text PolicyLifecycle.draft = "draft"
policy_text PolicyLifecycle.enforced = "enforced"
policy_text PolicyLifecycle.retired = "retired"

abbrev pub review_text : ShareReviewState → String
review_text ShareReviewState.pending = "pending"
review_text ShareReviewState.approved = "approved"
review_text ShareReviewState.rejected = "rejected"
review_text ShareReviewState.revoked = "revoked"

abbrev pub status_text : IngestionStatus → String
status_text IngestionStatus.queued = "queued"
status_text IngestionStatus.processing = "processing"
status_text IngestionStatus.succeeded = "succeeded"
status_text IngestionStatus.retry_wait = "retry_wait"
status_text IngestionStatus.dead_letter = "dead_letter"

abbrev pub provenance_value : MemoryProvenance → Value
provenance_value direct = object (field "kind" (text "direct") end)
provenance_value (session_promotion session_id entry_id entry_sha256 session_created_by) = object (
    field "kind" (text "session_promotion") (
      field "session_id" (uuid session_id) (
        field "entry_id" (uuid entry_id) (
          field "entry_sha256" (text entry_sha256)
            (field "session_created_by" (uuid session_created_by) end)))))

abbrev pub audience_value : ShareAudience → Value
audience_value ShareAudience.organization = object (field "kind" (text "organization") end)
audience_value (ShareAudience.workspace workspace_id) =
    object (field "kind" (text "workspace") (field "workspace_id" (text workspace_id) end))
audience_value (ShareAudience.agent subject_id) =
    object (field "kind" (text "agent") (field "subject_id" (uuid subject_id) end))
audience_value (ShareAudience.user subject_id) =
    object (field "kind" (text "user") (field "subject_id" (uuid subject_id) end))

module _ (p : Platform) where
  -- `format!("memories/{}", id)`, and so for the other kinds
  abbrev pub path_of : String → Uuid → String
  path_of prefix id = append prefix (p.uuid_text id)

  unfoldable pub insert_audit_event :
      Uuid → ℕ → Principal → String → String → Database p → Database p
  insert_audit_event id now principal action resource db = record db {
    audit_events =
        p.uuids.insert id
          (record {
            id = id;
            principal_id = principal.id;
            organization_id = principal.organization_id;
            workspace_id = principal.workspace_id;
            action = action;
            resource = resource;
            created_at_unix_ms = now;
          })
          db.audit_events;
  }

  unfoldable pub insert_outbox_event :
      Uuid → ℕ → String → String → String → Option String → Value → Database p → Database p
  insert_outbox_event id now event_type subject organization_id workspace_id event_data db =
      record db {
        outbox_events =
            p.uuids.insert id
              (record {
                id = id;
                spec_version = 1;
                event_type = event_type;
                subject = subject;
                organization_id = organization_id;
                workspace_id = workspace_id;
                event_data = event_data;
                occurred_at_unix_ms = now;
              })
              db.outbox_events;
      }

  -- `HangarStore::audit`: one event in a transaction of its own
  unfoldable pub audit : Uuid → ℕ → Principal → String → String → Database p → Database p
  unfolding insert_audit_event
  audit id now principal action resource db = insert_audit_event id now principal action resource db
