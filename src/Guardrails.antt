-- ===== src/Guardrails.antt =====
-- Guardrail policies: `create_guardrail_policy`, `transition_guardrail_policy` and
-- `evaluate_guardrail` of packages/hangar-server/src/store.rs.
pub mod Rules
pub mod Verdict
pub mod Matching
pub mod Inert
pub mod History
pub mod Steps
pub mod Versions
use Prim.Native.String.{◌++◌ as append}
use hangar_ia.Prelude.{
  ℕ, String, Bool, true, false, not, ◌&&◌, ◌||◌, Option, none, some, List, [], ◌∷◌, ◌++◌, Outcome,
  ok, ensure, ◌>>=◌, ◌>>◌, leb, max, len, length, any, is_empty, is_blank, ◌==◌, nat_eq, string_eq,
  saturating_add_u32, if◌then◌else◌,
}
use hangar_ia.Platform.{Uuid, Platform, Call}
use hangar_ia.Types.Access.{Role, role_eq}
use hangar_ia.Types.Catalog.{
  GuardrailAction, PolicyEffect, PolicyLifecycle, GuardrailRule, GuardrailPolicy,
  NewGuardrailPolicy, GuardrailDecision, action_eq, policy_lifecycle_eq,
}
use hangar_ia.Types.Events.{number, text, uuid, object, field, end}
use hangar_ia.Database.{Database}
use hangar_ia.Scope.{in_scope, validate_scope, validate_catalog_name}
use hangar_ia.Events.{policy_text, path_of, insert_outbox_event}
use hangar_ia.Guardrails.Rules.{
  validate_targets, validate_rules_from, validate_guardrail_rules, latest_version,
  is_valid_policy_transition, is_in_force, rule_matches, Evaluation, no_evaluation, record_match,
  evaluate_rules, reason_of, decision_of,
}

module _ (p : Platform) where
  open p.uuids use {Table, get, insert, rows}

  -- The outer loop, over the rows of the table.
  unfoldable pub evaluate_policies :
      String
      → String
      → Role
      → GuardrailAction
      → String
      → List (Uuid × GuardrailPolicy)
      → Evaluation
      → Evaluation
  evaluate_policies organization_id workspace_id role action target [] e = e
  evaluate_policies organization_id workspace_id role action target ((key, policy) ∷ rest) e =
      evaluate_policies organization_id workspace_id role action target rest (
        if is_in_force organization_id workspace_id policy
        then evaluate_rules role action target (p.uuid_text policy.id) policy.rules
            (record e { evaluated_policy_ids = e.evaluated_policy_ids ++ (policy.id ∷ []) })
        else e)

  unfoldable pub evaluate_guardrail :
      String → String → Role → GuardrailAction → String → Database p → Outcome GuardrailDecision
  evaluate_guardrail organization_id workspace_id role action target db = do
    validate_scope organization_id workspace_id
    ensure (not (is_blank target) && leb (len target) 512)
        "target must be between 1 and 512 characters"
    let e =
        evaluate_policies organization_id workspace_id role action target
          (rows db.guardrail_policies) no_evaluation
    ok (decision_of action target e)

  -- The policy that a creation stores.
  unfoldable pub new_policy : Call → NewGuardrailPolicy → Database p → GuardrailPolicy
  new_policy call new db = record {
    id = call.ids 0;
    organization_id = new.organization_id;
    workspace_id = new.workspace_id;
    name = new.name;
    version =
        saturating_add_u32
          (latest_version new.organization_id new.workspace_id new.name
            (rows db.guardrail_policies))
          1;
    lifecycle = PolicyLifecycle.draft;
    rules = new.rules;
    created_by = new.created_by;
    created_at_unix_ms = call.clock 0;
    updated_at_unix_ms = call.clock 0;
  }

  unfoldable pub create_guardrail_policy :
      Call → NewGuardrailPolicy → Database p → Outcome (GuardrailPolicy × Database p)
  create_guardrail_policy call new db = do
    validate_scope new.organization_id new.workspace_id
    validate_catalog_name new.name
        "policy name must use 1-128 ASCII letters, digits, '-', '_', '.', or '/'"
    validate_guardrail_rules new.rules
    let policy = new_policy call new db
    ok (
      policy,
      insert_outbox_event p (call.ids 1) (call.clock 1) "guardrail_policy.created.v1"
          (path_of p "guardrail-policies/" policy.id) policy.organization_id
          (some policy.workspace_id)
          (object (
            field "policy_id" (uuid policy.id)
              (field "name" (text policy.name) (field "version" (number policy.version) end))))
          (record db { guardrail_policies = insert policy.id policy db.guardrail_policies }),
    )

  unfoldable pub transition_guardrail_policy :
      Call
      → Uuid
      → String
      → String
      → PolicyLifecycle
      → Database p
      → Outcome (Option GuardrailPolicy × Database p)
  transition_guardrail_policy call id organization_id workspace_id lifecycle db =
      elim (get id db.guardrail_policies) [
        | none ↦ ok (none, db)
        | some policy ↦ do
          ensure (in_scope policy.organization_id policy.workspace_id organization_id workspace_id)
              "guardrail policy not found in this workspace"
          ensure (is_valid_policy_transition policy.lifecycle lifecycle)
              "invalid guardrail policy lifecycle transition"
          let policy' = record policy { lifecycle = lifecycle; updated_at_unix_ms = call.clock 0 }
          ok (
            some policy',
            insert_outbox_event p (call.ids 0) (call.clock 1)
                "guardrail_policy.lifecycle_changed.v1" (path_of p "guardrail-policies/" policy'.id)
                policy'.organization_id (some policy'.workspace_id)
                (object (
                  field "policy_id" (uuid policy'.id) (
                    field "lifecycle" (text (policy_text policy'.lifecycle))
                      (field "version" (number policy'.version) end))))
                (record db { guardrail_policies = insert id policy' db.guardrail_policies }),
          )
      ]
