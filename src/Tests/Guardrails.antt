-- ===== src/Tests/Guardrails.antt =====
-- Runs of the operations on policies and skills.
use hangar_ia.Prelude.{◌≡◌, ◌↔◌, refl, false, some, ok, arith, is_blank, is_whitespace}
use hangar_ia.Platform.Sample.{sample, call_at}
use hangar_ia.Types.Access.{Role}
use hangar_ia.Types.Catalog.{GuardrailAction, PolicyLifecycle, GuardrailPolicy, GuardrailDecision}
use hangar_ia.Database.{Database}
use hangar_ia.Scope.{validate_scope, validate_catalog_name}
use hangar_ia.Events.{insert_outbox_event}
use hangar_ia.Guardrails.{
  create_guardrail_policy, transition_guardrail_policy, evaluate_guardrail, new_policy,
}
use hangar_ia.Guardrails.Rules.{
  latest_version, validate_guardrail_rules, validate_rules_from, validate_targets,
  is_valid_policy_transition,
}
use hangar_ia.Guardrails.Verdict.{Denial, ids_in_force, evaluate_guardrail_lem}
use hangar_ia.Guardrails.Inert.{create-evaluate}
use hangar_ia.Guardrails.Steps.{PolicyReach, here, next, created, transitioned}
use hangar_ia.Guardrails.Versions.{PolicyReach-one}
use hangar_ia.Guardrails.History.{PolicyKept, PolicyReach-Kept}
use hangar_ia.Tests.Data.{database_of, no_rows, no_export}

abbrev draft_policy : GuardrailPolicy
draft_policy = new_policy sample (call_at 100 1) no_export no_rows

abbrev with_draft : Database sample
with_draft = database_of (create_guardrail_policy sample (call_at 100 1) no_export no_rows)

abbrev enforced_policy : GuardrailPolicy
enforced_policy = record draft_policy {
  lifecycle = PolicyLifecycle.enforced;
  updated_at_unix_ms = 200;
}

abbrev with_enforced : Database sample
with_enforced = database_of (
    transition_guardrail_policy sample (call_at 200 10) 1 "acme" "lab" PolicyLifecycle.enforced
      with_draft)

no_export-created :
    create_guardrail_policy sample (call_at 100 1) no_export no_rows ≡ ok (draft_policy, with_draft)
unfolding create_guardrail_policy new_policy insert_outbox_event validate_scope
    validate_catalog_name validate_guardrail_rules validate_rules_from validate_targets is_blank
    is_whitespace latest_version
no_export-created = refl

no_export-enforced :
    transition_guardrail_policy sample
      (call_at 200 10)
      1
      "acme"
      "lab"
      PolicyLifecycle.enforced
      with_draft
    ≡ ok (some enforced_policy, with_enforced)
unfolding create_guardrail_policy new_policy insert_outbox_event validate_scope
    validate_catalog_name validate_guardrail_rules validate_rules_from validate_targets is_blank
    is_whitespace latest_version transition_guardrail_policy is_valid_policy_transition
no_export-enforced = refl

history : PolicyReach sample no_rows with_enforced
unfolding create_guardrail_policy
history = next (next here (created (call_at 100 1) no_export draft_policy refl no_export-created)) (
    transitioned (call_at 200 10) 1 "acme" "lab" PolicyLifecycle.enforced (some enforced_policy)
      no_export-enforced)

evaluate_guardrail_lem_example :
    (d : GuardrailDecision) × (evaluate_guardrail sample "acme" "lab" Role.reader
        GuardrailAction.export "report" with_enforced
      ≡ ok d)
    × ((d.allowed ≡ false)
        ↔ Denial Role.reader GuardrailAction.export "report" sample "acme" "lab" with_enforced)
    × (d.evaluated_policy_ids
        ≡ ids_in_force "acme" "lab" (sample.uuids.rows with_enforced.guardrail_policies))
unfolding validate_scope is_blank is_whitespace
evaluate_guardrail_lem_example =
    evaluate_guardrail_lem Role.reader GuardrailAction.export "report" sample "acme" "lab"
      with_enforced refl refl refl

create-evaluate_example :
    evaluate_guardrail sample "acme" "lab" Role.reader GuardrailAction.export "report" with_draft
    ≡ evaluate_guardrail sample "acme" "lab" Role.reader GuardrailAction.export "report" no_rows
create-evaluate_example =
    create-evaluate sample (call_at 100 1) no_export no_rows refl no_export-created "acme" "lab"
      Role.reader GuardrailAction.export "report"

PolicyReach-one_example : draft_policy.id ≡ enforced_policy.id
unfolding create_guardrail_policy new_policy insert_outbox_event validate_scope
    validate_catalog_name validate_guardrail_rules validate_rules_from validate_targets is_blank
    is_whitespace latest_version transition_guardrail_policy is_valid_policy_transition
PolicyReach-one_example =
    PolicyReach-one sample draft_policy.id enforced_policy.id enforced_policy enforced_policy
      history refl refl (record { organization = refl; workspace = refl; name = refl }) refl
      (omega arith)

later : PolicyReach sample with_draft with_enforced
later = next here (
    transitioned (call_at 200 10) 1 "acme" "lab" PolicyLifecycle.enforced (some enforced_policy)
      no_export-enforced)

PolicyReach-Kept_example : PolicyKept sample 1 draft_policy with_enforced
unfolding create_guardrail_policy new_policy insert_outbox_event validate_scope
    validate_catalog_name validate_guardrail_rules validate_rules_from validate_targets is_blank
    is_whitespace latest_version
PolicyReach-Kept_example = PolicyReach-Kept sample 1 draft_policy refl later
