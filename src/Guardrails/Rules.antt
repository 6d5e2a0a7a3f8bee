-- ===== src/Guardrails/Rules.antt =====
-- The checks of new policies, and the evaluation of the rules of one policy
-- (packages/hangar-server/src/store.rs).
use Prim.Native.String.{◌++◌ as append}
use hangar_ia.Prelude.{
  ℕ, String, Bool, true, false, not, ◌&&◌, ◌||◌, List, [], ◌∷◌, ◌++◌, Outcome, ok, ensure, ◌>>◌,
  leb, max, len, length, any, is_empty, is_blank, ◌==◌, nat_eq, string_eq, if◌then◌else◌,
}
use hangar_ia.Platform.{Uuid}
use hangar_ia.Types.Access.{Role, role_eq}
use hangar_ia.Types.Catalog.{
  GuardrailAction, PolicyEffect, PolicyLifecycle, GuardrailRule, GuardrailPolicy, GuardrailDecision,
  action_eq, policy_lifecycle_eq,
}
use hangar_ia.Scope.{in_scope, validate_catalog_name}

-- The targets of one rule.
unfoldable pub validate_targets : List String → Outcome (Unit {0})
validate_targets [] = ok tt
validate_targets (target ∷ targets) = do
  ensure (target == "*" || (not (is_blank target) && leb (len target) 512))
      "guardrail targets must be '*' or 1-512 non-empty characters"
  validate_targets targets

-- The loop over the rules; the first argument holds the ids seen so far.
unfoldable pub validate_rules_from : List String → List GuardrailRule → Outcome (Unit {0})
validate_rules_from ids [] = ok tt
validate_rules_from ids (rule ∷ rules) = do
  validate_catalog_name rule.id
      "guardrail rule id must use 1-128 ASCII letters, digits, '-', '_', '.', or '/'"
  ensure (not (any (λ id. id == rule.id) ids)) "guardrail rule ids must be unique"
  ensure (leb (length rule.roles) 3) "a rule may list at most 3 roles"
  ensure (leb (length rule.targets) 64) "a rule may list at most 64 targets"
  validate_targets rule.targets
  validate_rules_from (rule.id ∷ ids) rules

unfoldable pub validate_guardrail_rules : List GuardrailRule → Outcome (Unit {0})
validate_guardrail_rules rules = do
  ensure (not (is_empty rules) && leb (length rules) 128)
      "a guardrail policy must contain 1-128 rules"
  validate_rules_from [] rules

-- The largest version of the policies of one name in a workspace, 0 if there is none.
unfoldable pub latest_version : String → String → String → List (Uuid × GuardrailPolicy) → ℕ
latest_version organization_id workspace_id name [] = 0
latest_version organization_id workspace_id name ((key, policy) ∷ rest) =
    let latest = latest_version organization_id workspace_id name rest in
    if in_scope policy.organization_id policy.workspace_id organization_id workspace_id
      && policy.name == name
    then max policy.version latest
    else latest

unfoldable pub is_valid_policy_transition : PolicyLifecycle → PolicyLifecycle → Bool
is_valid_policy_transition PolicyLifecycle.draft PolicyLifecycle.enforced = true
is_valid_policy_transition PolicyLifecycle.draft PolicyLifecycle.retired = true
is_valid_policy_transition PolicyLifecycle.enforced PolicyLifecycle.retired = true
is_valid_policy_transition _ _ = false

-- The policies that `evaluate_guardrail` does not skip.
unfoldable pub is_in_force : String → String → GuardrailPolicy → Bool
is_in_force organization_id workspace_id policy =
    in_scope policy.organization_id policy.workspace_id organization_id workspace_id
    && policy.lifecycle == PolicyLifecycle.enforced

unfoldable pub rule_matches : Role → GuardrailAction → String → GuardrailRule → Bool
rule_matches role action target rule =
    rule.action == action
    && ((is_empty rule.roles || any (λ r. r == role) rule.roles)
        && (is_empty rule.targets
            || any (λ candidate. candidate == "*" || candidate == target) rule.targets))

-- The variables of the loops of `evaluate_guardrail`.
pub record Evaluation : Type 0 where
  pub evaluated_policy_ids : List Uuid
  pub matched_rule_ids : List String
  pub any_allow : Bool
  pub any_deny : Bool

abbrev pub no_evaluation : Evaluation
no_evaluation = record {
  evaluated_policy_ids = [];
  matched_rule_ids = [];
  any_allow = false;
  any_deny = false;
}

unfoldable pub record_match : String → GuardrailRule → Evaluation → Evaluation
record_match policy_id rule e = record {
  evaluated_policy_ids = e.evaluated_policy_ids;
  matched_rule_ids = e.matched_rule_ids ++ (append policy_id (append ":" rule.id) ∷ []);
  any_allow = elim rule.effect [ PolicyEffect.allow ↦ true | PolicyEffect.deny ↦ e.any_allow ];
  any_deny = elim rule.effect [ PolicyEffect.allow ↦ e.any_deny | PolicyEffect.deny ↦ true ];
}

-- The inner loop, over the rules of a policy.
unfoldable pub evaluate_rules :
    Role → GuardrailAction → String → String → List GuardrailRule → Evaluation → Evaluation
evaluate_rules role action target policy_id [] e = e
evaluate_rules role action target policy_id (rule ∷ rules) e =
    evaluate_rules role action target policy_id rules
      (if rule_matches role action target rule then record_match policy_id rule e else e)

unfoldable pub reason_of : Evaluation → String
reason_of e =
    if e.any_deny
    then "denied by an enforced guardrail rule"
    else if e.any_allow
    then "allowed by an enforced guardrail rule"
    else "allowed by the baseline policy (no enforced matching rule)"

unfoldable pub decision_of : GuardrailAction → String → Evaluation → GuardrailDecision
decision_of action target e = record {
  allowed = not e.any_deny;
  action = action;
  target = target;
  reason = reason_of e;
  evaluated_policy_ids = e.evaluated_policy_ids;
  matched_rule_ids = e.matched_rule_ids;
  retrieved_content_is_untrusted = true;
}
