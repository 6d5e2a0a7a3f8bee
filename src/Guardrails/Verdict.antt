-- ===== src/Guardrails/Verdict.antt =====
-- What `evaluate_guardrail` decides: when it denies, and which policies it reports.
use mathlib.Core.List.{Memᴰ}
use hangar_ia.Prelude.{
  String, Bool, true, false, ◌&&◌, ◌||◌, some, List, [], ◌∷◌, ◌++◌, ◌≡◌, ◌↔◌, refl, sym, ◌∙◌, leb,
  len, is_blank, ok, arith, nat_eq, string_eq, if◌then◌else◌, any, any_iff,
}
use hangar_ia.Platform.{Uuid, Platform}
use hangar_ia.Platform.Rows.{find_row-Memᴰ, Memᴰ-find_row}
use hangar_ia.Scope.{validate_scope}
use hangar_ia.Types.Access.{Role}
use hangar_ia.Types.Catalog.{
  GuardrailAction, PolicyEffect, GuardrailRule, GuardrailPolicy, GuardrailDecision,
}
use hangar_ia.Database.{Database}
use hangar_ia.Guardrails.Matching.{InForce, Covers, is_in_force_iff, rule_matches_iff}
use hangar_ia.Guardrails.{evaluate_policies, evaluate_guardrail}
use hangar_ia.Guardrails.Rules.{
  is_in_force, rule_matches, Evaluation, no_evaluation, record_match, evaluate_rules, decision_of,
}

abbrev is_deny : PolicyEffect → Bool
is_deny PolicyEffect.allow = false
is_deny PolicyEffect.deny = true

-- The ids of the policies in force, in the order of the rows.
abbrev pub ids_in_force : String → String → List (Uuid × GuardrailPolicy) → List Uuid
ids_in_force organization_id workspace_id [] = []
ids_in_force organization_id workspace_id ((key, policy) ∷ rest) =
    let ids = ids_in_force organization_id workspace_id rest in
    if is_in_force organization_id workspace_id policy then policy.id ∷ ids else ids

append-cons : (xs ys : List Uuid) (y : Uuid) → (xs ++ (y ∷ [])) ++ ys ≡ xs ++ (y ∷ ys)
append-cons [] ys y = refl
append-cons (x ∷ xs) ys y = rw (append-cons xs ys y)

append-nil : (xs : List Uuid) → xs ++ [] ≡ xs
append-nil [] = refl
append-nil (x ∷ xs) = rw (append-nil xs)

module _ (role : Role) (action : GuardrailAction) (target : String) where
  abbrev rule_denies : GuardrailRule → Bool
  rule_denies rule = rule_matches role action target rule && is_deny rule.effect

  evaluate_rules-any_deny :
      (id : String) (rules : List GuardrailRule) (e : Evaluation)
      → (evaluate_rules role action target id rules e).any_deny
        ≡ (e.any_deny || any rule_denies rules)
  unfolding evaluate_rules record_match
  evaluate_rules-any_deny id [] e = ground arith
  evaluate_rules-any_deny id (rule ∷ rules) e = ground (
    arith,
    evaluate_rules-any_deny id rules e,
    evaluate_rules-any_deny id rules (record_match id rule e),
  )

  evaluate_rules-ids :
      (id : String) (rules : List GuardrailRule) (e : Evaluation)
      → (evaluate_rules role action target id rules e).evaluated_policy_ids ≡ e.evaluated_policy_ids
  unfolding evaluate_rules record_match
  evaluate_rules-ids id [] e = refl
  evaluate_rules-ids id (rule ∷ rules) e =
      ground
        (arith, evaluate_rules-ids id rules e, evaluate_rules-ids id rules (record_match id rule e))

  module _ (p : Platform) (organization_id workspace_id : String) where
    abbrev policy_denies : Uuid × GuardrailPolicy → Bool
    policy_denies row =
        is_in_force organization_id workspace_id row.1 && any rule_denies row.1.rules

    abbrev entered : GuardrailPolicy → Evaluation → Evaluation
    entered policy e = record e {
      evaluated_policy_ids = e.evaluated_policy_ids ++ (policy.id ∷ []);
    }

    abbrev after_rules : GuardrailPolicy → Evaluation → Evaluation
    after_rules policy e =
        evaluate_rules role action target (p.uuid_text policy.id) policy.rules (entered policy e)

    abbrev all_policies : List (Uuid × GuardrailPolicy) → Evaluation → Evaluation
    all_policies = evaluate_policies p organization_id workspace_id role action target

    evaluate_policies-any_deny :
        (rs : List (Uuid × GuardrailPolicy)) (e : Evaluation)
        → (all_policies rs e).any_deny ≡ (e.any_deny || any policy_denies rs)
    unfolding evaluate_policies
    evaluate_policies-any_deny [] e = ground arith
    evaluate_policies-any_deny ((key, policy) ∷ rs) e = ground (
      arith,
      evaluate_policies-any_deny rs e,
      evaluate_policies-any_deny rs (after_rules policy e),
      evaluate_rules-any_deny (p.uuid_text policy.id) policy.rules (entered policy e),
    )

    evaluate_policies-ids :
        (rs : List (Uuid × GuardrailPolicy)) (e : Evaluation)
        → (all_policies rs e).evaluated_policy_ids
          ≡ e.evaluated_policy_ids ++ ids_in_force organization_id workspace_id rs
    unfolding evaluate_policies
    evaluate_policies-ids [] e = rw (append-nil e.evaluated_policy_ids)
    evaluate_policies-ids ((key, policy) ∷ rs) e = ground (
      arith,
      evaluate_policies-ids rs e,
      evaluate_policies-ids rs (after_rules policy e),
      evaluate_rules-ids (p.uuid_text policy.id) policy.rules (entered policy e),
      append-cons e.evaluated_policy_ids (ids_in_force organization_id workspace_id rs) policy.id,
    )

    -- A stored policy in force, and a rule of it that matches the request and denies it.
    pub record Denial (db : Database p) : Type 0 where
      pub id : Uuid
      pub policy : GuardrailPolicy
      pub stored : p.uuids.get id db.guardrail_policies ≡ some policy
      pub in_force : InForce organization_id workspace_id policy
      pub rule : GuardrailRule
      pub listed : Memᴰ rule policy.rules
      pub matching : Covers role action target rule
      pub denying : rule.effect ≡ PolicyEffect.deny

    any-Denial :
        (db : Database p)
        → any policy_denies (p.uuids.rows db.guardrail_policies) ≡ true
        → Denial db
    any-Denial db h =
        let w : (row : Uuid × GuardrailPolicy) × Memᴰ row (p.uuids.rows db.guardrail_policies)
            × (policy_denies row ≡ true) =
          (any_iff policy_denies (p.uuids.rows db.guardrail_policies)).0 h in
        let r : (rule : GuardrailRule) × Memᴰ rule w.0.1.rules × (rule_denies rule ≡ true) =
          (any_iff rule_denies w.0.1.rules).0 (ground (arith, w.2)) in
        record {
          id = w.0.0;
          policy = w.0.1;
          stored =
              p.uuids.get-rows w.0.0 db.guardrail_policies
              ∙ find_row-Memᴰ (p.uuids.rows db.guardrail_policies) w.0
                  (p.ascending db.guardrail_policies) w.1;
          in_force = (is_in_force_iff organization_id workspace_id w.0.1).0 (ground (arith, w.2));
          rule = r.0;
          listed = r.1;
          matching = (rule_matches_iff role action target r.0).0 (ground (arith, r.2));
          denying = ground (arith, r.2);
        }

    Denial-any :
        (db : Database p)
        → Denial db
        → any policy_denies (p.uuids.rows db.guardrail_policies) ≡ true
    Denial-any db d = (any_iff policy_denies (p.uuids.rows db.guardrail_policies)).1 (
      (d.id, d.policy),
      Memᴰ-find_row d.id d.policy (p.uuids.rows db.guardrail_policies)
          (sym (p.uuids.get-rows d.id db.guardrail_policies) ∙ d.stored),
      ground (
        arith,
        (is_in_force_iff organization_id workspace_id d.policy).1 d.in_force,
        (any_iff rule_denies d.policy.rules).1 (
          d.rule,
          d.listed,
          ground (arith, (rule_matches_iff role action target d.rule).1 d.matching, d.denying),
        ),
      ),
    )

    -- A request of a valid scope, for a target of 1 to 512 bytes that is not blank, gets a decision.
    -- It is refused exactly when some stored policy of the workspace is enforced and has a matching
    -- rule with the effect deny, and the decision names the policies in force, in the order of their
    -- ids.
    pub evaluate_guardrail_lem :
        (db : Database p)
        → validate_scope organization_id workspace_id ≡ ok tt
        → is_blank target ≡ false
        → leb (len target) 512 ≡ true
        → (d : GuardrailDecision) × (evaluate_guardrail p organization_id workspace_id role action
              target db
            ≡ ok d)
          × ((d.allowed ≡ false) ↔ Denial db)
          × (d.evaluated_policy_ids
              ≡ ids_in_force organization_id workspace_id (p.uuids.rows db.guardrail_policies))
    unfolding evaluate_guardrail decision_of
    evaluate_guardrail_lem db s b l = (
      decision_of action target (all_policies (p.uuids.rows db.guardrail_policies) no_evaluation),
      rw (s, b, l),
      (
        λ h. any-Denial db (
            ground (
              arith,
              h,
              evaluate_policies-any_deny (p.uuids.rows db.guardrail_policies) no_evaluation,
            )),
        λ d. ground (
          arith,
          Denial-any db d,
          evaluate_policies-any_deny (p.uuids.rows db.guardrail_policies) no_evaluation,
        ),
      ),
      evaluate_policies-ids (p.uuids.rows db.guardrail_policies) no_evaluation,
    )
