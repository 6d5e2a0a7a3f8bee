-- ===== src/Guardrails/Inert.antt =====
-- Writes of policies that no evaluation sees.
use hangar_ia.Prelude.{
  String, true, false, not, Option, none, some, List, [], ◌∷◌, ◌++◌, ◌≡◌, refl, ok, ensure,
  ensure-ok, ◌⊎◌, >>-eq-ok, Option-cases, is_none_or, inl, inr, arith, nat_eq, string_eq,
}
use hangar_ia.Platform.{Uuid, Platform, Call, old_row}
use hangar_ia.Types.Access.{Role}
use hangar_ia.Types.Catalog.{
  GuardrailAction, PolicyLifecycle, GuardrailPolicy, NewGuardrailPolicy, policy_lifecycle_eq,
}
use hangar_ia.Database.{Database}
use hangar_ia.Scope.{in_scope, validate_scope, validate_catalog_name}
use hangar_ia.Scope.Laws.{in_scope-eq}
use hangar_ia.Events.{insert_outbox_event}
use hangar_ia.Guardrails.{
  evaluate_policies, evaluate_guardrail, new_policy, create_guardrail_policy,
  transition_guardrail_policy,
}
use hangar_ia.Guardrails.Rules.{
  is_in_force, Evaluation, validate_guardrail_rules, no_evaluation, is_valid_policy_transition,
}

module _ (p : Platform) where
  open p.uuids use {Table, get, insert, rows}

  module _ (organization_id workspace_id : String) (role : Role) (action : GuardrailAction)
      (target : String) where
    abbrev all_policies : List (Uuid × GuardrailPolicy) → Evaluation → Evaluation
    all_policies = evaluate_policies p organization_id workspace_id role action target

    -- A row that is not in force changes nothing.
    evaluate_policies-skip :
        (before after : List (Uuid × GuardrailPolicy)) (k : Uuid) (v : GuardrailPolicy)
        (e : Evaluation)
        → is_in_force organization_id workspace_id v ≡ false
        → all_policies (before ++ ((k, v) ∷ after)) e ≡ all_policies (before ++ after) e
    unfolding evaluate_policies
    evaluate_policies-skip [] after k v e h = ground (arith, h)
    evaluate_policies-skip (row ∷ before) after k v e h =
        evaluate_policies-skip before after k v _ h

    evaluate_policies-skip_old :
        (before after : List (Uuid × GuardrailPolicy)) (k : Uuid) (old : Option GuardrailPolicy)
        (e : Evaluation)
        → is_none_or (λ v. not (is_in_force organization_id workspace_id v)) old ≡ true
        → all_policies (before ++ (old_row k old ++ after)) e ≡ all_policies (before ++ after) e
    evaluate_policies-skip_old before after k none e h = refl
    evaluate_policies-skip_old before after k (some v) e h =
        evaluate_policies-skip before after k v e (ground (arith, h))

    insert-skipped :
        (k : Uuid) (v : GuardrailPolicy) (t : Table GuardrailPolicy) (e : Evaluation)
        → is_in_force organization_id workspace_id v ≡ false
        → is_none_or (λ v. not (is_in_force organization_id workspace_id v)) (get k t) ≡ true
        → all_policies (rows (insert k v t)) e ≡ all_policies (rows t) e
    insert-skipped k v t e h o =
        let (before, after, old, new) = p.rows-insert k v t in
        rw (
          old,
          new,
          evaluate_policies-skip before after k v e h,
          evaluate_policies-skip_old before after k (get k t) e o,
        )

    -- Two databases that decide alike in this request.
    evaluate_guardrail-alike :
        (db db' : Database p)
        → all_policies (rows db'.guardrail_policies) no_evaluation
          ≡ all_policies (rows db.guardrail_policies) no_evaluation
        → evaluate_guardrail p organization_id workspace_id role action target db'
          ≡ evaluate_guardrail p organization_id workspace_id role action target db
    unfolding evaluate_guardrail
    evaluate_guardrail-alike db db' h = rw h

  pub create_guardrail_policy-ok :
      (call : Call) (new : NewGuardrailPolicy) (db : Database p) {policy : GuardrailPolicy}
      {db' : Database p}
      → create_guardrail_policy p call new db ≡ ok (policy, db')
      → (validate_guardrail_rules new.rules ≡ ok tt)
        × (policy ≡ new_policy p call new db)
        × (db'.guardrail_policies
            ≡ insert (call.ids 0) (new_policy p call new db) db.guardrail_policies)
  unfolding create_guardrail_policy new_policy insert_outbox_event
  create_guardrail_policy-ok call new db h =
      let (s, h1) = >>-eq-ok (validate_scope new.organization_id new.workspace_id) _ h in
      let (n, h2) =
        >>-eq-ok
          (validate_catalog_name new.name
            "policy name must use 1-128 ASCII letters, digits, '-', '_', '.', or '/'")
          _ h1 in
      let (r, h3) = >>-eq-ok (validate_guardrail_rules new.rules) _ h2 in
      (r, ground arith, ground arith)

  -- What a transition that succeeds has found and written.
  pub record PolicyMoved (call : Call) (id : Uuid) (o w : String) (l : PolicyLifecycle)
      (db : Database p) (r : Option GuardrailPolicy) (db' : Database p) : Type 0 where
    pub policy : GuardrailPolicy
    pub found : get id db.guardrail_policies ≡ some policy
    pub owned : in_scope policy.organization_id policy.workspace_id o w ≡ true
    pub forward : is_valid_policy_transition policy.lifecycle l ≡ true
    pub result : r ≡ some (record policy { lifecycle = l; updated_at_unix_ms = call.clock 0 })
    pub stored :
        db'.guardrail_policies
        ≡ insert id
            (record policy { lifecycle = l; updated_at_unix_ms = call.clock 0 })
            db.guardrail_policies

  pub transition_guardrail_policy-ok :
      (call : Call) (id : Uuid) (o w : String) (l : PolicyLifecycle) (db : Database p)
      {r : Option GuardrailPolicy} {db' : Database p}
      → transition_guardrail_policy p call id o w l db ≡ ok (r, db')
      → ((get id db.guardrail_policies ≡ none) × (db' ≡ db)) ⊎ PolicyMoved call id o w l db r db'
  unfolding transition_guardrail_policy insert_outbox_event
  transition_guardrail_policy-ok call id o w l db h =
      elim (Option-cases (get id db.guardrail_policies)) [
        | inl missing ↦ inl (missing, ground arith)
        | inr (m, found) ↦
            let k = rw (found, transition_guardrail_policy) at h in
            let (a, k1) =
              >>-eq-ok
                (ensure (in_scope m.organization_id m.workspace_id o w)
                  "guardrail policy not found in this workspace")
                _ k in
            let (b, k2) =
              >>-eq-ok
                (ensure (is_valid_policy_transition m.lifecycle l)
                  "invalid guardrail policy lifecycle transition")
                _ k1 in
            inr (record {
              policy = m;
              found = found;
              owned = ensure-ok _ _ a;
              forward = ensure-ok _ _ b;
              result = ground arith;
              stored = ground arith;
            })
      ]

  -- A new policy is a draft: under an id that no policy has, its creation changes no decision.
  pub create-evaluate :
      (call : Call) (new : NewGuardrailPolicy) (db : Database p) {policy : GuardrailPolicy}
      {db' : Database p}
      → get (call.ids 0) db.guardrail_policies ≡ none
      → create_guardrail_policy p call new db ≡ ok (policy, db')
      → (organization_id workspace_id : String) (role : Role) (action : GuardrailAction)
        (target : String)
      → evaluate_guardrail p organization_id workspace_id role action target db'
        ≡ evaluate_guardrail p organization_id workspace_id role action target db
  unfolding is_in_force new_policy
  create-evaluate call new db {db' = db'} fresh h o w role action target =
      let (rules, made, stored) = create_guardrail_policy-ok call new db h in
      evaluate_guardrail-alike o w role action target db db' (
        rw (
          stored,
          insert-skipped o w role action target (call.ids 0) (new_policy p call new db)
              db.guardrail_policies no_evaluation (ground arith) (ground (arith, fresh)),
        ))

  -- A transition in one workspace changes no decision in another.
  pub transition-evaluate :
      (call : Call) (id : Uuid) (o w : String) (l : PolicyLifecycle) (db : Database p)
      {r : Option GuardrailPolicy} {db' : Database p}
      → transition_guardrail_policy p call id o w l db ≡ ok (r, db')
      → (organization_id workspace_id : String) (role : Role) (action : GuardrailAction)
        (target : String)
      → in_scope o w organization_id workspace_id ≡ false
      → evaluate_guardrail p organization_id workspace_id role action target db'
        ≡ evaluate_guardrail p organization_id workspace_id role action target db
  unfolding is_in_force
  transition-evaluate call id o w l db {db' = db'} h o2 w2 role action target other =
      elim (transition_guardrail_policy-ok call id o w l db h) [
        | inl (missing, same) ↦ rw same
        | inr t ↦
            let (e1, e2) = in_scope-eq t.policy.organization_id t.policy.workspace_id o w t.owned in
            evaluate_guardrail-alike o2 w2 role action target db db' (
              rw (
                t.stored,
                insert-skipped o2 w2 role action target id
                    (record t.policy { lifecycle = l; updated_at_unix_ms = call.clock 0 })
                    db.guardrail_policies no_evaluation (ground (arith, e1, e2, other))
                    (ground (arith, t.found, e1, e2, other)),
              ))
      ]
