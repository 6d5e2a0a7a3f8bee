-- ===== src/Guardrails/History.antt =====
-- What becomes of a stored policy.
use hangar_ia.Prelude.{
  ℕ, ◌<◌, true, some, ◌≡◌, refl, ◌∙◌, ◌⊎◌, inl, inr, arith, ap, Bool-cases, ==_iff, ◌==◌, nat_eq,
  string_eq,
}
use hangar_ia.Platform.{Uuid, Platform}
use hangar_ia.Types.Catalog.{PolicyLifecycle, GuardrailPolicy}
use hangar_ia.Database.{Database}
use hangar_ia.Guardrails.Rules.{is_valid_policy_transition}
use hangar_ia.Guardrails.Inert.{create_guardrail_policy-ok, transition_guardrail_policy-ok}
use hangar_ia.Guardrails.Steps.{
  PolicyStep, created, transitioned, elsewhere, PolicyReach, here, next,
}

pub policy_rank : PolicyLifecycle → ℕ
policy_rank PolicyLifecycle.draft = 0
policy_rank PolicyLifecycle.enforced = 1
policy_rank PolicyLifecycle.retired = 2

-- The second policy is a later state of the first.
pub record PolicyEvolves (a b : GuardrailPolicy) : Type 0 where
  pub same : b ≡ record a { lifecycle = b.lifecycle; updated_at_unix_ms = b.updated_at_unix_ms }
  pub forward : (b ≡ a) ⊎ (policy_rank a.lifecycle < policy_rank b.lifecycle)

module _ (p : Platform) where
  open p.uuids use {get, insert, rows, get-insert, get-rows, get-empty}

  -- The policy under a key has a successor that it could become.
  pub record PolicyKept (k : Uuid) (a : GuardrailPolicy) (db' : Database p) : Type 0 where
    pub policy : GuardrailPolicy
    pub stored : get k db'.guardrail_policies ≡ some policy
    pub evolves : PolicyEvolves a policy

  unchanged :
      (db' : Database p) (k : Uuid) (a : GuardrailPolicy)
      → get k db'.guardrail_policies ≡ some a
      → PolicyKept k a db'
  unchanged db' k a h = record {
    policy = a;
    stored = h;
    evolves = record { same = refl; forward = inl refl };
  }

  policy_rank-lt :
      (a b : PolicyLifecycle)
      → is_valid_policy_transition a b ≡ true
      → policy_rank a < policy_rank b
  unfolding is_valid_policy_transition policy_rank
  policy_rank-lt a b h = ground arith

  abbrev policy_relabelled : ℕ → PolicyLifecycle → GuardrailPolicy → GuardrailPolicy
  policy_relabelled now l policy = record policy { lifecycle = l; updated_at_unix_ms = now }

  PolicyStep-Kept :
      {db db' : Database p} (k : Uuid) (a : GuardrailPolicy)
      → get k db.guardrail_policies ≡ some a
      → PolicyStep p db db'
      → PolicyKept k a db'
  PolicyStep-Kept {db} {db'} k a h (created call new policy fresh e) =
      let (rules, made, stored) = create_guardrail_policy-ok p call new db e in
      elim (Bool-cases (call.ids 0 == k)) [
        | inl same ↦ absurd (ground (arith, fresh, h, (==_iff (call.ids 0) k).0 same))
        | inr other ↦ unchanged db' k a (rw (stored, get-insert, other) h)
      ]
  PolicyStep-Kept {db} {db'} k a h (transitioned call id o w l r e) =
      elim (transition_guardrail_policy-ok p call id o w l db e) [
        | inl (missing, same) ↦ unchanged db' k a (rw same h)
        | inr t ↦ elim (Bool-cases (id == k)) [
          | inr other ↦ unchanged db' k a (rw (t.stored, get-insert, other) h)
          | inl own ↦
              let same : t.policy ≡ a = ground (arith, t.found, h, (==_iff id k).0 own) in
              record {
                policy = record t.policy { lifecycle = l; updated_at_unix_ms = call.clock 0 };
                stored = rw (t.stored, get-insert, own);
                evolves = record {
                  same = ap (policy_relabelled (call.clock 0) l) same;
                  forward = inr (
                      ground (
                        arith,
                        policy_rank-lt t.policy.lifecycle l t.forward,
                        ap (λ y. y.lifecycle) same,
                      ));
                };
              }
        ]
      ]
  PolicyStep-Kept {db} {db'} k a h (elsewhere e) = unchanged db' k a (rw e h)

  PolicyEvolves-trans :
      {a b c : GuardrailPolicy} → PolicyEvolves a b → PolicyEvolves b c → PolicyEvolves a c
  PolicyEvolves-trans {a} {b} {c} x y = record {
    same = ground (arith, x.same, y.same);
    forward = elim x.forward [
      | inl ba ↦ elim y.forward [
        | inl cb ↦ inl (cb ∙ ba)
        | inr lt ↦ inr (ground (arith, lt, ap (λ z. policy_rank z.lifecycle) ba))
      ]
      | inr lt ↦ elim y.forward [
        | inl cb ↦ inr (ground (arith, lt, ap (λ z. policy_rank z.lifecycle) cb))
        | inr lt' ↦ inr (omega (arith, lt, lt'))
      ]
    ];
  }

  -- A stored policy is never lost: its id, scope, name, version, rules and author stay, and either it
  -- is the same or its lifecycle has gone forward from draft to enforced to retired.
  pub PolicyReach-Kept :
      {db db' : Database p} (k : Uuid) (a : GuardrailPolicy)
      → get k db.guardrail_policies ≡ some a
      → PolicyReach p db db'
      → PolicyKept k a db'
  PolicyReach-Kept {db} {db'} k a h here = unchanged db' k a h
  PolicyReach-Kept k a h (next r s) =
      let x = PolicyReach-Kept k a h r in
      let y = PolicyStep-Kept k x.policy x.stored s in
      record {
        policy = y.policy;
        stored = y.stored;
        evolves = PolicyEvolves-trans x.evolves y.evolves;
      }
