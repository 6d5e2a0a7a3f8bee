-- ===== src/Guardrails/Matching.antt =====
-- When a policy counts and when a rule speaks of a request, in words of their own.
use mathlib.Core.List.{Memᴰ}
use hangar_ia.Prelude.{
  String, true, ◌||◌, List, [], ◌∷◌, ◌≡◌, ◌↔◌, ◌⊎◌, inl, inr, refl, subst, arith, any, any_iff,
  is_empty, &&_iff, Bool-cases, ==_iff, ==_refl, ◌==◌, Eq, string_eq, nat_eq,
}
use hangar_ia.Types.Access.{Role, role_eq}
use hangar_ia.Types.Catalog.{
  GuardrailAction, PolicyLifecycle, GuardrailRule, GuardrailPolicy, action_eq, policy_lifecycle_eq,
}
use hangar_ia.Guardrails.Rules.{is_in_force, rule_matches}

-- A policy of the workspace that is enforced.
pub record InForce (organization_id workspace_id : String) (policy : GuardrailPolicy) : Type 0 where
  pub organization : policy.organization_id ≡ organization_id
  pub workspace : policy.workspace_id ≡ workspace_id
  pub enforced : policy.lifecycle ≡ PolicyLifecycle.enforced

-- A list of a rule that is open to all, or names the value.
abbrev Names {ℓ} : {A : Type ℓ} → A → List A → Type ℓ
Names a xs = (xs ≡ []) ⊎ Memᴰ a xs

-- A rule on the action, for the role, and for the target or for all targets by a star.
pub record Covers (role : Role) (action : GuardrailAction) (target : String) (rule : GuardrailRule)
    : Type 0 where
  pub actions : rule.action ≡ action
  pub roles : Names role rule.roles
  pub targets : Names target rule.targets ⊎ Memᴰ "*" rule.targets

pub is_in_force_iff :
    (o w : String) (policy : GuardrailPolicy) → (is_in_force o w policy ≡ true) ↔ InForce o w policy
unfolding is_in_force
is_in_force_iff o w policy = (
  λ h. record {
    organization = ground (arith, h, ==_iff policy.organization_id o);
    workspace = ground (arith, h, ==_iff policy.workspace_id w);
    enforced = (==_iff policy.lifecycle PolicyLifecycle.enforced).0 (ground (arith, h));
  },
  λ f. rw (f.organization, f.workspace, f.enforced, ==_refl o, ==_refl w),
)

any-Names :
    {A : Type 0} ⦃e : Eq A⦄ (a : A) (xs : List A)
    → (is_empty xs || any (λ x. x == a) xs) ≡ true
    → Names a xs
any-Names a [] h = inl refl
any-Names ⦃e⦄ a (x ∷ xs) h =
    let w = (any_iff (λ y. y == a) (x ∷ xs)).0 h in
    inr (subst (λ y. Memᴰ y (x ∷ xs)) ((==_iff w.0 a).0 w.2) w.1)

Names-any :
    {A : Type 0} ⦃e : Eq A⦄ (a : A) (xs : List A)
    → Names a xs
    → (is_empty xs || any (λ x. x == a) xs) ≡ true
Names-any a [] n = refl
Names-any a (x ∷ xs) n = elim n [
  | inl e ↦ absurd (cc)
  | inr m ↦ (any_iff (λ y. y == a) (x ∷ xs)).1 (a, m, ==_refl a)
]

targets-Names :
    (t : String) (xs : List String)
    → (is_empty xs || any (λ c. c == "*" || c == t) xs) ≡ true
    → Names t xs ⊎ Memᴰ "*" xs
targets-Names t [] h = inl (inl refl)
targets-Names t (x ∷ xs) h =
    let w = (any_iff (λ c. c == "*" || c == t) (x ∷ xs)).0 h in
    elim (Bool-cases (w.0 == "*")) [
      | inl star ↦ inr (subst (λ y. Memᴰ y (x ∷ xs)) ((==_iff w.0 "*").0 star) w.1)
      | inr other ↦
          let same : (w.0 == t) ≡ true = ground (arith, w.2, other) in
          inl (inr (subst (λ y. Memᴰ y (x ∷ xs)) ((==_iff w.0 t).0 same) w.1))
    ]

Names-targets :
    (t : String) (xs : List String)
    → Names t xs ⊎ Memᴰ "*" xs
    → (is_empty xs || any (λ c. c == "*" || c == t) xs) ≡ true
Names-targets t [] n = refl
Names-targets t (x ∷ xs) n = elim n [
  | inl named ↦ elim named [
    | inl e ↦ absurd (cc)
    | inr m ↦ (any_iff (λ c. c == "*" || c == t) (x ∷ xs)).1 (t, m, ground (arith, ==_refl t))
  ]
  | inr m ↦ (any_iff (λ c. c == "*" || c == t) (x ∷ xs)).1 ("*", m, refl)
]

pub rule_matches_iff :
    (role : Role) (action : GuardrailAction) (target : String) (rule : GuardrailRule)
    → (rule_matches role action target rule ≡ true) ↔ Covers role action target rule
unfolding rule_matches
rule_matches_iff role action target rule = (
  λ h.
      let parts = (&&_iff _ _).0 h in
      let lists = (&&_iff _ _).0 parts.1 in
      record {
        actions = (==_iff rule.action action).0 parts.0;
        roles = any-Names role rule.roles lists.0;
        targets = targets-Names target rule.targets lists.1;
      },
  λ c. (&&_iff _ _).1 (
    (==_iff rule.action action).1 c.actions,
    (&&_iff _ _).1 (Names-any role rule.roles c.roles, Names-targets target rule.targets c.targets),
  ),
)
