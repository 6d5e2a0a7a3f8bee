-- ===== src/Guardrails/Versions.antt =====
-- The versions that policies get.
use hangar_ia.Prelude.{
  ◌^◌, ◌-◌, ◌≤◌, ◌<◌, String, some, List, [], ◌∷◌, ◌≡◌, sym, ◌∙◌, ◌⊎◌, inl, inr, arith, subst,
  Bool-cases, ==_iff, ◌==◌, nat_eq, string_eq,
}
use hangar_ia.Platform.{Uuid, Platform, Call, find_row}
use hangar_ia.Platform.Exclusive.{
  IsExclusive, empty-IsExclusive, add-IsExclusive, replace-IsExclusive,
}
use hangar_ia.Types.Catalog.{GuardrailPolicy, NewGuardrailPolicy}
use hangar_ia.Database.{Database, empty_database}
use hangar_ia.Guardrails.{new_policy}
use hangar_ia.Guardrails.Rules.{latest_version}
use hangar_ia.Guardrails.Inert.{create_guardrail_policy-ok, transition_guardrail_policy-ok}
use hangar_ia.Guardrails.Steps.{
  PolicyStep, created, transitioned, elsewhere, PolicyReach, here, next,
}

-- Two policies of one name in one workspace.
pub record SameName (a b : GuardrailPolicy) : Type 0 where
  pub organization : a.organization_id ≡ b.organization_id
  pub workspace : a.workspace_id ≡ b.workspace_id
  pub name : a.name ≡ b.name

latest_version-le :
    (k : Uuid) (a : GuardrailPolicy) (o w n : String) (rs : List (Uuid × GuardrailPolicy))
    → find_row k rs ≡ some a
    → a.organization_id ≡ o
    → a.workspace_id ≡ w
    → a.name ≡ n
    → a.version ≤ latest_version o w n rs
unfolding latest_version
latest_version-le k a o w n [] h e1 e2 e3 = absurd (cc)
latest_version-le k a o w n ((j, b) ∷ rs) h e1 e2 e3 = elim (Bool-cases (j == k)) [
  | inl same ↦
      let here : b ≡ a = ground (arith, h, same) in
      ground (
        arith,
        here,
        e1,
        e2,
        e3,
        ==_iff a.organization_id o,
        ==_iff a.workspace_id w,
        ==_iff a.name n,
      )
  | inr other ↦
      let below = latest_version-le k a o w n rs (ground (arith, h, other)) e1 e2 e3 in
      ground (arith, below)
]

module _ (p : Platform) where
  open p.uuids use {get, insert, rows, get-insert, get-rows, get-empty}

  -- A new policy has a higher version than every stored one of its name, up to the largest `u32`.
  pub new_policy-version :
      (call : Call) (new : NewGuardrailPolicy) (db : Database p) (k : Uuid) (a : GuardrailPolicy)
      → get k db.guardrail_policies ≡ some a
      → SameName a (new_policy p call new db)
      → (a.version < (new_policy p call new db).version)
        ⊎ ((new_policy p call new db).version ≡ 2 ^ 32 - 1)
  unfolding new_policy
  new_policy-version call new db k a h s =
      let below =
        latest_version-le k a new.organization_id new.workspace_id new.name
          (rows db.guardrail_policies) (sym (get-rows k db.guardrail_policies) ∙ h) s.organization
          s.workspace s.name in
      ground (arith, below)

  SameName-sym : {a b : GuardrailPolicy} → SameName a b → SameName b a
  SameName-sym s = record {
    organization = sym s.organization;
    workspace = sym s.workspace;
    name = sym s.name;
  }

  -- Two policies of one name with one version, which is not the largest.
  pub record SameVersion (a b : GuardrailPolicy) : Type 0 where
    pub names : SameName a b
    pub versions : a.version ≡ b.version
    pub below : a.version < 2 ^ 32 - 1

  abbrev IsNumbered : Database p → Type 0
  IsNumbered db = IsExclusive p SameVersion db.guardrail_policies

  create-IsNumbered :
      (call : Call) (new : NewGuardrailPolicy) (db db' : Database p)
      → db'.guardrail_policies
        ≡ insert (call.ids 0) (new_policy p call new db) db.guardrail_policies
      → IsNumbered db
      → IsNumbered db'
  create-IsNumbered call new db db' e =
      add-IsExclusive p SameVersion (call.ids 0) (new_policy p call new db) db.guardrail_policies
        db'.guardrail_policies e
        (λ k b h s.
          ground (
            arith,
            s.versions,
            s.below,
            new_policy-version call new db k b h (SameName-sym s.names),
          ))
        (λ k b h s.
          ground (arith, s.versions, s.below, new_policy-version call new db k b h s.names))

  PolicyStep-IsNumbered :
      {db db' : Database p} → PolicyStep p db db' → IsNumbered db → IsNumbered db'
  PolicyStep-IsNumbered {db} {db'} (created call new policy fresh e) n =
      let (rules, made, stored) = create_guardrail_policy-ok p call new db e in
      create-IsNumbered call new db db' stored n
  PolicyStep-IsNumbered {db} {db'} (transitioned call id o w l r e) n =
      elim (transition_guardrail_policy-ok p call id o w l db e) [
        | inl (missing, same) ↦ subst IsNumbered (sym same) n
        | inr t ↦
            replace-IsExclusive p SameVersion id t.policy
              (record t.policy { lifecycle = l; updated_at_unix_ms = call.clock 0 })
              db.guardrail_policies db'.guardrail_policies t.found t.stored
              (λ b s. record {
                names = record {
                  organization = s.names.organization;
                  workspace = s.names.workspace;
                  name = s.names.name;
                };
                versions = s.versions;
                below = s.below;
              })
              (λ b s. record {
                names = record {
                  organization = s.names.organization;
                  workspace = s.names.workspace;
                  name = s.names.name;
                };
                versions = s.versions;
                below = s.below;
              })
              n
      ]
  PolicyStep-IsNumbered {db} {db'} (elsewhere e) n = subst (IsExclusive p SameVersion) (sym e) n

  -- From an empty database on, a name and a version below the largest `u32` belong to one policy of
  -- a workspace at most.
  pub PolicyReach-one :
      {db : Database p} (j k : Uuid) (a b : GuardrailPolicy)
      → PolicyReach p (empty_database p) db
      → get j db.guardrail_policies ≡ some a
      → get k db.guardrail_policies ≡ some b
      → SameName a b
      → a.version ≡ b.version
      → a.version < 2 ^ 32 - 1
      → j ≡ k
  PolicyReach-one j k a b r hj hk s v l =
      numbered r j k a b hj hk (record { names = s; versions = v; below = l })
    where
      numbered : {db1 : Database p} → PolicyReach p (empty_database p) db1 → IsNumbered db1
      numbered here =
          empty-IsExclusive p SameVersion p.uuids.empty (get-empty {V = GuardrailPolicy})
      numbered (next r s) = PolicyStep-IsNumbered s (numbered r)
