-- ===== src/Guardrails/Steps.antt =====
-- The operations on policies as steps of a database.
use hangar_ia.Prelude.{String, Option, none, ◌≡◌, ok, nat_eq, string_eq}
use hangar_ia.Platform.{Uuid, Platform, Call}
use hangar_ia.Types.Catalog.{PolicyLifecycle, GuardrailPolicy, NewGuardrailPolicy}
use hangar_ia.Database.{Database}
use hangar_ia.Guardrails.{create_guardrail_policy, transition_guardrail_policy}

module _ (p : Platform) where
  open p.uuids use {get, insert, rows, get-insert, get-rows, get-empty}

  -- One operation: a creation under an id that no policy has, a transition, or anything that leaves
  -- the policies alone.
  pub data PolicyStep : Database p → Database p → Type 1 where
    created :
        {db db' : Database p} (call : Call) (new : NewGuardrailPolicy) (policy : GuardrailPolicy)
        → get (call.ids 0) db.guardrail_policies ≡ none
        → create_guardrail_policy p call new db ≡ ok (policy, db')
        → PolicyStep db db'
    transitioned :
        {db db' : Database p} (call : Call) (id : Uuid) (o w : String) (l : PolicyLifecycle)
        (r : Option GuardrailPolicy)
        → transition_guardrail_policy p call id o w l db ≡ ok (r, db')
        → PolicyStep db db'
    elsewhere :
        {db db' : Database p} → db'.guardrail_policies ≡ db.guardrail_policies → PolicyStep db db'

  pub data PolicyReach (db : Database p) : Database p → Type 1 where
    here : PolicyReach db db
    next : {db1 db2 : Database p} → PolicyReach db db1 → PolicyStep db1 db2 → PolicyReach db db2
