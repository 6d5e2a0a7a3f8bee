-- ===== src/Context/Packages.antt =====
-- What a context package holds.
use hangar_ia.Prelude.{
  ℕ, ◌≤◌, ◌<◌, ◌^◌, String, true, not, ◌&&◌, ◌≡◌, sym, subst, Option, some, List, [], ◌∷◌, All,
  length, len, ok, ensure, ensure-ok, >>-eq-ok, >>=-eq-ok, Outcome-cases, leb, leb→le, is_empty,
  inl, inr, arith,
}
use hangar_ia.Platform.{Uuid, Platform, Call}
use hangar_ia.Types.Access.{Principal}
use hangar_ia.Types.Sharing.{ContextPackage}
use hangar_ia.Types.Memory.{Memory}
use hangar_ia.Database.{Database}
use hangar_ia.Scope.{ensure_scope}
use hangar_ia.Memory.Expiry.{expire_due_memories_lem}
use hangar_ia.Context.{
  Search, Candidate, select_items, ranked, check_request, fill_package, compile_context_package,
}
use hangar_ia.Context.Budget.{IsSmall, tokens_of, select_items-WithinBudget}
use hangar_ia.Context.Access.{MayRead, FromReadable, ranked-All, select_items-All}

module _ (p : Platform) where
  open p.uuids use {get}

  -- A package: its items stay within the budget of tokens and are fifty at most, and each is made from
  -- a memory that the principal may read.
  pub record IsPackage (principal : Principal) (workspace : String) (call : Call) (budget : ℕ)
      (pkg : ContextPackage) (db : Database p) : Type 0 where
    pub counted : pkg.estimated_tokens ≡ tokens_of pkg.items
    pub within : pkg.estimated_tokens ≤ budget
    pub few : length pkg.items ≤ 50
    pub readable : All (FromReadable p principal workspace call db) pkg.items

  MayRead-IsSmall :
      (principal : Principal) (workspace : String) (call : Call) (db : Database p)
      (cs : List Candidate)
      → ((k : Uuid) (m : Memory) → get k db.memories ≡ some m → len m.content < 2 ^ 63)
      → All (MayRead p principal workspace call db) cs
      → All IsSmall cs
  MayRead-IsSmall principal workspace call db [] small a = tt
  MayRead-IsSmall principal workspace call db (c ∷ cs) small a =
      (small a.0.key c.memory a.0.stored, MayRead-IsSmall principal workspace call db cs small a.1)

  -- The budget of a package that was compiled, its selection, and the swept database.
  record Compiled (engine : Search) (call : Call) (principal : Principal) (workspace query : String)
      (budget limit : ℕ) (pkg : ContextPackage) (db' : Database p) : Type 0 where
    pub allowed : (leb 1 budget && leb budget 8192) ≡ true
    pub ranks : String → Option ℕ
    pub selected :
        (pkg.items
          ≡ (select_items budget 0
              (ranked p engine ranks call principal workspace query limit db')).0)
        × (pkg.estimated_tokens
            ≡ (select_items budget 0
                (ranked p engine ranks call principal workspace query limit db')).1)

  fill_package-ok :
      (engine : Search) (call : Call) (principal : Principal) (workspace query : String)
      (budget limit : ℕ) (db : Database p) (pkg : ContextPackage)
      → check_request principal workspace budget ≡ ok tt
      → fill_package p engine call principal workspace query budget limit db ≡ ok pkg
      → Compiled engine call principal workspace query budget limit pkg db
  unfolding fill_package check_request
  fill_package-ok engine call principal workspace query budget limit db pkg passed done =
      let (a, h1) =
        >>-eq-ok (ensure (not (is_empty (engine.terms query))) "query cannot be empty") _ done in
      let (ranks, b, h2) = >>=-eq-ok engine.local_source_ranks _ h1 in
      let (c, d) = >>-eq-ok (ensure_scope principal.organization_id workspace) _ passed in
      let (e, f) =
        >>-eq-ok
          (ensure (leb 1 budget && leb budget 8192) "token_budget must be between 1 and 8192") _
          d in
      record {
        allowed = ensure-ok _ _ e;
        ranks = ranks;
        selected = (ground (arith, h2), ground (arith, h2));
      }

  compile_context_package-ok :
      (engine : Search) (expiry call : Call) (principal : Principal) (workspace query : String)
      (budget limit : ℕ) (db : Database p) (pkg : ContextPackage) (db' : Database p)
      → compile_context_package p engine expiry call principal workspace query budget limit db
        ≡ (ok pkg, db')
      → Compiled engine call principal workspace query budget limit pkg db'
  unfolding compile_context_package
  compile_context_package-ok engine expiry call principal workspace query budget limit db pkg db'
        h =
      elim (Outcome-cases (check_request principal workspace budget)) [
        | inr (message, refused) ↦
            absurd (ground (arith, rw (refused, compile_context_package) at h))
        | inl (u, passed) ↦
            let s = expire_due_memories_lem p expiry db in
            let k = rw (passed, s.2, compile_context_package) at h in
            let same : s.1 ≡ db' = ground (arith, k) in
            let done : fill_package p engine call principal workspace query budget limit s.1
                ≡ ok pkg =
              ground (arith, k) in
            subst (Compiled engine call principal workspace query budget limit pkg) same (
              fill_package-ok engine call principal workspace query budget limit s.1 pkg passed
                done)
      ]

  -- Under contents of less than 2^63 bytes, a package that is compiled counts the tokens of its items,
  -- is within the budget, and holds at most fifty items. Each item is made from a memory that is stored
  -- after the expiry, of the organization of the principal, published and unexpired, and either of the
  -- workspace of the request or granted by a stored share that is active for the principal.
  pub compile_context_package-IsPackage :
      (engine : Search) (expiry call : Call) (principal : Principal) (workspace query : String)
      (budget limit : ℕ) (db : Database p) (pkg : ContextPackage) (db' : Database p)
      → ((k : Uuid) (m : Memory) → get k db'.memories ≡ some m → len m.content < 2 ^ 63)
      → compile_context_package p engine expiry call principal workspace query budget limit db
        ≡ (ok pkg, db')
      → IsPackage principal workspace call budget pkg db'
  compile_context_package-IsPackage engine expiry call principal workspace query budget limit db pkg
        db' small h =
      let c =
        compile_context_package-ok engine expiry call principal workspace query budget limit db pkg
          db' h in
      let (may, few) = ranked-All p principal workspace call db' engine c.ranks query limit in
      let cs = ranked p engine c.ranks call principal workspace query limit db' in
      let sum =
        select_items-WithinBudget budget 0 cs (leb→le budget 8192 (ground (arith, c.allowed)))
          (omega arith) (MayRead-IsSmall principal workspace call db' cs small may) in
      let (all, less) = select_items-All p principal workspace call db' budget 0 cs may in
      record {
        counted = ground (arith, sum.counted, c.selected.0, c.selected.1);
        within = ground (arith, sum.within, c.selected.1);
        few = ground (arith, less, few, c.selected.0);
        readable = subst (All (FromReadable p principal workspace call db')) (sym c.selected.0) all;
      }
