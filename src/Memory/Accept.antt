-- ===== src/Memory/Accept.antt =====
-- Exactly which transitions are accepted, and what a read can return.
use hangar_ia.Prelude.{
  Bool-cases, ℕ, ◌+◌, ◌≤◌, ◌<◌, String, ◌≡◌, ◌≢◌, ◌↔◌, refl, true, not, Option, none, some, ok, inl,
  inr, ◌⊎◌, arith, ==_iff, nat_eq, string_eq, ◌==◌,
}
use hangar_ia.Platform.{Platform, Call}
use hangar_ia.Types.Memory.{
  Memory, MemoryTransition, MemoryLifecycle, proposed, validated, published, superseded, expired,
}
use hangar_ia.Database.{Database}
use hangar_ia.Scope.{in_scope}
use hangar_ia.Scope.Laws.{in_scope-eq}
use hangar_ia.Memory.{check_replacement, check_transition}
use hangar_ia.Memory.Records.{
  is_valid_transition, ensure_retention, max_memory_retention_ms, is_superseded,
}
use hangar_ia.Memory.Lifecycle.{Replaced, check_transition-ok, check_transition-Replaced}

-- The lifecycle of docs/memory-lifecycle.md: review moves a memory forward one step at a time, only a
-- published memory is superseded, and a memory expires from any state before the last ones.
pub data Leads (a b : MemoryLifecycle) : Type 0 where
  validate : a ≡ proposed → b ≡ validated → Leads a b
  publish : a ≡ validated → b ≡ published → Leads a b
  supersede : a ≡ published → b ≡ superseded → Leads a b
  expire : (a ≢ superseded) → (a ≢ expired) → b ≡ expired → Leads a b

is_valid_transition-Leads : (a b : MemoryLifecycle) → is_valid_transition a b ≡ true → Leads a b
unfolding is_valid_transition
is_valid_transition-Leads proposed validated h = validate refl refl
is_valid_transition-Leads validated published h = publish refl refl
is_valid_transition-Leads published superseded h = supersede refl refl
is_valid_transition-Leads proposed expired h = expire (λ e. cc) (λ e. cc) refl
is_valid_transition-Leads validated expired h = expire (λ e. cc) (λ e. cc) refl
is_valid_transition-Leads published expired h = expire (λ e. cc) (λ e. cc) refl
is_valid_transition-Leads _ _ h = absurd (cc)

Leads-is_valid_transition : (a b : MemoryLifecycle) → Leads a b → is_valid_transition a b ≡ true
unfolding is_valid_transition
Leads-is_valid_transition a b (validate p q) = rw (p, q)
Leads-is_valid_transition a b (publish p q) = rw (p, q)
Leads-is_valid_transition a b (supersede p q) = rw (p, q)
Leads-is_valid_transition a b (expire p q e) = ground (arith, p, q, e)

-- A new expiry lies after the time of the call, by a year at most.
abbrev pub WithinYear : ℕ → Option ℕ → Type 0
WithinYear now none = Unit
WithinYear now (some t) = (now < t) × (t ≤ now + max_memory_retention_ms)

ensure_retention_iff :
    (now : ℕ) (o : Option ℕ) → (ensure_retention now o ≡ ok tt) ↔ WithinYear now o
unfolding ensure_retention
ensure_retention_iff now none = (λ h. tt, λ h. refl)
ensure_retention_iff now (some t) = (λ h. ground arith, λ h. ground arith)

not_beq : (a b : ℕ) → a ≢ b → not (a == b) ≡ true
not_beq a b h = ground arith

is_superseded-eq : (a : MemoryLifecycle) → is_superseded a ≡ true → a ≡ superseded
is_superseded-eq a h = ground arith

module _ (p : Platform) where
  open p.uuids use {get}

  pub record Allowed (call : Call) (o w : String) (t : MemoryTransition) (m : Memory)
      (db : Database p) : Type 0 where
    pub organization : m.organization_id ≡ o
    pub workspace : m.workspace_id ≡ w
    pub leads : Leads m.lifecycle t.lifecycle
    pub replaced : (t.lifecycle ≢ superseded) ⊎ Replaced p call o w t m db
    pub retention : WithinYear (call.clock 1) t.expires_at_unix_ms

  Replaced-check :
      (call : Call) (o w : String) (t : MemoryTransition) (m : Memory) (db : Database p)
      → Replaced p call o w t m db
      → check_replacement p (call.clock 0) o w t m db ≡ ok tt
  unfolding check_replacement
  Replaced-check call o w t m db r =
      let other : not (r.by == m.id) ≡ true = not_beq r.by m.id r.other in
      rw (r.named, other, r.stored, r.scoped, r.retrievable)

  -- A transition passes its tests exactly when the memory belongs to the scope of the request, the
  -- lifecycle leads from the one state to the other, a memory that takes the place of this one is
  -- another memory of the workspace, published and unexpired at the first time of the call, and a new
  -- expiry lies after the second time of the call, by a year at most.
  pub check_transition_iff :
      (call : Call) (o w : String) (t : MemoryTransition) (m : Memory) (db : Database p)
      → (check_transition p call o w t m db ≡ ok tt) ↔ Allowed call o w t m db
  unfolding check_transition
  check_transition_iff call o w t m db = (
    λ h.
        let tests = check_transition-ok p call o w t m db h in
        let scope = in_scope-eq _ _ o w tests.0 in
        record {
          organization = scope.0;
          workspace = scope.1;
          leads = is_valid_transition-Leads _ _ tests.1;
          replaced = elim (Bool-cases (is_superseded t.lifecycle)) [
            | inl s ↦
                inr (check_transition-Replaced p call o w t m db h (is_superseded-eq t.lifecycle s))
            | inr n ↦ inl (λ q. ground (arith, n, q))
          ];
          retention = (ensure_retention_iff _ _).0 tests.2;
        },
    λ a.
        let scope : in_scope m.organization_id m.workspace_id o w ≡ true = ground (
          arith,
          ==_iff m.organization_id o,
          ==_iff m.workspace_id w,
          a.organization,
          a.workspace,
        ) in
        let leads = Leads-is_valid_transition m.lifecycle t.lifecycle a.leads in
        let retention = (ensure_retention_iff (call.clock 1) t.expires_at_unix_ms).1 a.retention in
        elim (Bool-cases (is_superseded t.lifecycle)) [
          | inl s ↦
              let r : check_replacement p (call.clock 0) o w t m db ≡ ok tt = elim a.replaced [
                | inl other ↦ absurd (other (is_superseded-eq t.lifecycle s))
                | inr x ↦ Replaced-check call o w t m db x
              ] in
              rw (scope, leads, s, r, retention)
          | inr n ↦ rw (scope, leads, n, retention)
        ],
  )
