-- ===== src/Memory/Lifecycle.antt =====
-- How one memory can change: what `check_transition` lets through, and what stays the same.
use hangar_ia.Prelude.{
  ◌∙◌, >>=-eq-ok, >>-eq-ok, ensure-ok, context-eq-ok, nat_eq, not, ◌==◌, ensure, context, ℕ, ◌+◌,
  ◌≤◌, ◌<◌, String, ◌≡◌, ◌≢◌, refl, true, false, some, ok, ◌⊎◌, inl, inr, arith, is_some, is_blank,
  in_unit_interval, if◌then◌else◌,
}
use hangar_ia.Platform.{Uuid, Platform, Call}
use hangar_ia.Types.Memory.{
  Memory, MemoryTransition, MemoryLifecycle, MemoryRetention, proposed, validated, published,
  superseded, expired,
}
use hangar_ia.Database.{Database}
use hangar_ia.Scope.{in_scope}
use hangar_ia.Memory.{check_replacement, check_transition}
use hangar_ia.Memory.Records.{
  is_valid_transition, is_retrievable, is_due, expire_memory, moved, ensure_retention,
}

-- How far a memory has come; nothing leads out of the last rank.
unfoldable pub rank : MemoryLifecycle → ℕ
rank proposed = 0
rank validated = 1
rank published = 2
rank superseded = 3
rank expired = 3

pub rank-le : (a : MemoryLifecycle) → rank a ≤ 3
unfolding rank
rank-le a = ground arith

pub is_valid_transition-rank :
    (a b : MemoryLifecycle) → is_valid_transition a b ≡ true → rank a < rank b
unfolding is_valid_transition rank
is_valid_transition-rank a b h = ground arith

-- What a change of a memory may do. The text, its digest, its scope, its author, its confidence and
-- its provenance stay.
pub record Evolves (m m' : Memory) : Type 0 where
  pub id : m'.id ≡ m.id
  pub organization_id : m'.organization_id ≡ m.organization_id
  pub workspace_id : m'.workspace_id ≡ m.workspace_id
  pub content : m'.content ≡ m.content
  pub content_sha256 : m'.content_sha256 ≡ m.content_sha256
  pub source : m'.source ≡ m.source
  pub created_by : m'.created_by ≡ m.created_by
  pub confidence : m'.confidence ≡ m.confidence
  pub provenance : m'.provenance ≡ m.provenance
  pub created_at : m'.created_at_unix_ms ≡ m.created_at_unix_ms
  -- nothing happened, or the lifecycle went forward
  pub progress : (m' ≡ m) ⊎ (rank m.lifecycle < rank m'.lifecycle)

pub Evolves-refl : (m : Memory) → Evolves m m
Evolves-refl m = record {
  id = refl;
  organization_id = refl;
  workspace_id = refl;
  content = refl;
  content_sha256 = refl;
  source = refl;
  created_by = refl;
  confidence = refl;
  provenance = refl;
  created_at = refl;
  progress = inl refl;
}

progress_trans :
    (a b c : Memory)
    → (b ≡ a) ⊎ (rank a.lifecycle < rank b.lifecycle)
    → (c ≡ b) ⊎ (rank b.lifecycle < rank c.lifecycle)
    → (c ≡ a) ⊎ (rank a.lifecycle < rank c.lifecycle)
progress_trans a b c (inl p) (inl q) = inl (q ∙ p)
progress_trans a b c (inl p) (inr q) = inr (rw (← p) q)
progress_trans a b c (inr p) (inl q) = inr (rw q p)
progress_trans a b c (inr p) (inr q) = inr (omega arith)

pub Evolves-trans : {a b c : Memory} → Evolves a b → Evolves b c → Evolves a c
Evolves-trans {a} {b} {c} p q = record {
  id = q.id ∙ p.id;
  organization_id = q.organization_id ∙ p.organization_id;
  workspace_id = q.workspace_id ∙ p.workspace_id;
  content = q.content ∙ p.content;
  content_sha256 = q.content_sha256 ∙ p.content_sha256;
  source = q.source ∙ p.source;
  created_by = q.created_by ∙ p.created_by;
  confidence = q.confidence ∙ p.confidence;
  provenance = q.provenance ∙ p.provenance;
  created_at = q.created_at ∙ p.created_at;
  progress = progress_trans a b c p.progress q.progress;
}

pub Evolves-moved :
    (now : ℕ) (t : MemoryTransition) (m : Memory)
    → is_valid_transition m.lifecycle t.lifecycle ≡ true
    → Evolves m (moved now t m)
unfolding moved
Evolves-moved now t m h = record {
  id = refl;
  organization_id = refl;
  workspace_id = refl;
  content = refl;
  content_sha256 = refl;
  source = refl;
  created_by = refl;
  confidence = refl;
  provenance = refl;
  created_at = refl;
  progress = inr (is_valid_transition-rank m.lifecycle t.lifecycle h);
}

is_due-rank : (now : ℕ) (m : Memory) → is_due now m ≡ true → rank m.lifecycle < 3
unfolding is_due rank
is_due-rank now m h = ground arith

pub Evolves-expire_memory :
    (now : ℕ) (m : Memory) → is_due now m ≡ true → Evolves m (expire_memory now m)
unfolding expire_memory rank
Evolves-expire_memory now m h = record {
  id = refl;
  organization_id = refl;
  workspace_id = refl;
  content = refl;
  content_sha256 = refl;
  source = refl;
  created_by = refl;
  confidence = refl;
  provenance = refl;
  created_at = refl;
  progress = inr (is_due-rank now m h);
}

-- A stored memory that is in order.
pub record IsWellFormed (k : Uuid) (m : Memory) : Type 0 where
  pub id : m.id ≡ k
  pub scoped : (is_blank m.organization_id ≡ false) × (is_blank m.workspace_id ≡ false)
  pub content : is_blank m.content ≡ false
  pub confidence : in_unit_interval m.confidence ≡ true
  pub retention : m.retention ≡ (
      if is_some m.expires_at_unix_ms
      then MemoryRetention.expire_at
      else MemoryRetention.indefinite)
  pub version : (1 ≤ m.version) × (m.version ≤ rank m.lifecycle + 1)
  pub replacement : m.lifecycle ≡ superseded → is_some m.superseded_by ≡ true

module _ (p : Platform) where
  open p.uuids use {get}

  -- What the tests of a transition to `superseded` have seen.
  pub record Replaced (call : Call) (o w : String) (t : MemoryTransition) (m : Memory)
      (db : Database p) : Type 0 where
    pub by : Uuid
    pub named : t.superseded_by ≡ some by
    pub other : by ≢ m.id
    pub replacement : Memory
    pub stored : get by db.memories ≡ some replacement
    pub scoped : in_scope replacement.organization_id replacement.workspace_id o w ≡ true
    pub retrievable : is_retrievable (call.clock 0) replacement ≡ true

  pub check_transition-ok :
      (call : Call) (o w : String) (t : MemoryTransition) (m : Memory) (db : Database p)
      → check_transition p call o w t m db ≡ ok tt
      → (in_scope m.organization_id m.workspace_id o w ≡ true)
        × (is_valid_transition m.lifecycle t.lifecycle ≡ true)
        × (ensure_retention (call.clock 1) t.expires_at_unix_ms ≡ ok tt)
  unfolding check_transition
  check_transition-ok call o w t m db h = ground arith

  not_equal : (a b : ℕ) → not (a == b) ≡ true → a ≢ b
  not_equal a b h = ground arith

  check_replacement-ok :
      (call : Call) (o w : String) (t : MemoryTransition) (m : Memory) (db : Database p)
      → check_replacement p (call.clock 0) o w t m db ≡ ok tt
      → Replaced call o w t m db
  unfolding check_replacement
  check_replacement-ok call o w t m db h =
      let a = >>=-eq-ok (context t.superseded_by "superseded memory requires superseded_by") _ h in
      let b = >>-eq-ok (ensure (not (a.0 == m.id)) "a memory cannot supersede itself") _ a.2 in
      let c = >>=-eq-ok (context (get a.0 db.memories) "replacement memory not found") _ b.1 in
      let d = >>-eq-ok _ _ c.2 in
      let e = >>-eq-ok _ _ d.1 in
      record {
        by = a.0;
        named = context-eq-ok _ _ a.1;
        other = not_equal a.0 m.id (ensure-ok _ _ b.0);
        replacement = c.0;
        stored = context-eq-ok _ _ c.1;
        scoped = ensure-ok _ _ d.0;
        retrievable = ensure-ok _ _ e.0;
      }

  -- A memory is superseded only by another memory of the same workspace, published and unexpired.
  pub check_transition-Replaced :
      (call : Call) (o w : String) (t : MemoryTransition) (m : Memory) (db : Database p)
      → check_transition p call o w t m db ≡ ok tt
      → t.lifecycle ≡ superseded
      → Replaced call o w t m db
  unfolding check_transition
  check_transition-Replaced call o w t m db h e =
      check_replacement-ok call o w t m db (ground arith)
