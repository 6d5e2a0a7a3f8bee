-- ===== src/Memory/Reading.antt =====
-- What `get_memory` returns.
use hangar_ia.Prelude.{
  ℕ, ◌+◌, ◌%◌, ◌^◌, ◌≤◌, String, ◌≡◌, refl, Bool-cases, inl, inr, leb, is_some_and, true, false,
  Option, none, some, ok, arith, then_some, string_eq, ap, ◌∙◌, subst,
}
use hangar_ia.Platform.{Uuid, Platform, Call}
use hangar_ia.Types.Memory.{
  Memory, MemoryLifecycle, proposed, validated, published, superseded, expired,
}
use hangar_ia.Database.{Database}
use hangar_ia.Scope.{in_scope}
use hangar_ia.Scope.Laws.{in_scope-eq}
use hangar_ia.Memory.{get_memory}
use hangar_ia.Memory.Records.{is_open, is_due, expire_memory}
use hangar_ia.Memory.Expiry.{Swept, expire_due_memories_lem, swept}

-- What a scope may see of a row.
abbrev pub visible : String → String → Option Memory → Option Memory
visible o w none = none
visible o w (some m) = then_some (in_scope m.organization_id m.workspace_id o w) m

visible-some :
    (o w : String) (r : Option Memory) (m : Memory)
    → visible o w r ≡ some m
    → (r ≡ some m) × (m.organization_id ≡ o) × (m.workspace_id ≡ w)
visible-some o w none m h = absurd (cc)
visible-some o w (some x) m h =
    let s : in_scope x.organization_id x.workspace_id o w ≡ true = ground arith in
    let e : x ≡ m = ground arith in
    (
      ap some e,
      subst (λ (y : Memory). y.organization_id ≡ o) e (in_scope-eq _ _ o w s).0,
      subst (λ (y : Memory). y.workspace_id ≡ w) e (in_scope-eq _ _ o w s).1,
    )

-- A memory at its end: it was replaced or its retention has ended.
pub data IsFinal : MemoryLifecycle → Type 0 where
  replaced : IsFinal superseded
  ended : IsFinal expired

-- What a read makes of a stored memory: one whose expiry has come is expired, unless it is final
-- already, and every other is as it was.
pub data Read (now : ℕ) (x m : Memory) : Type 0 where
  as_stored :
      m ≡ x
      → ((t : ℕ) → x.expires_at_unix_ms ≡ some t → t ≤ now → IsFinal x.lifecycle)
      → Read now x m
  just_expired :
      (t : ℕ)
      → x.expires_at_unix_ms ≡ some t
      → t ≤ now
      → ¬ IsFinal x.lifecycle
      → m ≡ record x {
        lifecycle = expired;
        updated_at_unix_ms = now;
        version = (x.version + 1) % 2 ^ 32;
      }
      → Read now x m

not_open-IsFinal : (l : MemoryLifecycle) → is_open l ≡ false → IsFinal l
not_open-IsFinal proposed h = absurd (cc)
not_open-IsFinal validated h = absurd (cc)
not_open-IsFinal published h = absurd (cc)
not_open-IsFinal superseded h = replaced
not_open-IsFinal expired h = ended

IsFinal-not_open : (l : MemoryLifecycle) → IsFinal l → is_open l ≡ false
IsFinal-not_open proposed x = elim x [ ]
IsFinal-not_open validated x = elim x [ ]
IsFinal-not_open published x = elim x [ ]
IsFinal-not_open superseded replaced = refl
IsFinal-not_open expired ended = refl

due_at :
    (now : ℕ) (o : Option ℕ)
    → is_some_and (λ t. leb t now) o ≡ true
    → (t : ℕ) × (o ≡ some t) × (t ≤ now)
due_at now none h = absurd (cc)
due_at now (some t) h = (t, refl, ground (arith, h))

swept-Read :
    (now : ℕ) (r : Option Memory) (m : Memory)
    → swept now r ≡ some m
    → (x : Memory) × (r ≡ some x) × Read now x m
unfolding is_due expire_memory
swept-Read now none m h = absurd (cc)
swept-Read now (some x) m h = elim (Bool-cases (is_due now x)) [
  | inl due ↦
      let (t, at, past) = due_at now x.expires_at_unix_ms (ground (arith, due)) in
      let busy : is_open x.lifecycle ≡ true = ground (arith, due) in
      (
        x,
        refl,
        just_expired t at past (λ f. ground (arith, IsFinal-not_open x.lifecycle f, busy))
            (ground (arith, h, due)),
      )
  | inr kept ↦ (
    x,
    refl,
    as_stored (ground (arith, h, kept))
        (λ t at past. not_open-IsFinal x.lifecycle (ground (arith, kept, at, past))),
  )
]

module _ (p : Platform) where
  open p.uuids use {get}

  -- What a successful read gives: the memory as it is now stored, in the scope of the request, which
  -- is the one that was stored, expired if its expiry has come.
  pub record IsCurrent (call : Call) (id : Uuid) (o w : String) (m : Memory) (db db' : Database p)
      : Type 0 where
    pub stored : get id db'.memories ≡ some m
    pub organization : m.organization_id ≡ o
    pub workspace : m.workspace_id ≡ w
    pub before : Memory
    pub found : get id db.memories ≡ some before
    pub current : Read (call.clock 0) before m

  -- A read never fails: it sweeps the table, and returns what the scope may see of the swept row.
  pub get_memory_lem :
      (call : Call) (id : Uuid) (o w : String) (db : Database p)
      → (n : ℕ) × (db' : Database p) × (get_memory p call id o w db
          ≡ ok (visible o w (swept (call.clock 0) (get id db.memories)), db'))
        × Swept p call db n db'
  unfolding get_memory
  get_memory_lem call id o w db =
      let s = expire_due_memories_lem p call db in (s.0, s.1, rw s.2 (rw (s.3.each id)), s.3)

  -- The memory that a read returns belongs to the scope of the request and is stored. It is the one
  -- that was stored, unless its expiry had come and it was not superseded or expired: then it is
  -- returned as expired, one version on.
  pub get_memory-IsCurrent :
      (call : Call) (id : Uuid) (o w : String) (m : Memory) (db db' : Database p)
      → get_memory p call id o w db ≡ ok (some m, db')
      → IsCurrent call id o w m db db'
  get_memory-IsCurrent call id o w m db db' h =
      let s = get_memory_lem call id o w db in
      let r = swept (call.clock 0) (get id db.memories) in
      let a : visible o w r ≡ some m = ground (arith, s.2, h) in
      let b : s.1 ≡ db' = ground (arith, s.2, h) in
      let v = visible-some o w r m a in
      let (x, found, read) = swept-Read (call.clock 0) (get id db.memories) m v.0 in
      record {
        stored = subst (λ (d : Database p). get id d.memories ≡ some m) b (s.3.each id ∙ v.0);
        organization = v.1;
        workspace = v.2;
        before = x;
        found = found;
        current = read;
      }
