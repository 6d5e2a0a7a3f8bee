-- ===== src/Memory/History.antt =====
-- What the operations on memories can do to one stored memory.
use hangar_ia.Prelude.{
  ℕ, ◌≡◌, some, ◌⊎◌, inl, inr, arith, ◌∙◌, ap, subst, ==_iff, nat_eq, ◌==◌, Bool-cases,
}
use hangar_ia.Platform.{Uuid, Platform}
use hangar_ia.Types.Memory.{Memory, MemoryLifecycle, superseded}
use hangar_ia.Database.{Database}
use hangar_ia.Memory.Records.{new_memory, moved, expire_memory, is_due}
use hangar_ia.Memory.Lifecycle.{
  rank, rank-le, Evolves, Evolves-refl, Evolves-trans, Evolves-moved, Evolves-expire_memory,
  check_transition-ok,
}
use hangar_ia.Memory.Outcomes.{create_memory-ok, transition_memory-ok}
use hangar_ia.Memory.Expiry.{swept}
use hangar_ia.Memory.Invariant.{
  MemoryStep, created, transitioned, expired, elsewhere, Reach, here, next, swept_each,
}

rank-final : (a : MemoryLifecycle) → (a ≡ superseded) ⊎ (a ≡ MemoryLifecycle.expired) → rank a ≡ 3
unfolding rank
rank-final a h = ground arith

module _ (p : Platform) where
  open p.uuids use {get, insert, get-insert}

  -- The memory under a key has a successor that it could become.
  pub record Kept (k : Uuid) (m : Memory) (db' : Database p) : Type 0 where
    pub memory : Memory
    pub stored : get k db'.memories ≡ some memory
    pub evolves : Evolves m memory

  insert-Kept :
      (j k : Uuid) (m x : Memory) (db db' : Database p)
      → get k db.memories ≡ some m
      → db'.memories ≡ insert j x db.memories
      → (j ≡ k → Evolves m x)
      → Kept k m db'
  insert-Kept j k m x db db' h e v = elim (Bool-cases (j == k)) [
    | inl same ↦ record {
      memory = x;
      stored = rw (e, get-insert, same);
      evolves = v ((==_iff j k).0 same);
    }
    | inr other ↦ record {
      memory = m;
      stored = rw (e, get-insert, other) h;
      evolves = Evolves-refl m;
    }
  ]

  swept-Kept :
      (now : ℕ) (k : Uuid) (m : Memory) (db' : Database p)
      → get k db'.memories ≡ swept now (some m)
      → Kept k m db'
  swept-Kept now k m db' h = elim (Bool-cases (is_due now m)) [
    | inl due ↦ record {
      memory = expire_memory now m;
      stored = ground (arith, h, due);
      evolves = Evolves-expire_memory now m due;
    }
    | inr kept ↦ record { memory = m; stored = ground (arith, h, kept); evolves = Evolves-refl m }
  ]

  MemoryStep-Kept :
      {db db' : Database p} (k : Uuid) (m : Memory)
      → get k db.memories ≡ some m
      → MemoryStep p db db'
      → Kept k m db'
  MemoryStep-Kept {db} {db'} k m h (created call new x fresh e) =
      let c = create_memory-ok p call new db e in
      insert-Kept (call.ids 0) k m (new_memory p call new) db db' h c.stored (λ q. absurd (cc))
  MemoryStep-Kept {db} {db'} k m h (transitioned call id o w t r e) =
      elim (transition_memory-ok p call id o w t db e) [
        | inl (missing, same) ↦ record { memory = m; stored = rw same h; evolves = Evolves-refl m }
        | inr c ↦
            let tests = check_transition-ok p call o w t c.memory db c.checked in
            insert-Kept id k m (moved (call.clock 2) t c.memory) db db' h c.stored (λ q.
              let same : c.memory ≡ m = ground (arith, c.found, q, h) in
              subst (λ y. Evolves y (moved (call.clock 2) t c.memory)) same
                (Evolves-moved (call.clock 2) t c.memory tests.1))
      ]
  MemoryStep-Kept {db} {db'} k m h (elsewhere same) = record {
    memory = m;
    stored = rw same h;
    evolves = Evolves-refl m;
  }
  MemoryStep-Kept {db} {db'} k m h (expired call n e) =
      swept-Kept (call.clock 0) k m db'
        (swept_each p call n db db' e k ∙ ap (swept (call.clock 0)) h)

  -- Whatever operations follow, a stored memory stays under its key with its text, digest, scope,
  -- author, confidence and provenance, and either it is the same or its lifecycle has gone forward.
  pub Reach-Kept :
      {db db' : Database p} (k : Uuid) (m : Memory)
      → get k db.memories ≡ some m
      → Reach p db db'
      → Kept k m db'
  Reach-Kept k m h here = record { memory = m; stored = h; evolves = Evolves-refl m }
  Reach-Kept k m h (next r s) =
      let a = Reach-Kept k m h r in
      let b = MemoryStep-Kept k a.memory a.stored s in
      record { memory = b.memory; stored = b.stored; evolves = Evolves-trans a.evolves b.evolves }

  -- A memory that was superseded or has expired never changes again.
  pub Reach-final :
      {db db' : Database p} (k : Uuid) (m : Memory)
      → get k db.memories ≡ some m
      → (m.lifecycle ≡ superseded) ⊎ (m.lifecycle ≡ MemoryLifecycle.expired)
      → Reach p db db'
      → get k db'.memories ≡ some m
  Reach-final k m h f r =
      let a = Reach-Kept k m h r in
      elim a.evolves.progress [
        | inl same ↦ a.stored ∙ ap some same
        | inr forward ↦
            absurd (omega (arith, rank-final m.lifecycle f, forward, rank-le a.memory.lifecycle))
      ]
