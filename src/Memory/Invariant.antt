-- ===== src/Memory/Invariant.antt =====
-- The memories table over any sequence of operations: every stored memory stays in order, and no
-- operation takes a memory back.
use hangar_ia.Prelude.{
  subst, sym, ◌∙◌, ℕ, ◌+◌, ◌≤◌, ◌<◌, String, ◌≡◌, refl, true, Option, none, some, ok, inl, inr,
  arith, add_u32, is_some, if◌then◌else◌, ==_iff, nat_eq, ◌==◌, Bool-cases,
}
use hangar_ia.Platform.{Uuid, Platform, Call}
use hangar_ia.Types.Memory.{Memory, NewMemory, MemoryTransition, superseded}
use hangar_ia.Database.{Database, empty_database}
use hangar_ia.Memory.{create_memory, transition_memory, expire_due_memories}
use hangar_ia.Memory.Records.{check_new_memory, new_memory, moved, expire_memory, is_due}
use hangar_ia.Memory.Lifecycle.{
  rank, rank-le, IsWellFormed, check_transition-ok, check_transition-Replaced,
  is_valid_transition-rank,
}
use hangar_ia.Memory.Outcomes.{create_memory-ok, transition_memory-ok}
use hangar_ia.Memory.Expiry.{expire_due_memories_lem, swept}

-- What the tests of a new memory give.
check_new_memory-ok :
    (p : Platform) (call : Call) (new : NewMemory)
    → check_new_memory (call.clock 0) new ≡ ok tt
    → IsWellFormed (call.ids 0) (new_memory p call new)
unfolding check_new_memory new_memory rank
check_new_memory-ok p call new h = record {
  id = refl;
  scoped = ground arith;
  content = ground arith;
  confidence = ground arith;
  retention = refl;
  version = omega arith;
  replacement = λ e. absurd (cc);
}

version_step : (v a b : ℕ) → v ≤ a + 1 → a < b → b ≤ 3 → (1 ≤ add_u32 v 1) × (add_u32 v 1 ≤ b + 1)
version_step v a b h k l = omega arith

moved-IsWellFormed :
    (now : ℕ) (k : Uuid) (t : MemoryTransition) (m : Memory)
    → IsWellFormed k m
    → rank m.lifecycle < rank t.lifecycle
    → (t.lifecycle ≡ superseded → is_some t.superseded_by ≡ true)
    → IsWellFormed k (moved now t m)
unfolding moved
moved-IsWellFormed now k t m v fwd s = record {
  id = v.id;
  scoped = v.scoped;
  content = v.content;
  confidence = v.confidence;
  retention = ground (arith, v.retention);
  version =
      version_step m.version (rank m.lifecycle) (rank t.lifecycle) v.version.1 fwd
        (rank-le t.lifecycle);
  replacement = s;
}

expire_memory-IsWellFormed :
    (now : ℕ) (k : Uuid) (m : Memory)
    → IsWellFormed k m
    → is_due now m ≡ true
    → IsWellFormed k (expire_memory now m)
unfolding expire_memory rank is_due
expire_memory-IsWellFormed now k m v d = record {
  id = v.id;
  scoped = v.scoped;
  content = v.content;
  confidence = v.confidence;
  retention = v.retention;
  version = ground (arith, v.version);
  replacement = λ e. absurd (cc);
}

module _ (p : Platform) where
  open p.uuids use {get, insert, get-insert, get-empty}

  -- One operation on memories that succeeds. A creation draws a uuid that no memory has.
  pub data MemoryStep (db db' : Database p) : Type 0 where
    created :
        (call : Call) (new : NewMemory) (m : Memory)
        → get (call.ids 0) db.memories ≡ none
        → create_memory p call new db ≡ ok (m, db')
        → MemoryStep db db'
    transitioned :
        (call : Call) (id : Uuid) (o w : String) (t : MemoryTransition) (r : Option Memory)
        → transition_memory p call id o w t db ≡ ok (r, db')
        → MemoryStep db db'
    expired :
        (call : Call) (n : ℕ) → expire_due_memories p call db ≡ ok (n, db') → MemoryStep db db'
    -- an operation on the other tables
    elsewhere : db'.memories ≡ db.memories → MemoryStep db db'

  pub data Reach (db : Database p) : Database p → Type 0 where
    here : Reach db db
    next : {a b : Database p} → Reach db a → MemoryStep a b → Reach db b

  pub record HasValidMemories (db : Database p) : Type 0 where
    pub at : (k : Uuid) (m : Memory) → get k db.memories ≡ some m → IsWellFormed k m

  pub empty-HasValidMemories : HasValidMemories (empty_database p)
  empty-HasValidMemories = record {
    at = λ k m h. absurd (ground (arith, h, get-empty {V = Memory} k));
  }

  insert-valid :
      (k : Uuid) (m : Memory) (db db' : Database p)
      → HasValidMemories db
      → IsWellFormed k m
      → db'.memories ≡ insert k m db.memories
      → HasValidMemories db'
  insert-valid k m db db' v w e = record {
    at = λ j x h.
        let s : (if k == j then some m else get j db.memories) ≡ some x = rw (e, get-insert) at h in
        elim (Bool-cases (k == j)) [
          | inl same ↦
              let q : m ≡ x = ground (arith, s, same) in
              subst (λ i. IsWellFormed i x) ((==_iff k j).0 same)
                (subst (λ y. IsWellFormed k y) q w)
          | inr other ↦ v.at j x (ground (arith, s, other))
        ];
  }

  swept-valid :
      (now : ℕ) (k : Uuid) (o : Option Memory) (x : Memory)
      → ((m : Memory) → o ≡ some m → IsWellFormed k m)
      → swept now o ≡ some x
      → IsWellFormed k x
  swept-valid now k none x v h = absurd (cc)
  swept-valid now k (some m) x v h = elim (Bool-cases (is_due now m)) [
    | inl due ↦
        subst (λ y. IsWellFormed k y) (ground (arith, h, due))
          (expire_memory-IsWellFormed now k m (v m refl) due)
    | inr kept ↦ subst (λ y. IsWellFormed k y) (ground (arith, h, kept)) (v m refl)
  ]

  -- The result of a sweep is the one that `expire_due_memories_lem` describes.
  pub swept_each :
      (call : Call) (n : ℕ) (db db' : Database p)
      → expire_due_memories p call db ≡ ok (n, db')
      → (j : ℕ) → get j db'.memories ≡ swept (call.clock 0) (get j db.memories)
  swept_each call n db db' h j =
      let s = expire_due_memories_lem p call db in
      let q : s.1 ≡ db' = ground (arith, s.2, h) in
      subst (λ (d : Database p). get j d.memories ≡ swept (call.clock 0) (get j db.memories)) q
        (s.3.each j)

  MemoryStep-valid :
      {db db' : Database p} → MemoryStep db db' → HasValidMemories db → HasValidMemories db'
  MemoryStep-valid {db} {db'} (created call new m fresh h) v =
      let c = create_memory-ok p call new db h in
      insert-valid (call.ids 0) (new_memory p call new) db db' v
        (check_new_memory-ok p call new c.checked) c.stored
  MemoryStep-valid {db} {db'} (transitioned call id o w t r h) v =
      elim (transition_memory-ok p call id o w t db h) [
        | inl (missing, same) ↦ subst (λ d. HasValidMemories d) (sym same) v
        | inr c ↦
            let tests = check_transition-ok p call o w t c.memory db c.checked in
            insert-valid id (moved (call.clock 2) t c.memory) db db' v
              (moved-IsWellFormed (call.clock 2) id t c.memory (v.at id c.memory c.found)
                (is_valid_transition-rank c.memory.lifecycle t.lifecycle tests.1)
                (λ e.
                  let s = check_transition-Replaced p call o w t c.memory db c.checked e in
                  rw s.named))
              c.stored
      ]
  MemoryStep-valid {db} {db'} (expired call n h) v = record {
    at = λ k x e.
        swept-valid (call.clock 0) k (get k db.memories) x (v.at k)
          (sym (swept_each call n db db' h k) ∙ e);
  }
  MemoryStep-valid {db} {db'} (elsewhere same) v = record { at = λ k x e. v.at k x (rw (← same) e) }

  -- From a valid table, whatever operations follow, every stored memory is in order: its id is its
  -- key, its scope and content are not blank, its confidence lies between 0 and 1, its retention says
  -- whether it has an expiry, its version is from one to four, and a superseded memory names another.
  pub Reach-HasValidMemories :
      {db db' : Database p} → HasValidMemories db → Reach db db' → HasValidMemories db'
  Reach-HasValidMemories v here = v
  Reach-HasValidMemories v (next r s) = MemoryStep-valid s (Reach-HasValidMemories v r)
