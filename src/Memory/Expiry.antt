-- ===== src/Memory/Expiry.antt =====
-- `expire_due_memories` as one pass over the table.
use mathlib.Core.Option
use hangar_ia.Prelude.{
  Option-cases, ◌∙◌, ap, sym, All-if, ℕ, ◌+◌, ◌<◌, ◌≡◌, ◌≢◌, refl, false, Option, none, some, List,
  [], ◌∷◌, length, ok, any, All, ◌==◌, nat_eq, arith, if◌then◌else◌, inl, inr, ==_iff,
}
use hangar_ia.Platform.{Platform, Call, find_row, IsAscending}
use hangar_ia.Types.Memory.{Memory}
use hangar_ia.Database.{Database}
use hangar_ia.Events.{insert_outbox_event, insert_audit_event}
use hangar_ia.Memory.{expire_keys, record_expiries, expire_due_memories}
use hangar_ia.Memory.Records.{is_due, due_keys, expire_memory}

-- What a sweep makes of a stored memory.
abbrev pub swept : ℕ → Option Memory → Option Memory
swept now none = none
swept now (some memory) = some (if is_due now memory then expire_memory now memory else memory)

-- Each key once.
abbrev IsDistinct : List ℕ → Type 0
IsDistinct [] = Unit
IsDistinct (k ∷ ks) = (any (λ j. j == k) ks ≡ false) × IsDistinct ks

module _ (p : Platform) where
  open p.uuids use {Table, get, insert, rows, get-insert, get-rows}

  -- Every key has a row.
  abbrev HasRows : Table Memory → List ℕ → Type 0
  HasRows t [] = Unit
  HasRows t (k ∷ ks) = (get k t ≢ none) × HasRows t ks

  HasRows-insert :
      (k : ℕ) (m : Memory) (t : Table Memory) (ks : List ℕ)
      → HasRows t ks
      → HasRows (insert k m t) ks
  HasRows-insert k m t [] h = tt
  HasRows-insert k m t (j ∷ ks) h =
      (ground (arith, get-insert j k m t, h.0), HasRows-insert k m t ks h.1)

  -- The loop ends without an error, and it expires the memories of its keys and no others.
  abbrev Expires : ℕ → List ℕ → Table Memory → Type 0
  Expires now ks t =
      (ms : List Memory) × (t' : Table Memory) × (expire_keys p now ks t ≡ ok (ms, t'))
      × (length ms ≡ length ks)
      × ((j : ℕ)
          → get j t'
            ≡ (if any (λ k. k == j) ks then Option.map (expire_memory now) (get j t) else get j t))

  expires :
      (now : ℕ) (ks : List ℕ) (t : Table Memory) → IsDistinct ks → HasRows t ks → Expires now ks t
  unfolding expire_keys
  expires now [] t d h = ([], t, refl, refl, λ j. refl)
  expires now (k ∷ ks) t d h = elim (Option-cases (get k t)) [
    | inl missing ↦ absurd (h.0 missing)
    | inr (m, found) ↦
        let m' = expire_memory now m in
        let r : Expires now ks (insert k m' t) =
          expires now ks (insert k m' t) d.1 (HasRows-insert k m' t ks h.1) in
        (
          m' ∷ r.0,
          r.1,
          rw (found, r.2),
          omega (arith, r.3),
          λ j. ground (arith, r.4 j, get-insert j k m' t, found, d.0),
        )
  ]

-- What the keys of the due rows are, from the order of the rows.
any-due_keys-below :
    (now k : ℕ) (rs : List (ℕ × Memory))
    → All (λ row. k < row.0) rs
    → any (λ i. i == k) (due_keys now rs) ≡ false
unfolding due_keys
any-due_keys-below now k [] h = refl
any-due_keys-below now k (row ∷ rs) h = ground (arith, any-due_keys-below now k rs h.1)

due_keys-IsDistinct :
    (now : ℕ) (rs : List (ℕ × Memory)) → IsAscending rs → IsDistinct (due_keys now rs)
unfolding due_keys
due_keys-IsDistinct now [] h = tt
due_keys-IsDistinct now ((k, m) ∷ rs) h =
    ground (arith, any-due_keys-below now k rs h.0, due_keys-IsDistinct now rs h.1)

find_row-below : (k : ℕ) (rs : List (ℕ × Memory)) → All (λ row. k < row.0) rs → find_row k rs ≡ none
find_row-below k [] h = refl
find_row-below k (row ∷ rs) h = ground (arith, find_row-below k rs h.1)

due_keys-swept :
    (now j : ℕ) (rs : List (ℕ × Memory))
    → IsAscending rs
    → (if any (λ k. k == j) (due_keys now rs)
        then Option.map (expire_memory now) (find_row j rs)
        else find_row j rs)
      ≡ swept now (find_row j rs)
unfolding due_keys
due_keys-swept now j [] h = refl
due_keys-swept now j ((k, m) ∷ rs) h =
    ground (arith, due_keys-swept now j rs h.1, any-due_keys-below now k rs h.0)

find_row-cons :
    (j k : ℕ) (m : Memory) (rs : List (ℕ × Memory))
    → find_row j rs ≢ none
    → find_row j ((k, m) ∷ rs) ≢ none
find_row-cons j k m rs h = ground (arith, h)

HaveRows-cons :
    (row : ℕ × Memory) (rs : List (ℕ × Memory)) (ks : List ℕ)
    → All (λ k. find_row k rs ≢ none) ks
    → All (λ k. find_row k (row ∷ rs) ≢ none) ks
HaveRows-cons row rs [] h = tt
HaveRows-cons row rs (k ∷ ks) h = (find_row-cons k row.0 row.1 rs h.0, HaveRows-cons row rs ks h.1)

HaveRows-due_keys :
    (now : ℕ) (rs : List (ℕ × Memory)) → All (λ k. find_row k rs ≢ none) (due_keys now rs)
unfolding due_keys
HaveRows-due_keys now [] = tt
HaveRows-due_keys now (row ∷ rs) =
    All-if (λ k. find_row k (row ∷ rs) ≢ none) (is_due now row.1) row.0 (due_keys now rs)
      (λ _ e. ground (arith, ==_iff row.0 row.0))
      (HaveRows-cons row rs (due_keys now rs) (HaveRows-due_keys now rs))

module _ (p : Platform) where
  open p.uuids use {Table, get, rows, get-rows}

  rows-HasRows :
      (t : Table Memory) (ks : List ℕ) → All (λ k. find_row k (rows t) ≢ none) ks → HasRows p t ks
  rows-HasRows t [] h = tt
  rows-HasRows t (k ∷ ks) h = (ground (arith, get-rows k t, h.0), rows-HasRows t ks h.1)

  -- The events change no other table.
  record_expiries-frame :
      (call : Call) (n : ℕ) (ms : List Memory) (db : Database p)
      → record_expiries p call n ms db ≡ record db {
        audit_events = (record_expiries p call n ms db).audit_events;
        outbox_events = (record_expiries p call n ms db).outbox_events;
      }
  unfolding record_expiries insert_outbox_event insert_audit_event
  record_expiries-frame call n [] db = refl
  record_expiries-frame call n (m ∷ ms) db = record_expiries-frame call (n + 2) ms _

  abbrev now_of : Call → ℕ
  now_of call = call.clock 0

  -- A sweep of the database: it cannot fail, it counts the memories that are due, it expires exactly
  -- these, in their rows, and it writes only events besides.
  pub record Swept (call : Call) (db : Database p) (count : ℕ) (db' : Database p) : Type 0 where
    pub counted : count ≡ length (due_keys (call.clock 0) (rows db.memories))
    pub each : (j : ℕ) → get j db'.memories ≡ swept (call.clock 0) (get j db.memories)
    pub frame : db' ≡ record db {
      memories = db'.memories;
      audit_events = db'.audit_events;
      outbox_events = db'.outbox_events;
    }

  -- The expiry of due memories never fails. It gives the number of the memories that were due: not in
  -- a last state, and past their expiry. Exactly these become expired, with one version more, every
  -- other row stays, and besides the memories only the audit and outbox events change.
  pub expire_due_memories_lem :
      (call : Call) (db : Database p)
      → (count : ℕ) × (db' : Database p) × (expire_due_memories p call db ≡ ok (count, db'))
        × Swept call db count db'
  unfolding expire_due_memories
  expire_due_memories_lem call db =
      let now = call.clock 0 in
      let rs = rows db.memories in
      let e : Expires p now (due_keys now rs) db.memories =
        expires p now (due_keys now rs) db.memories
          (due_keys-IsDistinct now rs (p.ascending db.memories))
          (rows-HasRows db.memories (due_keys now rs) (HaveRows-due_keys now rs)) in
      let written = record db { memories = e.1 } in
      let db' = record_expiries p call 0 e.0 written in
      let framed = record_expiries-frame call 0 e.0 written in
      (
        length e.0,
        db',
        rw e.2,
        record {
          counted = e.3;
          each = λ j.
              ap (λ (d : Database p). get j d.memories) framed
              ∙ (e.4 j
                  ∙ rw (get-rows j db.memories)
                      (due_keys-swept now j rs (p.ascending db.memories)));
          frame =
              framed
              ∙ ap
                  (λ (t : Table Memory). record db {
                    memories = t;
                    audit_events = db'.audit_events;
                    outbox_events = db'.outbox_events;
                  })
                  (sym (ap (λ (d : Database p). d.memories) framed));
        },
      )
