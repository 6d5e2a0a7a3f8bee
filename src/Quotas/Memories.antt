-- ===== src/Quotas/Memories.antt =====
-- The quotas of memories hold after a creation that they let through.
use hangar_ia.Prelude.{
  ℕ, ◌+◌, ◌-◌, ◌^◌, ◌≤◌, ◌<◌, String, Bool, true, none, List, [], ◌∷◌, ◌++◌, map, filter,
  filter-append, length, length-append, sum_by, sum_by-append, ◌≡◌, refl, ok, ensure, ensure-ok,
  >>-eq-ok, >>=-eq-ok, arith, saturating_add_usize, len, leb, ltb, ltb→lt, ◌&&◌, ==_refl, string_eq,
}
use hangar_ia.Platform.{Uuid, Platform, Call}
use hangar_ia.Types.Memory.{Memory, NewMemory}
use hangar_ia.Types.Quota.{WorkspaceLimits, WorkspaceUsage}
use hangar_ia.Database.{Database}
use hangar_ia.Scope.{in_scope, ensure_scope}
use hangar_ia.Memory.Records.{new_memory}
use hangar_ia.Memory.Outcomes.{create_memory-ok}
use hangar_ia.Quotas.{
  sum_usize, memory_in_scope, memory_size, ingestion_bytes_from, workspace_usage,
  enforce_memory_limits, create_memory_with_limits,
}

-- A sum that fits a `usize` is not wrapped.
sum_usize-exact :
    (rs : List (Uuid × Memory))
    → sum_by memory_size rs < 2 ^ 64
    → sum_usize (map memory_size rs) ≡ sum_by memory_size rs
unfolding sum_usize
sum_usize-exact [] h = refl
sum_usize-exact ((k, m) ∷ rs) h =
    let fits : sum_by memory_size rs < 2 ^ 64 = omega (arith, h) in
    let rest = sum_usize-exact rs fits in omega (arith, h, rest)

module _ (p : Platform) (organization_id workspace_id : String) where
  open p.uuids use {get, insert, rows}

  -- The memories of the workspace, with their keys.
  abbrev pub scoped_memories : Database p → List (Uuid × Memory)
  scoped_memories db = filter (memory_in_scope organization_id workspace_id) (rows db.memories)

  -- The number of memories of the workspace, and the bytes of their contents.
  abbrev pub memory_count : Database p → ℕ
  memory_count db = length (scoped_memories db)

  abbrev pub memory_bytes : Database p → ℕ
  memory_bytes db = sum_by memory_size (scoped_memories db)

  workspace_usage-memories :
      (db : Database p) (u : WorkspaceUsage)
      → workspace_usage p organization_id workspace_id db ≡ ok u
      → (u.memory_count ≡ memory_count db)
        × (u.memory_bytes ≡ sum_usize (map memory_size (scoped_memories db)))
  unfolding workspace_usage
  workspace_usage-memories db u h =
      let (s, h1) = >>-eq-ok (ensure_scope organization_id workspace_id) _ h in
      let (n, i, h2) = >>=-eq-ok (ingestion_bytes_from p db.ingestion_payloads 0 _) _ h1 in
      (ground arith, ground arith)

  pub enforce_memory_limits-ok :
      (bytes : ℕ) (limits : WorkspaceLimits) (db : Database p)
      → memory_bytes db < 2 ^ 64
      → limits.max_memory_bytes < 2 ^ 64 - 1
      → enforce_memory_limits p organization_id workspace_id bytes limits db ≡ ok tt
      → (memory_count db + 1 ≤ limits.max_memories)
        × (memory_bytes db + bytes ≤ limits.max_memory_bytes)
  unfolding enforce_memory_limits
  enforce_memory_limits-ok bytes limits db fits small h =
      let (u, v, h1) = >>=-eq-ok (workspace_usage p organization_id workspace_id db) _ h in
      let (c, b) = workspace_usage-memories db u v in
      let (q, h2) =
        >>-eq-ok (ensure (ltb u.memory_count limits.max_memories) "workspace memory quota exceeded")
          _ h1 in
      let (r, h3) =
        >>-eq-ok
          (ensure
            (leb bytes limits.max_memory_bytes
              && leb (saturating_add_usize u.memory_bytes bytes) limits.max_memory_bytes)
            "workspace memory byte quota exceeded")
          _ h2 in
      let less = ltb→lt _ _ (ensure-ok _ _ q) in
      let exact = sum_usize-exact (scoped_memories db) fits in
      let both = ensure-ok _ _ r in
      let bounded : saturating_add_usize u.memory_bytes bytes ≤ limits.max_memory_bytes =
        ground (arith, both) in
      (omega (arith, less, c), omega (arith, bounded, exact, b, small))

  -- A new row of the workspace counts once, with the bytes of its content.
  pub insert-counts :
      (k : Uuid) (x : Memory) (db db' : Database p)
      → get k db.memories ≡ none
      → in_scope x.organization_id x.workspace_id organization_id workspace_id ≡ true
      → db'.memories ≡ insert k x db.memories
      → (memory_count db' ≡ memory_count db + 1)
        × (memory_bytes db' ≡ memory_bytes db + len x.content)
  insert-counts k x db db' fresh owned e =
      let (before, after, old, new) = p.rows-insert k x db.memories in
      let test : Uuid × Memory → Bool = memory_in_scope organization_id workspace_id in
      let was : scoped_memories db ≡ filter test before ++ filter test after =
        rw (old, fresh) (filter-append test before after) in
      let is : scoped_memories db' ≡ filter test before ++ ((k, x) ∷ filter test after) =
        rw (e, new, filter-append test before ((k, x) ∷ after), owned) in
      (
        rw
            (
              was,
              is,
              length-append (filter test before) (filter test after),
              length-append (filter test before) ((k, x) ∷ filter test after),
            )
            (omega arith),
        rw
            (
              was,
              is,
              sum_by-append memory_size (filter test before) (filter test after),
              sum_by-append memory_size (filter test before) ((k, x) ∷ filter test after),
            )
            (omega arith),
      )

module _ (p : Platform) where
  open p.uuids use {get}

  -- A creation that the quotas let through, under an id that no memory has, leaves its workspace with
  -- no more memories and no more bytes than the limits allow, one memory more than before, and the
  -- bytes of its content more. The workspace held less than 2^64 bytes, and the limit of bytes is
  -- below the largest `usize`.
  pub create_memory_with_limits-le :
      (call : Call) (new : NewMemory) (limits : WorkspaceLimits) (db db' : Database p) (m : Memory)
      → get (call.ids 0) db.memories ≡ none
      → memory_bytes p new.organization_id new.workspace_id db < 2 ^ 64
      → limits.max_memory_bytes < 2 ^ 64 - 1
      → create_memory_with_limits p call new limits db ≡ ok (m, db')
      → (memory_count p new.organization_id new.workspace_id db' ≤ limits.max_memories)
        × (memory_bytes p new.organization_id new.workspace_id db' ≤ limits.max_memory_bytes)
        × (memory_count p new.organization_id new.workspace_id db'
            ≡ memory_count p new.organization_id new.workspace_id db + 1)
        × (memory_bytes p new.organization_id new.workspace_id db'
            ≡ memory_bytes p new.organization_id new.workspace_id db + len new.content)
  unfolding create_memory_with_limits new_memory
  create_memory_with_limits-le call new limits db db' m fresh fits small h =
      let o = new.organization_id in
      let w = new.workspace_id in
      let (e, h1) = >>-eq-ok (enforce_memory_limits p o w (len new.content) limits db) _ h in
      let (c, b) = enforce_memory_limits-ok p o w (len new.content) limits db fits small e in
      let made = create_memory-ok p call new db h1 in
      let (c', b') =
        insert-counts p o w (call.ids 0) (new_memory p call new) db db' fresh
          (rw (==_refl o, ==_refl w)) made.stored in
      (omega (arith, c, c'), omega (arith, b, b'), c', b')
