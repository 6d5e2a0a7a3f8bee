-- ===== src/Promotion/Limited/Bounds.antt =====
-- A promotion under quotas, against the limits of the workspace.
use hangar_ia.Prelude.{
  ℕ, ◌+◌, ◌≤◌, ◌<◌, ◌-◌, ◌^◌, len, ◌≡◌, refl, sym, ap, ◌∙◌, Bool, Bool-cases, inl, inr,
  Option-cases, Outcome-cases, none, some, some_inj, [], ◌∷◌, ok, arith, ==_iff, nat_eq, string_eq,
  ltb,
}
use hangar_ia.Platform.{Uuid, Platform, Call, after_clock}
use hangar_ia.Types.Memory.{Memory}
use hangar_ia.Types.Working.{WorkingSession}
use hangar_ia.Types.Quota.{WorkspaceLimits}
use hangar_ia.Store.{HangarStore}
use hangar_ia.Working.{prune_expired_working_sessions}
use hangar_ia.Working.Sessions.{Sessions, find_session, retain_sessions}
use hangar_ia.Quotas.{enforce_memory_limits}
use hangar_ia.Quotas.Memories.{memory_count, memory_bytes, enforce_memory_limits-ok, insert-counts}
use hangar_ia.Promotion.{Promotion, promote_working_memory}
use hangar_ia.Promotion.Laws.{promote-IsPromoted}
use hangar_ia.Promotion.Limited.{content_bytes_of, promote_working_memory_with_limits}

-- No id stands for two sessions, as in a `HashMap`.
abbrev pub HasDistinctIds : Sessions → Type 0
HasDistinctIds [] = Unit
HasDistinctIds ((id, session) ∷ rest) = (find_session id rest ≡ none) × HasDistinctIds rest

-- A session that stays is found as before.
retain-find :
    (keep : WorkingSession → Bool) (id : Uuid) (sessions : Sessions) (s : WorkingSession)
    → HasDistinctIds sessions
    → find_session id (retain_sessions keep sessions) ≡ some s
    → find_session id sessions ≡ some s
retain-find keep id [] s d h = absurd (cc)
retain-find keep id ((j, x) ∷ rest) s d h =
    ground (arith, h, d.0, retain-find keep id rest s d.1, ==_iff j id)

retain-none :
    (keep : WorkingSession → Bool) (id : Uuid) (sessions : Sessions)
    → find_session id sessions ≡ none
    → find_session id (retain_sessions keep sessions) ≡ none
retain-none keep id [] h = refl
retain-none keep id ((j, x) ∷ rest) h = ground (arith, h, retain-none keep id rest)

retain-HasDistinctIds :
    (keep : WorkingSession → Bool) (sessions : Sessions)
    → HasDistinctIds sessions
    → HasDistinctIds (retain_sessions keep sessions)
retain-HasDistinctIds keep [] d = tt
retain-HasDistinctIds keep ((j, x) ∷ rest) d = elim (Bool-cases (keep x)) [
  | inl kept ↦ rw kept (retain-none keep j rest d.0, retain-HasDistinctIds keep rest d.1)
  | inr gone ↦ rw gone (retain-HasDistinctIds keep rest d.1)
]

module _ (p : Platform) where
  open p.uuids use {get}

  -- What a promotion that the quotas let through has done: the quotas were tested with the size of the
  -- entry of `r`, in a store that was pruned, and the promotion ran on that store.
  record IsAllowed (call : Call) (r : Promotion) (limits : WorkspaceLimits) (a b : HangarStore p)
      (m : Memory) : Type 0 where
    pub bytes : ℕ
    pub measured :
        content_bytes_of r (
          find_session r.session_id
            (prune_expired_working_sessions (call.clock 0) a.working_memory).sessions)
        ≡ some bytes
    pub allowed :
        enforce_memory_limits p r.organization_id r.workspace_id bytes limits a.database ≡ ok tt
    pub ran :
        promote_working_memory p (after_clock call) r (record a {
          working_memory = prune_expired_working_sessions (call.clock 0) a.working_memory;
        })
        ≡ (ok (some m), b)

  promote_with_limits-IsAllowed :
      (call : Call) (r : Promotion) (limits : WorkspaceLimits) (a b : HangarStore p) (m : Memory)
      → promote_working_memory_with_limits p call r limits a ≡ (ok (some m), b)
      → IsAllowed call r limits a b m
  unfolding promote_working_memory_with_limits
  promote_with_limits-IsAllowed call r limits a b m h =
      let pruned = prune_expired_working_sessions (call.clock 0) a.working_memory in
      elim (Option-cases (content_bytes_of r (find_session r.session_id pruned.sessions))) [
        | inl missing ↦ absurd (ground (arith, h, missing))
        | inr (bytes, measured) ↦
            elim (Outcome-cases
              (enforce_memory_limits p r.organization_id r.workspace_id bytes limits a.database)) [
                | inr (message, refused) ↦ absurd (ground (arith, h, measured, refused))
                | inl (u, allowed) ↦ record {
                  bytes = bytes;
                  measured = measured;
                  allowed = allowed;
                  ran = ground (arith, h, measured, allowed);
                }
              ]
      ]

  -- The entry that is promoted is the one that was measured.
  measured-content :
      (call : Call) (r : Promotion) (limits : WorkspaceLimits) (a b : HangarStore p) (m : Memory)
      → HasDistinctIds a.working_memory.sessions
      → (s : IsAllowed call r limits a b m) → s.bytes ≡ len m.content
  unfolding prune_expired_working_sessions
  measured-content call r limits a b m distinct s =
      let pruned : HangarStore p = record a {
        working_memory = prune_expired_working_sessions (call.clock 0) a.working_memory;
      } in
      let is = promote-IsPromoted p (after_clock call) r pruned b m s.ran in
      let keep : ℕ → WorkingSession → Bool = λ now session. ltb now session.expires_at_unix_ms in
      let once =
        retain-find (keep (call.clock 1)) r.session_id pruned.working_memory.sessions is.session
          (retain-HasDistinctIds (keep (call.clock 0)) a.working_memory.sessions distinct)
          is.found in
      let size : content_bytes_of r (some is.session) ≡ some (len is.entry.content) =
        rw (is.owner, is.chosen) refl in
      some_inj (sym s.measured ∙ (ap (content_bytes_of r) once ∙ size)) ∙ ap len (sym is.content)

  -- A promotion that the quotas let through, of a session map without doubles and under an id that no
  -- memory has, is a promotion as without them, and leaves the workspace with no more memories and no
  -- more bytes than the limits allow, one memory more than before. The workspace held less than 2^64
  -- bytes, and the limit of bytes is below the largest `usize`.
  pub promote_working_memory_with_limits-le :
      (call : Call) (r : Promotion) (limits : WorkspaceLimits) (a b : HangarStore p) (m : Memory)
      → HasDistinctIds a.working_memory.sessions
      → get m.id a.database.memories ≡ none
      → memory_bytes p r.organization_id r.workspace_id a.database < 2 ^ 64
      → limits.max_memory_bytes < 2 ^ 64 - 1
      → promote_working_memory_with_limits p call r limits a ≡ (ok (some m), b)
      → (memory_count p r.organization_id r.workspace_id b.database ≤ limits.max_memories)
        × (memory_bytes p r.organization_id r.workspace_id b.database ≤ limits.max_memory_bytes)
        × (memory_count p r.organization_id r.workspace_id b.database
            ≡ memory_count p r.organization_id r.workspace_id a.database + 1)
  promote_working_memory_with_limits-le call r limits a b m distinct fresh fits small h =
      let o = r.organization_id in
      let w = r.workspace_id in
      let s = promote_with_limits-IsAllowed call r limits a b m h in
      let is =
        promote-IsPromoted p (after_clock call) r
          (record a {
            working_memory = prune_expired_working_sessions (call.clock 0) a.working_memory;
          })
          b m s.ran in
      let size = measured-content call r limits a b m distinct s in
      let (count, bytes) =
        enforce_memory_limits-ok p o w s.bytes limits a.database fits small s.allowed in
      let (count', bytes') =
        insert-counts p o w m.id m a.database b.database fresh is.in_workspace is.written in
      (omega (arith, count, count'), omega (arith, bytes, bytes', size), count')
