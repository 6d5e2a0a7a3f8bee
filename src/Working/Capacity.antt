-- ===== src/Working/Capacity.antt =====
-- The capacity of the working memory, and the operations that keep it.
use hangar_ia.Prelude.{
  is_blank, not, Outcome-cases, leb→le, ltb→lt, All-if, Bool-cases, subst, ℕ, ◌+◌, ◌≤◌, ◌≡◌, Bool,
  none, some, [], ◌∷◌, length, All, arith, String, len, ltb, leb, ◌==◌, nat_eq, inl, inr,
  Option-cases, unwrap_or, add_u128,
}
use hangar_ia.Platform.{Uuid, Platform, Call}
use hangar_ia.Scope.{ensure_scope}
use hangar_ia.Types.Working.{
  WorkingSession, NewWorkingSession, NewWorkingMemoryEntry, WorkingMemoryStore,
}
use hangar_ia.Working.{
  prune_expired_working_sessions, create_working_session, get_working_session,
  append_working_memory, update_working_summary,
}
use hangar_ia.Working.Sessions.{Sessions, find_session, insert_session, retain_sessions}
use hangar_ia.Working.Session.{append_to_session, summarise_session}
use hangar_ia.Working.Bounds.{IsBounded, append_to_session-IsBounded, summarise_session-IsBounded}

abbrev AllBounded : Sessions → Type 0
AllBounded sessions = All (λ (row : Uuid × WorkingSession). IsBounded row.1) sessions

-- The store: at most 1024 sessions, each with at most 64 entries of at most 8 KiB, a summary of at
-- most 8 KiB and 64 KiB in all, and a life of at most a day.
pub record HasCapacity (store : WorkingMemoryStore) : Type 0 where
  pub count : length store.sessions ≤ 1024
  pub bounded : AllBounded store.sessions

find_session-IsBounded :
    (id : Uuid) (sessions : Sessions) (s : WorkingSession)
    → AllBounded sessions
    → find_session id sessions ≡ some s
    → IsBounded s
find_session-IsBounded id [] s b h = absurd (cc)
find_session-IsBounded id (row ∷ rest) s b h = elim (Bool-cases (row.0 == id)) [
  | inl same ↦ subst (λ x. IsBounded x) (ground (arith, h, same)) b.0
  | inr other ↦ find_session-IsBounded id rest s b.1 (ground (arith, h, other))
]

retain-AllBounded :
    (keep : WorkingSession → Bool) (sessions : Sessions)
    → AllBounded sessions
    → AllBounded (retain_sessions keep sessions)
retain-AllBounded keep [] b = tt
retain-AllBounded keep (row ∷ rest) b =
    All-if (λ (r : Uuid × WorkingSession). IsBounded r.1) (keep row.1) row
      (retain_sessions keep rest) (λ _. b.0) (retain-AllBounded keep rest b.1)

length-retain :
    (keep : WorkingSession → Bool) (sessions : Sessions)
    → length (retain_sessions keep sessions) ≤ length sessions
length-retain keep [] = omega arith
length-retain keep (row ∷ rest) = ground (arith, length-retain keep rest)

insert-AllBounded :
    (id : Uuid) (s : WorkingSession) (sessions : Sessions)
    → IsBounded s
    → AllBounded sessions
    → AllBounded (insert_session id s sessions)
insert-AllBounded id s [] v b = (v, tt)
insert-AllBounded id s (row ∷ rest) v b = elim (Bool-cases (row.0 == id)) [
  | inl same ↦ rw (same, insert_session) (v, b.1)
  | inr other ↦ rw (other, insert_session) (b.0, insert-AllBounded id s rest v b.1)
]

length-insert :
    (id : Uuid) (s : WorkingSession) (sessions : Sessions)
    → length (insert_session id s sessions) ≤ length sessions + 1
length-insert id s [] = omega arith
length-insert id s (row ∷ rest) = ground (arith, length-insert id s rest)

-- A session that is there is replaced.
length-insert_known :
    (id : Uuid) (s old : WorkingSession) (sessions : Sessions)
    → find_session id sessions ≡ some old
    → length (insert_session id s sessions) ≡ length sessions
length-insert_known id s old [] h = absurd (cc)
length-insert_known id s old (row ∷ rest) h = ground (arith, length-insert_known id s old rest)

pub prune-HasCapacity :
    (now : ℕ) (store : WorkingMemoryStore)
    → HasCapacity store
    → HasCapacity (prune_expired_working_sessions now store)
unfolding prune_expired_working_sessions
prune-HasCapacity now store c = record {
  count = omega (
    arith,
    c.count,
    length-retain (λ session. ltb now session.expires_at_unix_ms) store.sessions,
  );
  bounded = retain-AllBounded _ store.sessions c.bounded;
}

insert-HasCapacity :
    (id : Uuid) (s : WorkingSession) (store : WorkingMemoryStore)
    → HasCapacity store
    → IsBounded s
    → length (insert_session id s store.sessions) ≤ 1024
    → HasCapacity (record store { sessions = insert_session id s store.sessions })
insert-HasCapacity id s store c b k = record {
  count = k;
  bounded = insert-AllBounded id s store.sessions b c.bounded;
}

-- The session that a creation inserts.
abbrev opened : Call → NewWorkingSession → WorkingSession
opened call new = record {
  id = call.ids 0;
  organization_id = new.organization_id;
  workspace_id = new.workspace_id;
  created_by = new.created_by;
  created_at_unix_ms = call.clock 0;
  updated_at_unix_ms = call.clock 0;
  expires_at_unix_ms = add_u128 (call.clock 0) (unwrap_or new.ttl_ms 1800000);
  summary = none;
  entries = [];
}

opened-IsBounded :
    (call : Call) (new : NewWorkingSession)
    → unwrap_or new.ttl_ms 1800000 ≤ 86400000
    → IsBounded (opened call new)
opened-IsBounded call new h = record {
  entries = omega arith;
  entry_sizes = tt;
  summary_size = omega arith;
  size = omega arith;
  lifetime = omega (arith, h);
}

pub create-HasCapacity :
    (call : Call) (new : NewWorkingSession) (store : WorkingMemoryStore)
    → HasCapacity store
    → HasCapacity (create_working_session call new store).1
unfolding create_working_session
create-HasCapacity call new store c =
    let pruned = prune_expired_working_sessions (call.clock 0) store in
    let v = prune-HasCapacity (call.clock 0) store c in
    elim (Outcome-cases (ensure_scope new.organization_id new.workspace_id)) [
      | inr (e, refused) ↦ rw refused c
      | inl (u, scoped) ↦ elim (Bool-cases (ltb (length pruned.sessions) 1024)) [
        | inr full ↦ rw (scoped, full) v
        | inl room ↦ elim (Bool-cases (ltb 0 (unwrap_or new.ttl_ms 1800000))) [
          | inr zero_ttl ↦ rw (scoped, room, zero_ttl) v
          | inl positive ↦ elim (Bool-cases (leb (unwrap_or new.ttl_ms 1800000) 86400000)) [
            | inr long ↦ rw (scoped, room, positive, long) v
            | inl short ↦
                rw (scoped, room, positive, short)
                  (insert-HasCapacity (call.ids 0) (opened call new) pruned v
                    (opened-IsBounded call new (leb→le _ _ short))
                    (omega (
                      arith,
                      length-insert (call.ids 0) (opened call new) pruned.sessions,
                      ltb→lt _ _ room,
                    )))
          ]
        ]
      ]
    ]

-- Writing back a session that was there keeps the count.
replace-HasCapacity :
    (id : Uuid) (s old : WorkingSession) (store : WorkingMemoryStore)
    → HasCapacity store
    → find_session id store.sessions ≡ some old
    → IsBounded s
    → HasCapacity (record store { sessions = insert_session id s store.sessions })
replace-HasCapacity id s old store c found b =
    insert-HasCapacity id s store c b
      (omega (arith, length-insert_known id s old store.sessions found, c.count))

pub get-HasCapacity :
    (call : Call) (id : Uuid) (o w : String) (who : Uuid) (store : WorkingMemoryStore)
    → HasCapacity store
    → HasCapacity (get_working_session call id o w who store).1
unfolding get_working_session
get-HasCapacity call id o w who store c = prune-HasCapacity (call.clock 0) store c

module _ (p : Platform) (call : Call) (id : Uuid) (o w : String) (who : Uuid) where
  pub append-HasCapacity :
      (new : NewWorkingMemoryEntry) (store : WorkingMemoryStore)
      → HasCapacity store
      → HasCapacity (append_working_memory p call id o w who new store).1
  unfolding append_working_memory
  append-HasCapacity new store c =
      let pruned = prune_expired_working_sessions (call.clock 0) store in
      let v = prune-HasCapacity (call.clock 0) store c in
      elim (Bool-cases (not (is_blank new.content))) [
        | inr blank ↦ rw blank c
        | inl given ↦ elim (Bool-cases (leb (len new.content) 8192)) [
          | inr large ↦ rw (given, large) c
          | inl small ↦ elim (Option-cases (find_session id pruned.sessions)) [
            | inl missing ↦ rw (given, small, missing) v
            | inr (s, found) ↦ elim (Outcome-cases (append_to_session p call o w who new s)) [
              | inr (e, refused) ↦ rw (given, small, found, refused) v
              | inl (r, done) ↦
                  rw (given, small, found, done)
                    (replace-HasCapacity id r.1 s pruned v found (
                      append_to_session-IsBounded p call o w who new s r.0 r.1 (leb→le _ _ small)
                        (find_session-IsBounded id pruned.sessions s v.bounded found) done))
            ]
          ]
        ]
      ]

  pub update-HasCapacity :
      (content : String) (store : WorkingMemoryStore)
      → HasCapacity store
      → HasCapacity (update_working_summary p call id o w who content store).1
  unfolding update_working_summary
  update-HasCapacity content store c =
      let pruned = prune_expired_working_sessions (call.clock 0) store in
      let v = prune-HasCapacity (call.clock 0) store c in
      elim (Bool-cases (not (is_blank content))) [
        | inr blank ↦ rw blank c
        | inl given ↦ elim (Bool-cases (leb (len content) 8192)) [
          | inr large ↦ rw (given, large) c
          | inl small ↦ elim (Option-cases (find_session id pruned.sessions)) [
            | inl missing ↦ rw (given, small, missing) v
            | inr (s, found) ↦ elim (Outcome-cases (summarise_session p call o w who content s)) [
              | inr (e, refused) ↦ rw (given, small, found, refused) v
              | inl (r, done) ↦
                  rw (given, small, found, done)
                    (replace-HasCapacity id r s pruned v found (
                      summarise_session-IsBounded p call o w who content s r (leb→le _ _ small)
                        (find_session-IsBounded id pruned.sessions s v.bounded found) done))
            ]
          ]
        ]
      ]
