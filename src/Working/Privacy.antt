-- ===== src/Working/Privacy.antt =====
-- A session is seen and changed by its owner alone, and not past its time.
use hangar_ia.Prelude.{
  ◌⊎◌, Outcome-cases, ℕ, ◌≤◌, ◌<◌, ◌≡◌, ◌≢◌, Bool, true, false, not, some, [], ◌∷◌, ok, err, arith,
  String, len, ltb, leb, nat_eq, string_eq, inl, inr, Option-cases, Bool-cases, &&_iff, ==_iff,
  is_blank, ltb→lt, subst,
}
use hangar_ia.Platform.{Uuid, Platform, Call}
use hangar_ia.Scope.Laws.{in_scope-eq}
use hangar_ia.Types.Working.{WorkingSession, NewWorkingMemoryEntry, WorkingMemoryStore}
use hangar_ia.Working.{
  prune_expired_working_sessions, get_working_session, append_working_memory,
  update_working_summary,
}
use hangar_ia.Working.Sessions.{Sessions, find_session, insert_session, retain_sessions}
use hangar_ia.Working.Session.{is_owner, ensure_session_owner, append_to_session, summarise_session}

find-retain :
    (keep : WorkingSession → Bool) (id : Uuid) (sessions : Sessions) (s : WorkingSession)
    → find_session id (retain_sessions keep sessions) ≡ some s
    → keep s ≡ true
find-retain keep id [] s h = absurd (cc)
find-retain keep id (row ∷ rest) s h = ground (arith, find-retain keep id rest s)

-- The session is in the scope of the request, belongs to the one who asks, and is alive.
pub record IsOwnLive (now : ℕ) (o w : String) (who : Uuid) (s : WorkingSession) : Type 0 where
  pub organization : s.organization_id ≡ o
  pub workspace : s.workspace_id ≡ w
  pub author : s.created_by ≡ who
  pub live : now < s.expires_at_unix_ms

-- A session that a read returns belongs to the one who asks, in the scope of the request, and has
-- not expired.
pub get_working_session-IsOwnLive :
    (call : Call) (id : Uuid) (o w : String) (who : Uuid) (store : WorkingMemoryStore)
    (s : WorkingSession)
    → (get_working_session call id o w who store).0 ≡ ok (some s)
    → IsOwnLive (call.clock 0) o w who s
unfolding get_working_session prune_expired_working_sessions
get_working_session-IsOwnLive call id o w who store s h =
    let keep = λ (x : WorkingSession). ltb (call.clock 0) x.expires_at_unix_ms in
    elim (Option-cases (find_session id (retain_sessions keep store.sessions))) [
      | inl missing ↦ absurd (ground (arith, h, missing))
      | inr (x, found) ↦
          let owner : is_owner x o w who ≡ true = ground (arith, h, found) in
          let same : x ≡ s = ground (arith, h, found) in
          let parts = (&&_iff _ _).0 owner in
          let scope = in_scope-eq _ _ o w parts.0 in
          subst (λ y. IsOwnLive (call.clock 0) o w who y) same
            (record {
              organization = scope.0;
              workspace = scope.1;
              author = (==_iff _ _).0 parts.1;
              live = ltb→lt _ _ (find-retain keep id store.sessions x found);
            })
    ]

module _ (p : Platform) (call : Call) (id : Uuid) (o w : String) (who : Uuid) where
  -- A valid text for a session of another author or scope is refused, and the store is only pruned.
  pub append-stranger :
      (new : NewWorkingMemoryEntry) (store : WorkingMemoryStore) (s : WorkingSession)
      → is_blank new.content ≡ false
      → len new.content ≤ 8192
      → find_session id (prune_expired_working_sessions (call.clock 0) store).sessions ≡ some s
      → is_owner s o w who ≡ false
      → append_working_memory p call id o w who new store ≡ (
        err "working session not found in this scope",
        prune_expired_working_sessions (call.clock 0) store,
      )
  unfolding append_working_memory append_to_session ensure_session_owner
  append-stranger new store s given small found stranger =
      let fits : leb (len new.content) 8192 ≡ true = ground arith in
      rw (given, fits, found, stranger)

find-insert_ne :
    (j id : Uuid) (s : WorkingSession) (sessions : Sessions)
    → j ≢ id
    → find_session j (insert_session id s sessions) ≡ find_session j sessions
find-insert_ne j id s [] h = ground arith
find-insert_ne j id s (row ∷ rest) h = ground (arith, find-insert_ne j id s rest h)

-- The other sessions are as they were, or as the pruning leaves them.
abbrev pub SameOthers : ℕ → Uuid → WorkingMemoryStore → WorkingMemoryStore → Type 0
SameOthers now j a b =
    (find_session j b.sessions ≡ find_session j a.sessions)
    ⊎ (find_session j b.sessions ≡ find_session j (prune_expired_working_sessions now a).sessions)

module _ (p : Platform) (call : Call) (id : Uuid) (o w : String) (who : Uuid) (j : Uuid)
    (other : j ≢ id) where
  append-SameOthers :
      (new : NewWorkingMemoryEntry) (a : WorkingMemoryStore)
      → SameOthers (call.clock 0) j a (append_working_memory p call id o w who new a).1
  unfolding append_working_memory
  append-SameOthers new a =
      let pruned = prune_expired_working_sessions (call.clock 0) a in
      elim (Bool-cases (not (is_blank new.content))) [
        | inr blank ↦ inl (rw blank)
        | inl given ↦ elim (Bool-cases (leb (len new.content) 8192)) [
          | inr large ↦ inl (rw (given, large))
          | inl small ↦ elim (Option-cases (find_session id pruned.sessions)) [
            | inl missing ↦ inr (rw (given, small, missing))
            | inr (s, found) ↦ elim (Outcome-cases (append_to_session p call o w who new s)) [
              | inr (e, refused) ↦ inr (rw (given, small, found, refused))
              | inl (r, done) ↦
                  inr
                    (rw (given, small, found, done) (find-insert_ne j id r.1 pruned.sessions other))
            ]
          ]
        ]
      ]

  update-SameOthers :
      (content : String) (a : WorkingMemoryStore)
      → SameOthers (call.clock 0) j a (update_working_summary p call id o w who content a).1
  unfolding update_working_summary
  update-SameOthers content a =
      let pruned = prune_expired_working_sessions (call.clock 0) a in
      elim (Bool-cases (not (is_blank content))) [
        | inr blank ↦ inl (rw blank)
        | inl given ↦ elim (Bool-cases (leb (len content) 8192)) [
          | inr large ↦ inl (rw (given, large))
          | inl small ↦ elim (Option-cases (find_session id pruned.sessions)) [
            | inl missing ↦ inr (rw (given, small, missing))
            | inr (s, found) ↦ elim (Outcome-cases (summarise_session p call o w who content s)) [
              | inr (e, refused) ↦ inr (rw (given, small, found, refused))
              | inl (r, done) ↦
                  inr (rw (given, small, found, done) (find-insert_ne j id r pruned.sessions other))
            ]
          ]
        ]
      ]

  -- Appending to one session, or summarising it, leaves every session with another id as it was, or as
  -- the pruning of the expired ones leaves it, whatever the outcome.
  pub writes-SameOthers :
      (new : NewWorkingMemoryEntry) (content : String) (a : WorkingMemoryStore)
      → SameOthers (call.clock 0) j a (append_working_memory p call id o w who new a).1
        × SameOthers (call.clock 0) j a (update_working_summary p call id o w who content a).1
  writes-SameOthers new content a = (append-SameOthers new a, update-SameOthers content a)
