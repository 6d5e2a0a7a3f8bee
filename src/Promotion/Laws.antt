-- ===== src/Promotion/Laws.antt =====
-- What a promotion may do.
use hangar_ia.Prelude.{
  ==_refl, string_eq, refl, ℕ, ◌≡◌, true, some, ok, arith, find, ◌==◌, nat_eq, inl, inr,
  Option-cases, Outcome-cases, >>-eq-ok, >>=-eq-ok, context-eq-ok, ensure-ok, ensure, context, ap,
  sym, ◌∙◌,
}
use hangar_ia.Platform.{Platform, Call, after_clock}
use hangar_ia.Types.Memory.{Memory, proposed, session_promotion}
use hangar_ia.Types.Working.{WorkingSession, WorkingMemoryEntry}
use hangar_ia.Database.{Database}
use hangar_ia.Scope.{in_scope}
use hangar_ia.Store.{HangarStore}
use hangar_ia.Memory.Records.{new_memory}
use hangar_ia.Memory.Outcomes.{Created, create_memory-ok}
use hangar_ia.Working.{prune_expired_working_sessions}
use hangar_ia.Working.Sessions.{find_session}
use hangar_ia.Working.Session.{is_owner, ensure_session_owner}
use hangar_ia.Promotion.{Promotion, promoted, promote_entry, promote_working_memory}

module _ (p : Platform) where
  open p.uuids use {get, insert, get-insert}

  -- What stands behind a promoted memory.
  pub record IsPromoted (now : ℕ) (r : Promotion) (a : HangarStore p) (m : Memory)
      (b : HangarStore p) : Type 0 where
    pub session : WorkingSession
    pub entry : WorkingMemoryEntry
    -- the session is one that the pruning keeps, and its author asks
    pub found :
        find_session r.session_id (prune_expired_working_sessions now a.working_memory).sessions
        ≡ some session
    pub owner : is_owner session r.organization_id r.workspace_id r.principal_id ≡ true
    -- the text is that of an entry of the session
    pub chosen : find (λ (e : WorkingMemoryEntry). e.id == r.entry_id) session.entries ≡ some entry
    pub content : m.content ≡ entry.content
    pub provenance :
        m.provenance
        ≡ session_promotion r.session_id r.entry_id entry.content_sha256 session.created_by
    pub in_workspace :
        in_scope m.organization_id m.workspace_id r.organization_id r.workspace_id ≡ true
    pub author : m.created_by ≡ r.principal_id
    -- it still has to be reviewed
    pub lifecycle : m.lifecycle ≡ proposed
    pub stored : get m.id b.database.memories ≡ some m
    pub written : b.database.memories ≡ insert m.id m a.database.memories

  promote_entry-ok :
      (call : Call) (r : Promotion) (s : WorkingSession) (db : Database p) (m : Memory)
      (db' : Database p)
      → promote_entry p call r s db ≡ ok (m, db')
      → (is_owner s r.organization_id r.workspace_id r.principal_id ≡ true)
        × (e : WorkingMemoryEntry) × (find
              (λ (e : WorkingMemoryEntry). e.id == r.entry_id)
              s.entries
            ≡ some e)
        × Created p call (promoted p r s e) db m db'
  unfolding promote_entry ensure_session_owner
  promote_entry-ok call r s db m db' h =
      let a =
        >>-eq-ok (ensure (is_owner s r.organization_id r.workspace_id r.principal_id) _) _ h in
      let b =
        >>=-eq-ok (context (find (λ (e : WorkingMemoryEntry). e.id == r.entry_id) s.entries) _) _
          a.1 in
      (
        ensure-ok _ _ a.0,
        b.0,
        context-eq-ok _ _ b.1,
        create_memory-ok p call (promoted p r s b.0) db b.2,
      )

  -- The memory of a promotion comes from an entry of a live session of the one who asks, keeps the
  -- entry's text and origin, and is only proposed.
  pub promote-IsPromoted :
      (call : Call) (r : Promotion) (a b : HangarStore p) (m : Memory)
      → promote_working_memory p call r a ≡ (ok (some m), b)
      → IsPromoted (call.clock 0) r a m b
  unfolding promote_working_memory promoted new_memory
  promote-IsPromoted call r a b m h =
      let pruned = prune_expired_working_sessions (call.clock 0) a.working_memory in
      elim (Option-cases (find_session r.session_id pruned.sessions)) [
        | inl missing ↦ absurd (ground (arith, h, missing))
        | inr (s, found) ↦
            elim (Outcome-cases (promote_entry p (after_clock call) r s a.database)) [
              | inr (e, refused) ↦ absurd (ground (arith, h, found, refused))
              | inl (x, done) ↦
                  let k = promote_entry-ok (after_clock call) r s a.database x.0 x.1 done in
                  let same : x.0 ≡ m = ground (arith, h, found, done) in
                  let after : x.1 ≡ b.database = ground (arith, h, found, done) in
                  let made = sym same ∙ k.3.memory in
                  record {
                    session = s;
                    entry = k.1;
                    found = found;
                    owner = k.0;
                    chosen = k.2;
                    content = ap (λ (y : Memory). y.content) made;
                    provenance = ap (λ (y : Memory). y.provenance) made;
                    in_workspace =
                        rw (made, ==_refl r.organization_id, ==_refl r.workspace_id) refl;
                    author = ap (λ (y : Memory). y.created_by) made;
                    lifecycle = ap (λ (y : Memory). y.lifecycle) made;
                    stored = rw (← after, k.3.stored, made, get-insert) (ground arith);
                    written = rw (← after, k.3.stored, made) refl;
                  }
            ]
      ]
