-- ===== src/Shares/Admission.antt =====
-- When `propose_memory_share` and `review_memory_share` of packages/hangar-server/src/store.rs succeed,
-- and what they then give.
use hangar_ia.Prelude.{
  ℕ, String, ◌≡◌, refl, sym, ap, ◌∙◌, ◌⊎◌, inl, inr, false, Option, none, some, ok, err,
  Outcome-cases, >>-eq-ok, >>=-eq-ok, arith, is_blank, nat_eq, string_eq,
}
use hangar_ia.Platform.{Uuid, Platform, Call}
use hangar_ia.Types.Sharing.{ShareAudience, ShareReviewState, MemoryShare, review_eq}
use hangar_ia.Types.Memory.{Memory}
use hangar_ia.Database.{Database}
use hangar_ia.Scope.{ensure_scope}
use hangar_ia.Memory.Accept.{WithinYear}
use hangar_ia.Shares.{new_share, check_proposal, propose_memory_share}
use hangar_ia.Shares.Outcomes.{Proposed, propose_memory_share-ok}
use hangar_ia.Shares.Conditions.{
  IsNamed, validates_iff, ensure_share_expiry_iff, ensure_scope_iff, IsShareable,
  Shareable-IsShareable, IsShareable-Shareable, IsAlone, is_duplicate_iff,
}

module _ (p : Platform) where
  open p.uuids use {get, insert, rows}

  -- What a proposal asks for.
  pub record MayPropose (call : Call) (o w : String) (id : Uuid) (a : ShareAudience) (t : Option ℕ)
      (db : Database p) : Type 0 where
    pub scope : (is_blank o ≡ false) × (is_blank w ≡ false)
    pub audience : IsNamed a
    pub expiry : WithinYear (call.clock 0) t
    pub shareable : IsShareable p (call.clock 1) o w id db
    pub alone : IsAlone p o w id a db

  -- A pending grant of the memory as it is stored, and what a proposal writes.
  pub record IsPending (call : Call) (o w : String) (id : Uuid) (a : ShareAudience) (by : Uuid)
      (t : Option ℕ) (db : Database p) (share : MemoryShare) (db' : Database p) : Type 0 where
    pub memory : Memory
    pub found : get id db.memories ≡ some memory
    pub share_is : share ≡ record {
      id = call.ids 0;
      organization_id = o;
      source_workspace_id = w;
      memory_id = id;
      audience = a;
      state = ShareReviewState.pending;
      proposed_by = by;
      reviewed_by = none;
      review_note = none;
      source_memory_version = memory.version;
      expires_at_unix_ms = t;
      created_at_unix_ms = call.clock 0;
      updated_at_unix_ms = call.clock 0;
      version = 1;
    }
    pub stored : db'.memory_shares ≡ insert share.id share db.memory_shares
    pub frame :
        db' ≡ record db { memory_shares = db'.memory_shares; outbox_events = db'.outbox_events }

  MayPropose-check :
      (call : Call) (o w : String) (id : Uuid) (a : ShareAudience) (t : Option ℕ) (db : Database p)
      → MayPropose call o w id a t db
      → (m : Memory) × (check_proposal p call o w id a t db ≡ ok m)
  unfolding check_proposal
  MayPropose-check call o w id a t db h =
      let s = IsShareable-Shareable p (call.clock 1) o w id db h.shareable in
      let scope = (ensure_scope_iff o w).1 h.scope in
      let audience = (validates_iff a).1 h.audience in
      let expiry = (ensure_share_expiry_iff (call.clock 0) t).1 h.expiry in
      let alone = (is_duplicate_iff p o w id a db).1 h.alone in
      (s.memory, rw (scope, audience, expiry, s.found, s.owned, s.retrievable, alone) refl)

  Proposed-MayPropose :
      (call : Call) (o w : String) (id : Uuid) (a : ShareAudience) (by : Uuid) (t : Option ℕ)
      (db : Database p) (share : MemoryShare) (db' : Database p)
      → ((is_blank o ≡ false) × (is_blank w ≡ false))
      → Proposed p call o w id a by t db share db'
      → MayPropose call o w id a t db
  Proposed-MayPropose call o w id a by t db share db' scope r = record {
    scope = scope;
    audience = (validates_iff a).0 r.audience;
    expiry = (ensure_share_expiry_iff (call.clock 0) t).0 r.expiry;
    shareable = Shareable-IsShareable p (call.clock 1) o w id db r.shareable;
    alone = (is_duplicate_iff p o w id a db).0 r.alone;
  }

  Proposed-IsPending :
      (call : Call) (o w : String) (id : Uuid) (a : ShareAudience) (by : Uuid) (t : Option ℕ)
      (db : Database p) (share : MemoryShare) (db' : Database p)
      → Proposed p call o w id a by t db share db'
      → IsPending call o w id a by t db share db'
  unfolding new_share
  Proposed-IsPending call o w id a by t db share db' r = record {
    memory = r.shareable.memory;
    found = r.shareable.found;
    share_is = r.result;
    stored = r.stored ∙ ap (λ k. insert k share db.memory_shares) (sym (ap (λ s. s.id) r.result));
    frame = r.frame;
  }

  propose-scope :
      (call : Call) (o w : String) (id : Uuid) (a : ShareAudience) (by : Uuid) (t : Option ℕ)
      (db : Database p) (r : MemoryShare × Database p)
      → propose_memory_share p call o w id a by t db ≡ ok r
      → (is_blank o ≡ false) × (is_blank w ≡ false)
  unfolding propose_memory_share check_proposal
  propose-scope call o w id a by t db r h =
      let (m, c, h1) = >>=-eq-ok (check_proposal p call o w id a t db) _ h in
      let (s, h2) = >>-eq-ok (ensure_scope o w) _ c in (ensure_scope_iff o w).0 s

  -- A proposal succeeds exactly when its scope is named, its audience is valid, its expiry lies ahead,
  -- by a year at most, the memory is stored in the workspace, published and not past its expiry, and no
  -- pending or approved grant shares it with the audience. It then gives the pending grant of the
  -- memory's version, stores it under its id, and writes only that grant and events. Else it gives an
  -- error.
  pub propose_memory_share_lem :
      (call : Call) (o w : String) (id : Uuid) (a : ShareAudience) (by : Uuid) (t : Option ℕ)
      (db : Database p)
      → (MayPropose call o w id a t db
          × ((share : MemoryShare) × (db' : Database p) × (propose_memory_share p call o w id a by t
                  db
                ≡ ok (share, db'))
              × IsPending call o w id a by t db share db'))
        ⊎ ((¬ MayPropose call o w id a t db)
            × ((message : String) × (propose_memory_share p call o w id a by t db ≡ err message)))
  unfolding propose_memory_share
  propose_memory_share_lem call o w id a by t db =
      elim (Outcome-cases (propose_memory_share p call o w id a by t db)) [
        | inl (r, done) ↦
            let q = propose_memory_share-ok p call o w id a by t db done in
            inl (
              Proposed-MayPropose call o w id a by t db r.0 r.1
                  (propose-scope call o w id a by t db r done) q,
              (r.0, r.1, done, Proposed-IsPending call o w id a by t db r.0 r.1 q),
            )
        | inr (message, refused) ↦ inr (
          λ may.
              let (m, passed) = MayPropose-check call o w id a t db may in
              ground (arith, passed, refused),
          (message, refused),
        )
      ]
