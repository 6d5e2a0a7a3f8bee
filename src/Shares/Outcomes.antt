-- ===== src/Shares/Outcomes.antt =====
-- What a proposal and a review that succeed have tested and written.
use hangar_ia.Prelude.{
  ℕ, String, true, false, not, ◌&&◌, Option, none, some, ◌≡◌, ok, ensure, ◌≢◌, ensure-ok, context,
  context-eq-ok, >>-eq-ok, >>=-eq-ok, Option-cases, Bool-cases, ◌⊎◌, inl, inr, arith, any, leb, len,
  is_none_or, ◌==◌, nat_eq, string_eq,
}
use hangar_ia.Platform.{Uuid, Platform, Call}
use hangar_ia.Types.Sharing.{ShareAudience, ShareReviewState, MemoryShare, review_eq}
use hangar_ia.Types.Memory.{Memory}
use hangar_ia.Database.{Database}
use hangar_ia.Scope.{in_scope, ensure_scope}
use hangar_ia.Sharing.{validates, can_transition_to}
use hangar_ia.Memory.Records.{is_retrievable}
use hangar_ia.Events.{insert_outbox_event}
use hangar_ia.Shares.{
  ensure_share_expiry, is_duplicate, new_share, check_proposal, propose_memory_share,
  check_approval, check_review, reviewed, review_memory_share,
}

module _ (p : Platform) where
  open p.uuids use {get, insert, rows}

  -- A memory that may be shared at a time: it is stored in the workspace, published and unexpired.
  pub record Shareable (now : ℕ) (o w : String) (id : Uuid) (db : Database p) : Type 0 where
    pub memory : Memory
    pub found : get id db.memories ≡ some memory
    pub owned : in_scope memory.organization_id memory.workspace_id o w ≡ true
    pub retrievable : is_retrievable now memory ≡ true

  pub record Proposed (call : Call) (o w : String) (id : Uuid) (a : ShareAudience) (by : Uuid)
      (t : Option ℕ) (db : Database p) (share : MemoryShare) (db' : Database p) : Type 0 where
    pub shareable : Shareable (call.clock 1) o w id db
    pub expiry : ensure_share_expiry (call.clock 0) t ≡ ok tt
    pub audience : validates a ≡ true
    pub alone : any (is_duplicate p o w id a) (rows db.memory_shares) ≡ false
    pub result : share ≡ new_share call o w id a by t shareable.memory.version
    pub stored : db'.memory_shares ≡ insert (call.ids 0) share db.memory_shares
    pub frame :
        db' ≡ record db { memory_shares = db'.memory_shares; outbox_events = db'.outbox_events }

  check_proposal-ok :
      (call : Call) (o w : String) (id : Uuid) (a : ShareAudience) (t : Option ℕ) (db : Database p)
      {m : Memory}
      → check_proposal p call o w id a t db ≡ ok m
      → (get id db.memories ≡ some m)
        × (in_scope m.organization_id m.workspace_id o w ≡ true)
        × (is_retrievable (call.clock 1) m ≡ true)
        × (ensure_share_expiry (call.clock 0) t ≡ ok tt)
        × (validates a ≡ true)
        × (any (is_duplicate p o w id a) (rows db.memory_shares) ≡ false)
  unfolding check_proposal
  check_proposal-ok call o w id a t db h =
      let (s, h1) = >>-eq-ok (ensure_scope o w) _ h in
      let (v, h2) = >>-eq-ok (ensure (validates a) "share audience is invalid") _ h1 in
      let (e, h3) = >>-eq-ok (ensure_share_expiry (call.clock 0) t) _ h2 in
      let (m, f, h4) =
        >>=-eq-ok (context (get id db.memories) "memory not found in source workspace") _ h3 in
      let (o1, h5) =
        >>-eq-ok
          (ensure (in_scope m.organization_id m.workspace_id o w)
            "memory not found in source workspace")
          _ h4 in
      let (r, h6) =
        >>-eq-ok
          (ensure (is_retrievable (call.clock 1) m)
            "only published and unexpired memory may be shared")
          _ h5 in
      let (d, h7) =
        >>-eq-ok
          (ensure (not (any (is_duplicate p o w id a) (rows db.memory_shares)))
            "a pending or approved grant already exists for this memory audience")
          _ h6 in
      (
        ground (arith, h7, context-eq-ok _ _ f),
        ground (arith, h7, ensure-ok _ _ o1),
        ground (arith, h7, ensure-ok _ _ r),
        e,
        ensure-ok _ _ v,
        ground (arith, ensure-ok _ _ d),
      )

  -- A proposal that succeeds is for a valid audience and a memory that is stored in the workspace,
  -- published and unexpired; its expiry lies ahead, by a year at most; no pending or approved grant of
  -- the memory has the audience. It stores the pending grant under its id, and writes only that grant
  -- and events.
  pub propose_memory_share-ok :
      (call : Call) (o w : String) (id : Uuid) (a : ShareAudience) (by : Uuid) (t : Option ℕ)
      (db : Database p) {share : MemoryShare} {db' : Database p}
      → propose_memory_share p call o w id a by t db ≡ ok (share, db')
      → Proposed call o w id a by t db share db'
  unfolding propose_memory_share new_share insert_outbox_event
  propose_memory_share-ok call o w id a by t db h =
      let (m, c, h1) = >>=-eq-ok (check_proposal p call o w id a t db) _ h in
      let (f, o1, r, e, v, d) = check_proposal-ok call o w id a t db c in
      record {
        shareable = record { memory = m; found = f; owned = o1; retrievable = r };
        expiry = e;
        audience = v;
        alone = d;
        result = ground arith;
        stored = ground arith;
        frame = ground arith;
      }

  pub record Reviewed (call : Call) (id : Uuid) (o w : String) (s : ShareReviewState) (by : Uuid)
      (note : Option String) (db : Database p) (r : Option MemoryShare) (db' : Database p)
      : Type 0 where
    pub share : MemoryShare
    pub found : get id db.memory_shares ≡ some share
    pub owned : in_scope share.organization_id share.source_workspace_id o w ≡ true
    pub forward : can_transition_to share.state s ≡ true
    pub approval : (s ≢ ShareReviewState.approved) ⊎ Shareable (call.clock 0) o w share.memory_id db
    pub result : r ≡ some (reviewed (call.clock 1) s by note share)
    pub stored :
        db'.memory_shares ≡ insert id (reviewed (call.clock 1) s by note share) db.memory_shares
    pub frame :
        db' ≡ record db { memory_shares = db'.memory_shares; outbox_events = db'.outbox_events }

  check_approval-ok :
      (now : ℕ) (o w : String) (share : MemoryShare) (db : Database p)
      → check_approval p now o w share db ≡ ok tt
      → Shareable now o w share.memory_id db
  unfolding check_approval
  check_approval-ok now o w share db h =
      let (m, f, h1) =
        >>=-eq-ok (context (get share.memory_id db.memories) "source memory no longer exists") _
          h in
      let (b, h2) =
        >>-eq-ok
          (ensure (in_scope m.organization_id m.workspace_id o w && is_retrievable now m)
            "only published and unexpired memory may be approved for sharing")
          _ h1 in
      let both = ensure-ok _ _ b in
      record {
        memory = m;
        found = context-eq-ok _ _ f;
        owned = ground (arith, both);
        retrievable = ground (arith, both);
      }

  check_review-ok :
      (call : Call) (o w : String) (s : ShareReviewState) (share : MemoryShare) (db : Database p)
      → check_review p call o w s share db ≡ ok tt
      → (in_scope share.organization_id share.source_workspace_id o w ≡ true)
        × (can_transition_to share.state s ≡ true)
        × ((s ≢ ShareReviewState.approved) ⊎ Shareable (call.clock 0) o w share.memory_id db)
  unfolding check_review
  check_review-ok call o w s share db h =
      let (a, h1) =
        >>-eq-ok
          (ensure (in_scope share.organization_id share.source_workspace_id o w)
            "memory share not found in source workspace")
          _ h in
      let (b, h2) =
        >>-eq-ok (ensure (can_transition_to share.state s) "invalid memory share review transition")
          _ h1 in
      (
        ensure-ok _ _ a,
        ensure-ok _ _ b,
        elim (Bool-cases (s == ShareReviewState.approved)) [
          | inl e ↦ inr (check_approval-ok (call.clock 0) o w share db (rw e at h2))
          | inr e ↦ inl (λ q. ground (arith, e, q))
        ],
      )

  -- A review that succeeds either finds no grant and changes nothing, or finds a grant of the workspace
  -- and takes it a step that the review states allow, and an approval only while the memory is stored
  -- in the workspace, published and unexpired.
  pub review_memory_share-ok :
      (call : Call) (id : Uuid) (o w : String) (s : ShareReviewState) (by : Uuid)
      (note : Option String) (db : Database p) {r : Option MemoryShare} {db' : Database p}
      → review_memory_share p call id o w s by note db ≡ ok (r, db')
      → ((get id db.memory_shares ≡ none) × (r ≡ none) × (db' ≡ db))
        ⊎ Reviewed call id o w s by note db r db'
  unfolding review_memory_share insert_outbox_event
  review_memory_share-ok call id o w s by note db h =
      let (a, h1) = >>-eq-ok (ensure_scope o w) _ h in
      let (b, h2) =
        >>-eq-ok
          (ensure (is_none_or (λ note. leb (len note) 1024) note)
            "review note exceeds the 1 KiB limit")
          _ h1 in
      elim (Option-cases (get id db.memory_shares)) [
        | inl missing ↦ inl (missing, ground (arith, h2, missing), ground (arith, h2, missing))
        | inr (share, found) ↦
            let h3 = rw found at h2 in
            let (c, h4) = >>-eq-ok (check_review p call o w s share db) _ h3 in
            let (own, fwd, app) = check_review-ok call o w s share db c in
            inr (record {
              share = share;
              found = found;
              owned = own;
              forward = fwd;
              approval = app;
              result = ground arith;
              stored = ground arith;
              frame = ground arith;
            })
      ]
