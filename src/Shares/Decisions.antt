-- ===== src/Shares/Decisions.antt =====
-- When `review_memory_share` of packages/hangar-server/src/store.rs succeeds, and what it then gives.
use hangar_ia.Prelude.{
  ◌+◌, ◌%◌, ◌^◌, ◌≤◌, String, ◌≡◌, ◌↔◌, ◌≢◌, refl, sym, ◌∙◌, Bool-cases, ◌⊎◌, inl, inr, true, false,
  Option, none, some, some_inj, ok, err, Outcome-cases, Option-cases, >>-eq-ok, ensure, ensure-ok,
  arith, is_blank, len, leb, subst, is_none_or, ◌==◌, ==_iff, ==_refl, nat_eq, string_eq,
}
use hangar_ia.Platform.{Uuid, Platform, Call}
use hangar_ia.Types.Sharing.{ShareReviewState, MemoryShare, review_eq}
use hangar_ia.Database.{Database}
use hangar_ia.Scope.{in_scope, ensure_scope}
use hangar_ia.Scope.Laws.{in_scope-eq}
use hangar_ia.Shares.{keep_note, check_approval, check_review, reviewed, review_memory_share}
use hangar_ia.Shares.Outcomes.{Reviewed, review_memory_share-ok}
use hangar_ia.Shares.Conditions.{
  ReviewStep, can_transition_to_iff, ensure_scope_iff, IsShareable, Shareable-IsShareable,
  IsShareable-Shareable,
}

-- A note of a kibibyte at most.
abbrev pub IsShort : Option String → Type 0
IsShort remark = (n : String) → remark ≡ some n → len n ≤ 1024

IsShort-iff :
    (remark : Option String) → (is_none_or (λ n. leb (len n) 1024) remark ≡ true) ↔ IsShort remark
IsShort-iff none = (λ h n e. absurd (cc), λ h. refl)
IsShort-iff (some n) = (
  λ h m e. subst (λ k. len k ≤ 1024) (some_inj e) (ground (arith, h)),
  λ h. ground (arith, h n refl),
)

module _ (p : Platform) where
  open p.uuids use {get, insert}

  -- A grant that a review may take to a state.
  pub record MayStep (call : Call) (o w : String) (s : ShareReviewState) (share : MemoryShare)
      (db : Database p) : Type 0 where
    pub organization : share.organization_id ≡ o
    pub workspace : share.source_workspace_id ≡ w
    pub step : ReviewStep share.state s
    pub approval :
        s ≡ ShareReviewState.approved → IsShareable p (call.clock 0) o w share.memory_id db

  -- What a review asks for.
  pub record MayReview (call : Call) (id : Uuid) (o w : String) (s : ShareReviewState)
      (remark : Option String) (db : Database p) : Type 0 where
    pub scope : (is_blank o ≡ false) × (is_blank w ≡ false)
    pub short : IsShort remark
    pub grant :
        (share : MemoryShare) → get id db.memory_shares ≡ some share → MayStep call o w s share db

  -- The grant in its new state, with its reviewer and one version on, and what a review writes.
  pub record IsReviewed (call : Call) (id : Uuid) (s : ShareReviewState) (by : Uuid)
      (remark : Option String) (share : MemoryShare) (r : Option MemoryShare) (db db' : Database p)
      : Type 0 where
    pub share' : MemoryShare
    pub result : r ≡ some share'
    pub share_is : share' ≡ record share {
      state = s;
      reviewed_by = some by;
      review_note = keep_note remark;
      updated_at_unix_ms = call.clock 1;
      version = (share.version + 1) % 2 ^ 32;
    }
    pub stored : db'.memory_shares ≡ insert id share' db.memory_shares
    pub frame :
        db' ≡ record db { memory_shares = db'.memory_shares; outbox_events = db'.outbox_events }

  -- Where no grant is found, nothing is written.
  abbrev pub AfterReview :
      Call
      → Uuid
      → ShareReviewState
      → Uuid
      → Option String
      → Option MemoryShare
      → Option MemoryShare
      → Database p
      → Database p
      → Type 0
  AfterReview call id s by remark none r db db' = (r ≡ none) × (db' ≡ db)
  AfterReview call id s by remark (some share) r db db' =
      IsReviewed call id s by remark share r db db'

  MayStep-check :
      (call : Call) (o w : String) (s : ShareReviewState) (share : MemoryShare) (db : Database p)
      → MayStep call o w s share db
      → check_review p call o w s share db ≡ ok tt
  unfolding check_review check_approval
  MayStep-check call o w s share db h =
      let scope : in_scope share.organization_id share.source_workspace_id o w ≡ true =
        rw (h.organization, h.workspace, ==_refl o, ==_refl w) refl in
      let step = (can_transition_to_iff share.state s).1 h.step in
      elim (Bool-cases (s == ShareReviewState.approved)) [
        | inr other ↦ rw (scope, step, other) refl
        | inl approving ↦
            let m =
              IsShareable-Shareable p (call.clock 0) o w share.memory_id db
                (h.approval ((==_iff s ShareReviewState.approved).0 approving)) in
            rw (scope, step, approving, m.found, m.owned, m.retrievable) refl
      ]

  MayReview-accepted :
      (call : Call) (id : Uuid) (o w : String) (s : ShareReviewState) (by : Uuid)
      (remark : Option String) (db : Database p) (message : String)
      → MayReview call id o w s remark db
      → review_memory_share p call id o w s by remark db ≢ err message
  unfolding review_memory_share
  MayReview-accepted call id o w s by remark db message h refused =
      let scope = (ensure_scope_iff o w).1 h.scope in
      let short = (IsShort-iff remark).1 h.short in
      elim (Option-cases (get id db.memory_shares)) [
        | inl missing ↦ ground (arith, rw (scope, short, missing) at refused)
        | inr (share, found) ↦
            let step = MayStep-check call o w s share db (h.grant share found) in
            ground (arith, rw (scope, short, found, step) at refused)
      ]

  -- What the tests before the search of the grant give.
  review-first :
      (call : Call) (id : Uuid) (o w : String) (s : ShareReviewState) (by : Uuid)
      (remark : Option String) (db : Database p) (r : Option MemoryShare × Database p)
      → review_memory_share p call id o w s by remark db ≡ ok r
      → ((is_blank o ≡ false) × (is_blank w ≡ false)) × IsShort remark
  unfolding review_memory_share
  review-first call id o w s by remark db r h =
      let (a, h1) = >>-eq-ok (ensure_scope o w) _ h in
      let (b, h2) =
        >>-eq-ok
          (ensure (is_none_or (λ remark. leb (len remark) 1024) remark)
            "review note exceeds the 1 KiB limit")
          _ h1 in
      ((ensure_scope_iff o w).0 a, (IsShort-iff remark).0 (ensure-ok _ _ b))

  Reviewed-MayStep :
      (call : Call) (id : Uuid) (o w : String) (s : ShareReviewState) (by : Uuid)
      (remark : Option String) (db : Database p) (r : Option MemoryShare) (db' : Database p)
      (c : Reviewed p call id o w s by remark db r db')
      → MayStep call o w s c.share db
  Reviewed-MayStep call id o w s by remark db r db' c =
      let scope = in_scope-eq _ _ o w c.owned in
      record {
        organization = scope.0;
        workspace = scope.1;
        step = (can_transition_to_iff c.share.state s).0 c.forward;
        approval = λ e. elim c.approval [
          | inl other ↦ absurd (other e)
          | inr m ↦ Shareable-IsShareable p (call.clock 0) o w c.share.memory_id db m
        ];
      }

  Reviewed-IsReviewed :
      (call : Call) (id : Uuid) (o w : String) (s : ShareReviewState) (by : Uuid)
      (remark : Option String) (db : Database p) (r : Option MemoryShare) (db' : Database p)
      (c : Reviewed p call id o w s by remark db r db')
      → IsReviewed call id s by remark c.share r db db'
  unfolding reviewed
  Reviewed-IsReviewed call id o w s by remark db r db' c = record {
    share' = reviewed (call.clock 1) s by remark c.share;
    result = c.result;
    share_is = refl;
    stored = c.stored;
    frame = c.frame;
  }

  -- A review succeeds exactly when its scope is named, its note has a kibibyte at most, and the grant,
  -- if there is one with the id, is of the workspace, the state follows its own, and for an approval the
  -- memory is still stored in the workspace, published and not past its expiry. It then gives the grant
  -- in that state, with its reviewer and one version on, stores it, and writes only that grant and
  -- events; without a grant it gives none and writes nothing. Else it gives an error.
  pub review_memory_share_lem :
      (call : Call) (id : Uuid) (o w : String) (s : ShareReviewState) (by : Uuid)
      (remark : Option String) (db : Database p)
      → (MayReview call id o w s remark db
          × ((r : Option MemoryShare) × (db' : Database p) × (review_memory_share p call id o w s by
                  remark db
                ≡ ok (r, db'))
              × AfterReview call id s by remark (get id db.memory_shares) r db db'))
        ⊎ ((¬ MayReview call id o w s remark db)
            × ((message : String) × (review_memory_share p call id o w s by remark db
                  ≡ err message)))
  review_memory_share_lem call id o w s by remark db =
      elim (Outcome-cases (review_memory_share p call id o w s by remark db)) [
        | inr (message, refused) ↦ inr (
          λ may. MayReview-accepted call id o w s by remark db message may refused,
          (message, refused),
        )
        | inl (r, done) ↦
            let (scope, short) = review-first call id o w s by remark db r done in
            elim (review_memory_share-ok p call id o w s by remark db done) [
              | inl (missing, nothing, same) ↦ inl (
                record {
                  scope = scope;
                  short = short;
                  grant = λ share found. absurd (ground (arith, missing, found));
                },
                (r.0, r.1, done, rw missing (nothing, same)),
              )
              | inr c ↦
                  let step = Reviewed-MayStep call id o w s by remark db r.0 r.1 c in
                  inl (
                    record {
                      scope = scope;
                      short = short;
                      grant = λ share found.
                          subst (λ x. MayStep call o w s x db) (some_inj (sym c.found ∙ found))
                            step;
                    },
                    (
                      r.0,
                      r.1,
                      done,
                      rw (c.found) (Reviewed-IsReviewed call id o w s by remark db r.0 r.1 c),
                    ),
                  )
            ]
      ]
