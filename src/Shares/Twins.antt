-- ===== src/Shares/Twins.antt =====
-- One open grant of a memory for an audience.
use hangar_ia.Prelude.{
  ℕ, String, true, Option, some, ◌≡◌, sym, ◌∙◌, ap, subst, inl, inr, arith, any, any_iff, ==_refl,
  nat_eq, string_eq,
}
use hangar_ia.Platform.{Uuid, Platform}
use hangar_ia.Platform.Rows.{Memᴰ-find_row}
use hangar_ia.Platform.Exclusive.{
  IsExclusive, empty-IsExclusive, add-IsExclusive, replace-IsExclusive,
}
use hangar_ia.Types.Sharing.{ShareAudience, ShareReviewState, MemoryShare}
use hangar_ia.Database.{Database, empty_database}
use hangar_ia.Sharing.{stable_key, can_transition_to}
use hangar_ia.Shares.{is_open_grant, is_duplicate, new_share, reviewed}
use hangar_ia.Shares.Outcomes.{propose_memory_share-ok, review_memory_share-ok}
use hangar_ia.Shares.Steps.{ShareStep, proposed, reviewing, elsewhere, ShareReach, start, next}

can_transition_to-open :
    (a b : ShareReviewState)
    → can_transition_to a b ≡ true
    → is_open_grant b ≡ true
    → is_open_grant a ≡ true
unfolding can_transition_to
can_transition_to-open a b h o = ground arith

module _ (p : Platform) where
  open p.uuids use {get, insert, rows, get-insert, get-rows, get-empty}

  -- Two grants of one memory to one audience.
  pub record SameGrant (a b : MemoryShare) : Type 0 where
    pub organization : a.organization_id ≡ b.organization_id
    pub workspace : a.source_workspace_id ≡ b.source_workspace_id
    pub memory : a.memory_id ≡ b.memory_id
    pub audience : stable_key p.uuid_text a.audience ≡ stable_key p.uuid_text b.audience

  pub record OpenTwins (a b : MemoryShare) : Type 0 where
    pub same : SameGrant a b
    pub left : is_open_grant a.state ≡ true
    pub right : is_open_grant b.state ≡ true

  pub is_duplicate-true :
      (k : Uuid) (o w : String) (id : Uuid) (a : ShareAudience) (b : MemoryShare)
      → b.organization_id ≡ o
      → b.source_workspace_id ≡ w
      → b.memory_id ≡ id
      → stable_key p.uuid_text b.audience ≡ stable_key p.uuid_text a
      → is_open_grant b.state ≡ true
      → is_duplicate p o w id a (k, b) ≡ true
  unfolding is_duplicate
  is_duplicate-true k o w id a b e1 e2 e3 e4 e5 =
      rw (e1, e2, e3, e4, e5, ==_refl o, ==_refl w, ==_refl id, ==_refl (stable_key p.uuid_text a))

  pub stored_duplicate :
      (k : Uuid) (o w : String) (id : Uuid) (a : ShareAudience) (b : MemoryShare) (db : Database p)
      → get k db.memory_shares ≡ some b
      → is_duplicate p o w id a (k, b) ≡ true
      → any (is_duplicate p o w id a) (rows db.memory_shares) ≡ true
  stored_duplicate k o w id a b db h d =
      (any_iff (is_duplicate p o w id a) (rows db.memory_shares)).1 (
        (k, b),
        Memᴰ-find_row k b (rows db.memory_shares) (sym (get-rows k db.memory_shares) ∙ h),
        d,
      )

  OpenTwins-reviewed_left :
      (now : ℕ) (s : ShareReviewState) (by : Uuid) (remark : Option String) (x : MemoryShare)
      → can_transition_to x.state s ≡ true
      → (b : MemoryShare) → OpenTwins (reviewed now s by remark x) b
      → OpenTwins x b
  unfolding reviewed
  OpenTwins-reviewed_left now s by remark x f b t = record {
    same = record {
      organization = t.same.organization;
      workspace = t.same.workspace;
      memory = t.same.memory;
      audience = t.same.audience;
    };
    left = can_transition_to-open x.state s f t.left;
    right = t.right;
  }

  OpenTwins-reviewed_right :
      (now : ℕ) (s : ShareReviewState) (by : Uuid) (remark : Option String) (x : MemoryShare)
      → can_transition_to x.state s ≡ true
      → (b : MemoryShare) → OpenTwins b (reviewed now s by remark x)
      → OpenTwins b x
  unfolding reviewed
  OpenTwins-reviewed_right now s by remark x f b t = record {
    same = record {
      organization = t.same.organization;
      workspace = t.same.workspace;
      memory = t.same.memory;
      audience = t.same.audience;
    };
    left = t.left;
    right = can_transition_to-open x.state s f t.right;
  }

  ShareStep-IsExclusive :
      {db db' : Database p}
      → ShareStep p db db'
      → IsExclusive p OpenTwins db.memory_shares
      → IsExclusive p OpenTwins db'.memory_shares
  unfolding new_share
  ShareStep-IsExclusive {db} {db'} (proposed call o w id a by t share fresh e) n =
      let c = propose_memory_share-ok p call o w id a by t db e in
      add-IsExclusive p OpenTwins (call.ids 0) share db.memory_shares db'.memory_shares c.stored
        (λ k b h s. ground (
          arith,
          c.alone,
          stored_duplicate k o w id a b db h (
              is_duplicate-true k o w id a b
                (sym s.same.organization ∙ ap (λ y. y.organization_id) c.result)
                (sym s.same.workspace ∙ ap (λ y. y.source_workspace_id) c.result)
                (sym s.same.memory ∙ ap (λ y. y.memory_id) c.result)
                (sym s.same.audience ∙ ap (λ y. stable_key p.uuid_text y.audience) c.result)
                s.right),
        ))
        (λ k b h s. ground (
          arith,
          c.alone,
          stored_duplicate k o w id a b db h (
              is_duplicate-true k o w id a b
                (s.same.organization ∙ ap (λ y. y.organization_id) c.result)
                (s.same.workspace ∙ ap (λ y. y.source_workspace_id) c.result)
                (s.same.memory ∙ ap (λ y. y.memory_id) c.result)
                (s.same.audience ∙ ap (λ y. stable_key p.uuid_text y.audience) c.result) s.left),
        ))
        n
  ShareStep-IsExclusive {db} {db'} (reviewing call id o w s by remark r e) n =
      elim (review_memory_share-ok p call id o w s by remark db e) [
        | inl (missing, nothing, same) ↦
            subst (λ d. IsExclusive p OpenTwins d.memory_shares) (sym same) n
        | inr c ↦
            replace-IsExclusive p OpenTwins id c.share (reviewed (call.clock 1) s by remark c.share)
              db.memory_shares db'.memory_shares c.found c.stored
              (OpenTwins-reviewed_left (call.clock 1) s by remark c.share c.forward)
              (OpenTwins-reviewed_right (call.clock 1) s by remark c.share c.forward) n
      ]
  ShareStep-IsExclusive (elsewhere e) n = subst (IsExclusive p OpenTwins) (sym e) n

  -- From an empty database on, one memory has one pending or approved grant for an audience at most.
  pub ShareReach-one :
      {db : Database p} (j k : Uuid) (a b : MemoryShare)
      → ShareReach p (empty_database p) db
      → get j db.memory_shares ≡ some a
      → get k db.memory_shares ≡ some b
      → SameGrant a b
      → is_open_grant a.state ≡ true
      → is_open_grant b.state ≡ true
      → j ≡ k
  ShareReach-one j k a b r hj hk s l m =
      exclusive r j k a b hj hk (record { same = s; left = l; right = m })
    where
      exclusive :
          {db1 : Database p}
          → ShareReach p (empty_database p) db1
          → IsExclusive p OpenTwins db1.memory_shares
      exclusive start = empty-IsExclusive p OpenTwins p.uuids.empty (get-empty {V = MemoryShare})
      exclusive (next r s) = ShareStep-IsExclusive s (exclusive r)
