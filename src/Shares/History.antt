-- ===== src/Shares/History.antt =====
-- What becomes of a stored grant.
use hangar_ia.Prelude.{
  ℕ, ◌+◌, String, Option, some, ◌≡◌, refl, sym, ◌∙◌, ap, subst, inl, inr, arith, Bool-cases, ==_iff,
  ◌==◌, nat_eq, string_eq,
}
use hangar_ia.Platform.{Uuid, Platform}
use hangar_ia.Types.Sharing.{ShareReviewState, MemoryShare}
use hangar_ia.Database.{Database}
use hangar_ia.Sharing.{can_transition_to}
use hangar_ia.Sharing.Access.{Reviews, none_yet, review, Reviews-trans}
use hangar_ia.Shares.{reviewed}
use hangar_ia.Shares.Outcomes.{propose_memory_share-ok, review_memory_share-ok}
use hangar_ia.Shares.Steps.{ShareStep, proposed, reviewing, elsewhere, ShareReach, start, next}

-- The fields that a review does not change.
pub record SameTerms (a b : MemoryShare) : Type 0 where
  pub id : b.id ≡ a.id
  pub organization_id : b.organization_id ≡ a.organization_id
  pub source_workspace_id : b.source_workspace_id ≡ a.source_workspace_id
  pub memory_id : b.memory_id ≡ a.memory_id
  pub audience : b.audience ≡ a.audience
  pub proposed_by : b.proposed_by ≡ a.proposed_by
  pub source_memory_version : b.source_memory_version ≡ a.source_memory_version
  pub expires_at_unix_ms : b.expires_at_unix_ms ≡ a.expires_at_unix_ms

SameTerms-trans : {a b c : MemoryShare} → SameTerms a b → SameTerms b c → SameTerms a c
SameTerms-trans x y = record {
  id = y.id ∙ x.id;
  organization_id = y.organization_id ∙ x.organization_id;
  source_workspace_id = y.source_workspace_id ∙ x.source_workspace_id;
  memory_id = y.memory_id ∙ x.memory_id;
  audience = y.audience ∙ x.audience;
  proposed_by = y.proposed_by ∙ x.proposed_by;
  source_memory_version = y.source_memory_version ∙ x.source_memory_version;
  expires_at_unix_ms = y.expires_at_unix_ms ∙ x.expires_at_unix_ms;
}

module _ (p : Platform) where
  open p.uuids use {get, insert, rows, get-insert, get-rows, get-empty}

  -- The grant under a key, after a number of reviews.
  pub record GrantKept (k : Uuid) (a : MemoryShare) (db' : Database p) : Type 0 where
    pub share : MemoryShare
    pub stored : get k db'.memory_shares ≡ some share
    pub terms : SameTerms a share
    pub reviews : ℕ
    pub history : Reviews reviews a.state share.state

  unchanged :
      (db' : Database p) (k : Uuid) (a : MemoryShare)
      → get k db'.memory_shares ≡ some a
      → GrantKept k a db'
  unchanged db' k a h = record {
    share = a;
    stored = h;
    terms = record {
      id = refl;
      organization_id = refl;
      source_workspace_id = refl;
      memory_id = refl;
      audience = refl;
      proposed_by = refl;
      source_memory_version = refl;
      expires_at_unix_ms = refl;
    };
    reviews = 0;
    history = none_yet a.state;
  }

  SameTerms-reviewed :
      (now : ℕ) (s : ShareReviewState) (by : Uuid) (remark : Option String) (a : MemoryShare)
      → SameTerms a (reviewed now s by remark a)
  unfolding reviewed
  SameTerms-reviewed now s by remark a = record {
    id = refl;
    organization_id = refl;
    source_workspace_id = refl;
    memory_id = refl;
    audience = refl;
    proposed_by = refl;
    source_memory_version = refl;
    expires_at_unix_ms = refl;
  }

  ShareStep-Kept :
      {db db' : Database p} (k : Uuid) (a : MemoryShare)
      → get k db.memory_shares ≡ some a
      → ShareStep p db db'
      → GrantKept k a db'
  unfolding reviewed
  ShareStep-Kept {db} {db'} k a h (proposed call o w id au by t share fresh e) =
      let c = propose_memory_share-ok p call o w id au by t db e in
      elim (Bool-cases (call.ids 0 == k)) [
        | inl same ↦ absurd (ground (arith, fresh, h, (==_iff (call.ids 0) k).0 same))
        | inr other ↦ unchanged db' k a (rw (c.stored, get-insert, other) h)
      ]
  ShareStep-Kept {db} {db'} k a h (reviewing call id o w s by remark r e) =
      elim (review_memory_share-ok p call id o w s by remark db e) [
        | inl (missing, nothing, same) ↦ unchanged db' k a (rw same h)
        | inr c ↦ elim (Bool-cases (id == k)) [
          | inr other ↦ unchanged db' k a (rw (c.stored, get-insert, other) h)
          | inl own ↦
              let same : c.share ≡ a = ground (arith, c.found, h, (==_iff id k).0 own) in
              record {
                share = reviewed (call.clock 1) s by remark c.share;
                stored = rw (c.stored, get-insert, own);
                terms =
                    subst (λ y. SameTerms y (reviewed (call.clock 1) s by remark c.share)) same
                      (SameTerms-reviewed (call.clock 1) s by remark c.share);
                reviews = 1;
                history =
                    review (none_yet a.state)
                      (ap (λ y. can_transition_to y.state s) (sym same) ∙ c.forward);
              }
        ]
      ]
  ShareStep-Kept {db} {db'} k a h (elsewhere e) = unchanged db' k a (rw e h)

  -- A stored grant is never lost: its terms stay as they were proposed, and its state has come about
  -- by reviews that the code allows.
  pub ShareReach-Kept :
      {db db' : Database p} (k : Uuid) (a : MemoryShare)
      → get k db.memory_shares ≡ some a
      → ShareReach p db db'
      → GrantKept k a db'
  ShareReach-Kept {db} {db'} k a h start = unchanged db' k a h
  ShareReach-Kept k a h (next r s) =
      let x = ShareReach-Kept k a h r in
      let y = ShareStep-Kept k x.share x.stored s in
      record {
        share = y.share;
        stored = y.stored;
        terms = SameTerms-trans x.terms y.terms;
        reviews = x.reviews + y.reviews;
        history = Reviews-trans x.history y.history;
      }
