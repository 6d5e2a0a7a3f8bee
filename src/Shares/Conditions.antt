-- ===== src/Shares/Conditions.antt =====
-- What `propose_memory_share` and `review_memory_share` of packages/hangar-server/src/store.rs ask
-- for, described without their tests.
use hangar_ia.Prelude.{
  ℕ, String, ◌≡◌, ◌≢◌, ◌↔◌, refl, true, false, Bool-cases, inl, inr, Option, none, some, ok, any,
  any_iff, arith, ap, is_blank, ==_iff, ==_refl, &&_iff, nat_eq, string_eq,
}
use hangar_ia.Platform.{Uuid, Platform}
use hangar_ia.Platform.Rows.{row_found}
use hangar_ia.Types.Memory.{Memory, MemoryLifecycle, published}
use hangar_ia.Types.Sharing.{ShareAudience, ShareReviewState, MemoryShare, review_eq}
use hangar_ia.Database.{Database}
use hangar_ia.Scope.{ensure_scope}
use hangar_ia.Scope.Laws.{in_scope-eq}
use hangar_ia.Memory.Accept.{WithinYear}
use hangar_ia.Memory.Records.{is_published, is_retrievable}
use hangar_ia.Sharing.{validates, can_transition_to, stable_key}
use hangar_ia.Sharing.Access.{Unexpired, Unexpired-iff}
use hangar_ia.Shares.{ensure_share_expiry, is_duplicate, is_open_grant}
use hangar_ia.Shares.Outcomes.{Shareable}
use hangar_ia.Shares.Twins.{is_duplicate-true, stored_duplicate}

-- The review of a grant: a pending one is decided on, and an approved one may be revoked.
pub data ReviewStep (a b : ShareReviewState) : Type 0 where
  decided : a ≡ ShareReviewState.pending → b ≢ ShareReviewState.pending → ReviewStep a b
  withdrawn : a ≡ ShareReviewState.approved → b ≡ ShareReviewState.revoked → ReviewStep a b

can_transition_to-ReviewStep :
    (a b : ShareReviewState) → can_transition_to a b ≡ true → ReviewStep a b
unfolding can_transition_to
can_transition_to-ReviewStep ShareReviewState.pending ShareReviewState.approved h =
    decided refl (λ e. cc)
can_transition_to-ReviewStep ShareReviewState.pending ShareReviewState.rejected h =
    decided refl (λ e. cc)
can_transition_to-ReviewStep ShareReviewState.pending ShareReviewState.revoked h =
    decided refl (λ e. cc)
can_transition_to-ReviewStep ShareReviewState.approved ShareReviewState.revoked h =
    withdrawn refl refl
can_transition_to-ReviewStep _ _ h = absurd (cc)

decided-can_transition_to :
    (b : ShareReviewState)
    → b ≢ ShareReviewState.pending
    → can_transition_to ShareReviewState.pending b ≡ true
unfolding can_transition_to
decided-can_transition_to ShareReviewState.pending h = absurd (h refl)
decided-can_transition_to ShareReviewState.approved h = refl
decided-can_transition_to ShareReviewState.rejected h = refl
decided-can_transition_to ShareReviewState.revoked h = refl

ReviewStep-can_transition_to :
    (a b : ShareReviewState) → ReviewStep a b → can_transition_to a b ≡ true
unfolding can_transition_to
ReviewStep-can_transition_to a b (decided e d) = rw e (decided-can_transition_to b d)
ReviewStep-can_transition_to a b (withdrawn e f) = rw (e, f) refl

pub can_transition_to_iff :
    (a b : ShareReviewState) → (can_transition_to a b ≡ true) ↔ ReviewStep a b
can_transition_to_iff a b = (can_transition_to-ReviewStep a b, ReviewStep-can_transition_to a b)

-- An audience of a workspace names it.
abbrev pub IsNamed : ShareAudience → Type 0
IsNamed a = (v : String) → a ≡ ShareAudience.workspace v → is_blank v ≡ false

pub validates_iff : (a : ShareAudience) → (validates a ≡ true) ↔ IsNamed a
unfolding validates
validates_iff ShareAudience.organization = (λ h v e. absurd (cc), λ h. refl)
validates_iff (ShareAudience.workspace w) = (λ h v e. ground arith, λ h. ground (arith, h w refl))
validates_iff (ShareAudience.agent s) = (λ h v e. absurd (cc), λ h. refl)
validates_iff (ShareAudience.user s) = (λ h v e. absurd (cc), λ h. refl)

pub ensure_share_expiry_iff :
    (now : ℕ) (o : Option ℕ) → (ensure_share_expiry now o ≡ ok tt) ↔ WithinYear now o
unfolding ensure_share_expiry
ensure_share_expiry_iff now none = (λ h. tt, λ h. refl)
ensure_share_expiry_iff now (some t) = (λ h. ground arith, λ h. ground arith)

pub ensure_scope_iff :
    (o w : String) → (ensure_scope o w ≡ ok tt) ↔ ((is_blank o ≡ false) × (is_blank w ≡ false))
unfolding ensure_scope
ensure_scope_iff o w = (λ h. ground arith, λ h. ground arith)

is_published-eq : (a : MemoryLifecycle) → is_published a ≡ true → a ≡ published
is_published-eq a h = ground arith

module _ (p : Platform) where
  open p.uuids use {get, rows}

  -- A memory that may be shared at a time: stored in the workspace, published and not past its expiry.
  pub record IsShareable (now : ℕ) (o w : String) (id : Uuid) (db : Database p) : Type 0 where
    pub memory : Memory
    pub found : get id db.memories ≡ some memory
    pub organization : memory.organization_id ≡ o
    pub workspace : memory.workspace_id ≡ w
    pub lifecycle : memory.lifecycle ≡ published
    pub unexpired : Unexpired memory.expires_at_unix_ms now

  pub Shareable-IsShareable :
      (now : ℕ) (o w : String) (id : Uuid) (db : Database p)
      → Shareable p now o w id db
      → IsShareable now o w id db
  unfolding is_retrievable
  Shareable-IsShareable now o w id db s =
      let scope = in_scope-eq _ _ o w s.owned in
      let parts = (&&_iff _ _).0 s.retrievable in
      record {
        memory = s.memory;
        found = s.found;
        organization = scope.0;
        workspace = scope.1;
        lifecycle = is_published-eq s.memory.lifecycle parts.0;
        unexpired = (Unexpired-iff s.memory.expires_at_unix_ms now).0 parts.1;
      }

  pub IsShareable-Shareable :
      (now : ℕ) (o w : String) (id : Uuid) (db : Database p)
      → IsShareable now o w id db
      → Shareable p now o w id db
  unfolding is_retrievable
  IsShareable-Shareable now o w id db s = record {
    memory = s.memory;
    found = s.found;
    owned = rw (s.organization, s.workspace, ==_refl o, ==_refl w) refl;
    retrievable = (&&_iff _ _).1 (
      ap is_published s.lifecycle,
      (Unexpired-iff s.memory.expires_at_unix_ms now).1 s.unexpired,
    );
  }

  -- No pending or approved grant shares the memory from the workspace with the audience.
  abbrev pub IsAlone : String → String → Uuid → ShareAudience → Database p → Type 0
  IsAlone o w id a db =
      (key : Uuid) (share : MemoryShare)
      → get key db.memory_shares ≡ some share
      → share.organization_id ≡ o
      → share.source_workspace_id ≡ w
      → share.memory_id ≡ id
      → stable_key p.uuid_text share.audience ≡ stable_key p.uuid_text a
      → (share.state ≢ ShareReviewState.pending) × (share.state ≢ ShareReviewState.approved)

  is_duplicate-IsAlone :
      (o w : String) (id : Uuid) (a : ShareAudience) (db : Database p)
      → any (is_duplicate p o w id a) (rows db.memory_shares) ≡ false
      → IsAlone o w id a db
  is_duplicate-IsAlone o w id a db h key share found e1 e2 e3 e4 =
      let twin : is_open_grant share.state ≡ true
          → any (is_duplicate p o w id a) (rows db.memory_shares) ≡ true =
        λ open_grant.
          stored_duplicate p key o w id a share db found
            (is_duplicate-true p key o w id a share e1 e2 e3 e4 open_grant) in
      (
        λ e. ground (arith, h, twin (ap is_open_grant e)),
        λ e. ground (arith, h, twin (ap is_open_grant e)),
      )

  open_grant-cases :
      (s : ShareReviewState)
      → is_open_grant s ≡ true
      → s ≢ ShareReviewState.pending
      → s ≢ ShareReviewState.approved
      → true ≡ false
  open_grant-cases ShareReviewState.pending h d d' = absurd (d refl)
  open_grant-cases ShareReviewState.approved h d d' = absurd (d' refl)
  open_grant-cases ShareReviewState.rejected h d d' = absurd (cc)
  open_grant-cases ShareReviewState.revoked h d d' = absurd (cc)

  IsAlone-is_duplicate :
      (o w : String) (id : Uuid) (a : ShareAudience) (db : Database p)
      → IsAlone o w id a db
      → any (is_duplicate p o w id a) (rows db.memory_shares) ≡ false
  unfolding is_duplicate
  IsAlone-is_duplicate o w id a db h =
      elim (Bool-cases (any (is_duplicate p o w id a) (rows db.memory_shares))) [
        | inr lone ↦ lone
        | inl twin ↦
            let (row, m, dup) =
              (any_iff (is_duplicate p o w id a) (rows db.memory_shares)).0 twin in
            let share = row.1 in
            let (scope, rest) = (&&_iff _ _).0 dup in
            let (memory, rest') = (&&_iff _ _).0 rest in
            let (audience, open_grant) = (&&_iff _ _).0 rest' in
            let at = in_scope-eq _ _ o w scope in
            let closed =
              h row.0 share (row_found p db.memory_shares row m) at.0 at.1 ((==_iff _ _).0 memory)
                ((==_iff _ _).0 audience) in
            absurd (ground (arith, open_grant-cases share.state open_grant closed.0 closed.1))
      ]

  pub is_duplicate_iff :
      (o w : String) (id : Uuid) (a : ShareAudience) (db : Database p)
      → (any (is_duplicate p o w id a) (rows db.memory_shares) ≡ false) ↔ IsAlone o w id a db
  is_duplicate_iff o w id a db =
      (is_duplicate-IsAlone o w id a db, IsAlone-is_duplicate o w id a db)
