-- ===== src/Sharing/Access.antt =====
-- Whom a grant reaches, and how its review can go.
use hangar_ia.Prelude.{
  subst, ap, &&_iff, ◌↔◌, ◌+◌, ◌≤◌, suc, ==_refl, lt→ltb, ℕ, String, ◌≡◌, ◌<◌, Option, none, some,
  true, refl, arith, ==_iff, nat_eq, string_eq, is_none_or, ltb,
}
use hangar_ia.Platform.{Uuid}
use hangar_ia.Types.Sharing.{SubjectKind, ShareAudience, ShareReviewState, MemoryShare, review_eq}
use hangar_ia.Sharing.{permits, can_transition_to, is_active_for}

-- Whom an audience is meant for.
pub data Admits (a : ShareAudience) (w : String) (s : Uuid) (k : SubjectKind) : Type 0 where
  anyone : a ≡ ShareAudience.organization → Admits a w s k
  inside : a ≡ ShareAudience.workspace w → Admits a w s k
  one_agent : a ≡ ShareAudience.agent s → k ≡ SubjectKind.agent → Admits a w s k
  one_user : a ≡ ShareAudience.user s → k ≡ SubjectKind.user → Admits a w s k

permits-Admits :
    (a : ShareAudience) (w : String) (s : Uuid) (k : SubjectKind)
    → permits a w s k ≡ true
    → Admits a w s k
unfolding permits
permits-Admits ShareAudience.organization w s k h = anyone refl
permits-Admits (ShareAudience.workspace v) w s k h =
    inside (ap ShareAudience.workspace ((==_iff v w).0 h))
permits-Admits (ShareAudience.agent t) w s SubjectKind.agent h =
    one_agent (ap ShareAudience.agent ((==_iff t s).0 h)) refl
permits-Admits (ShareAudience.agent t) w s SubjectKind.user h = absurd (cc)
permits-Admits (ShareAudience.user t) w s SubjectKind.agent h = absurd (cc)
permits-Admits (ShareAudience.user t) w s SubjectKind.user h =
    one_user (ap ShareAudience.user ((==_iff t s).0 h)) refl

Admits-permits :
    (a : ShareAudience) (w : String) (s : Uuid) (k : SubjectKind)
    → Admits a w s k
    → permits a w s k ≡ true
unfolding permits
Admits-permits a w s k (anyone e) = rw e
Admits-permits a w s k (inside e) = rw (e, ==_refl w)
Admits-permits a w s k (one_agent e f) = rw (e, f, ==_refl s)
Admits-permits a w s k (one_user e f) = rw (e, f, ==_refl s)

-- The grant may be used: it is approved, it has not run out, and its audience holds the subject.
pub record IsActive (share : MemoryShare) (w : String) (s : Uuid) (k : SubjectKind) (now : ℕ)
    : Type 0 where
  pub approved : share.state ≡ ShareReviewState.approved
  pub unexpired : (t : ℕ) → share.expires_at_unix_ms ≡ some t → now < t
  pub admitted : Admits share.audience w s k

abbrev pub Unexpired : Option ℕ → ℕ → Type 0
Unexpired o now = (t : ℕ) → o ≡ some t → now < t

pub Unexpired-iff :
    (o : Option ℕ) (now : ℕ) → (is_none_or (λ t. ltb now t) o ≡ true) ↔ Unexpired o now
Unexpired-iff none now = (λ h t e. absurd (cc), λ h. refl)
Unexpired-iff (some t) now = (λ h u e. ground arith, λ h. lt→ltb now t (h t refl))

-- `is_active_for` holds exactly of an approved grant that has not run out and whose audience is the
-- organization, the workspace of the request, or the very subject with its kind.
pub is_active_for_iff :
    (share : MemoryShare) (w : String) (s : Uuid) (k : SubjectKind) (now : ℕ)
    → (is_active_for share w s k now ≡ true) ↔ IsActive share w s k now
unfolding is_active_for
is_active_for_iff share w s k now = (
  λ h.
      let parts = (&&_iff _ _).0 h in
      let rest = (&&_iff _ _).0 parts.1 in
      record {
        approved = (==_iff share.state ShareReviewState.approved).0 parts.0;
        unexpired = (Unexpired-iff share.expires_at_unix_ms now).0 rest.0;
        admitted = permits-Admits share.audience w s k rest.1;
      },
  λ v. (&&_iff _ _).1 (
    (==_iff share.state ShareReviewState.approved).1 v.approved,
    (&&_iff _ _).1 (
      (Unexpired-iff share.expires_at_unix_ms now).1 v.unexpired,
      Admits-permits share.audience w s k v.admitted,
    ),
  ),
)

-- A number of reviews that leads from one state to another.
pub data Reviews : ℕ → ShareReviewState → ShareReviewState → Type 0 where
  none_yet : (a : ShareReviewState) → Reviews 0 a a
  review :
      {n : ℕ} {a b c : ShareReviewState}
      → Reviews n a b
      → can_transition_to b c ≡ true
      → Reviews (suc n) a c

rank : ShareReviewState → ℕ
rank ShareReviewState.pending = 0
rank ShareReviewState.approved = 1
rank ShareReviewState.rejected = 2
rank ShareReviewState.revoked = 2

rank-can_transition_to :
    (a b : ShareReviewState) → can_transition_to a b ≡ true → rank a + 1 ≤ rank b
unfolding rank can_transition_to
rank-can_transition_to a b h = ground arith

rank-Reviews : {n : ℕ} {a b : ShareReviewState} → Reviews n a b → rank a + n ≤ rank b
rank-Reviews (none_yet a) = omega arith
rank-Reviews (review {a = a} {b = b} {c = c} r h) =
    omega (arith, rank-Reviews r, rank-can_transition_to b c h)

rank-le : (a : ShareReviewState) → rank a ≤ 2
unfolding rank
rank-le a = ground arith

-- A grant is reviewed at most twice, whatever the reviews are.
pub Reviews-le : {n : ℕ} {a b : ShareReviewState} → Reviews n a b → n ≤ 2
Reviews-le {n} {a} {b} r = omega (arith, rank-Reviews r, rank-le b)

Reviews-count : (m n : ℕ) → suc (m + n) ≡ m + suc n
Reviews-count m n = omega arith

pub Reviews-trans :
    {m n : ℕ} {a b c : ShareReviewState} → Reviews m a b → Reviews n b c → Reviews (m + n) a c
Reviews-trans {m} {n} {a} {b} r (none_yet c) = subst (λ k. Reviews k a b) (omega arith) r
Reviews-trans {m} {a = a} {c = c} r (review {n = n} s h) =
    subst (λ k. Reviews k a c) (Reviews-count m n) (review (Reviews-trans r s) h)
