-- ===== src/Platform/Exclusive.antt =====
-- Tables in which no two rows clash, and the inserts that keep them so.
use hangar_ia.Platform.Defs.{Uuid, Platform}
use hangar_ia.Prelude.{
  ◌≡◌, sym, ◌∙◌, ap, subst, none, some, ◌⊎◌, inl, inr, Bool-cases, ==_iff, ◌==◌, nat_eq, arith,
  if◌then◌else◌,
}

module _ (p : Platform) {V : Type 0} where
  open p.uuids use {Table, get, insert, get-insert, get-empty}

  -- The row that is found after an insert is the new one or an old one.
  pub insert-cases :
      (i j : Uuid) (x a : V) (t t' : Table V)
      → t' ≡ insert i x t
      → get j t' ≡ some a
      → ((i ≡ j) × (a ≡ x)) ⊎ (get j t ≡ some a)
  insert-cases i j x a t t' e h =
      let k : (if i == j then some x else get j t) ≡ some a =
        sym (get-insert j i x t) ∙ (ap (get j) (sym e) ∙ h) in
      elim (Bool-cases (i == j)) [
        | inl same ↦ inl ((==_iff i j).0 same, ground (arith, k, same))
        | inr other ↦ inr (ground (arith, k, other))
      ]

  module _ (Clash : V → V → Type 0) where
    -- Rows that clash are the same row.
    abbrev pub IsExclusive : Table V → Type 0
    IsExclusive t = (j k : Uuid) (a b : V) → get j t ≡ some a → get k t ≡ some b → Clash a b → j ≡ k

    pub empty-IsExclusive : (t : Table V) → ((k : Uuid) → get k t ≡ none) → IsExclusive t
    empty-IsExclusive t e j k a b h = absurd (ground (arith, h, e j))

    -- A new row that clashes with no stored one.
    pub add-IsExclusive :
        (i : Uuid) (x : V) (t t' : Table V)
        → t' ≡ insert i x t
        → ((k : Uuid) (b : V) → get k t ≡ some b → Clash x b → ⊥)
        → ((k : Uuid) (b : V) → get k t ≡ some b → Clash b x → ⊥)
        → IsExclusive t
        → IsExclusive t'
    add-IsExclusive i x t t' e free_left free_right n j k a b hj hk c =
        elim (insert-cases i j x a t t' e hj) [
          | inl (ij, ax) ↦ elim (insert-cases i k x b t t' e hk) [
            | inl (ik, bx) ↦ sym ij ∙ ik
            | inr old_b ↦ absurd (free_left k b old_b (subst (λ y. Clash y b) ax c))
          ]
          | inr old_a ↦ elim (insert-cases i k x b t t' e hk) [
            | inl (ik, bx) ↦ absurd (free_right j a old_a (subst (λ y. Clash a y) bx c))
            | inr old_b ↦ n j k a b old_a old_b c
          ]
        ]

    -- A new state of a row that clashes with no more than the old state did.
    pub replace-IsExclusive :
        (i : Uuid) (old x : V) (t t' : Table V)
        → get i t ≡ some old
        → t' ≡ insert i x t
        → ((b : V) → Clash x b → Clash old b)
        → ((b : V) → Clash b x → Clash b old)
        → IsExclusive t
        → IsExclusive t'
    replace-IsExclusive i old x t t' found e left right n j k a b hj hk c =
        elim (insert-cases i j x a t t' e hj) [
          | inl (ij, ax) ↦ elim (insert-cases i k x b t t' e hk) [
            | inl (ik, bx) ↦ sym ij ∙ ik
            | inr old_b ↦ sym ij ∙ n i k old b found old_b (left b (subst (λ y. Clash y b) ax c))
          ]
          | inr old_a ↦ elim (insert-cases i k x b t t' e hk) [
            | inl (ik, bx) ↦ n j i a old old_a found (right a (subst (λ y. Clash a y) bx c)) ∙ ik
            | inr old_b ↦ n j k a b old_a old_b c
          ]
        ]
