-- ===== src/Prelude/Ranking.antt =====
-- `sort_by`, which is stable, with `take`: the first members of a ranking.
use Prim.Native.Nat.{ℕ, zero, suc, ◌≤◌}
use mathlib.Core.Path.{◌≡◌, refl, ap}
use mathlib.Core.Logic.{◌⊎◌, inl, inr}
use mathlib.Core.Bool.{Bool, true, false}
use mathlib.Core.List.{List, [], ◌∷◌, ◌++◌, Perm}
use mathlib.Core.List.Perm
use hangar_ia.Prelude.Tests.{if◌then◌else◌, Bool-cases}
use hangar_ia.Prelude.Lists.{length, take, All, length-take-le}

module _ {ℓ} {A : Type ℓ} where
  -- A new member stands before the first one that it may precede.
  unfoldable pub insert_by : (A → A → Bool) → A → List A → List A
  insert_by le x [] = x ∷ []
  insert_by le x (y ∷ ys) =
      let later = insert_by le x ys in if le x y then x ∷ y ∷ ys else y ∷ later

  -- `sort_by`, where `le x y` says that the comparison of x with y is not `Greater`
  unfoldable pub sort_by : (A → A → Bool) → List A → List A
  unfolding insert_by
  sort_by le [] = []
  sort_by le (x ∷ xs) = insert_by le x (sort_by le xs)

  abbrev pub drop : ℕ → List A → List A
  drop zero xs = xs
  drop (suc n) [] = []
  drop (suc n) (x ∷ xs) = drop n xs

  -- Each member may precede all that follow it.
  abbrev pub IsRanked : (A → A → Bool) → List A → Type 0
  IsRanked le [] = Unit
  IsRanked le (x ∷ xs) = All (λ y. le x y ≡ true) xs × IsRanked le xs

  -- The results are, up to their order, part of the candidates; they are ranked, at most n, and what
  -- they leave out follows all of them, and is only left out if they are n.
  pub record IsTop (le : A → A → Bool) (n : ℕ) (candidates results : List A) : Type ℓ where
    pub rest : List A
    pub all_there : Perm (results ++ rest) candidates
    pub bounded : length results ≤ n
    pub full : (rest ≡ []) ⊎ (length results ≡ n)
    pub ranked : IsRanked le results
    pub best : All (λ x. All (λ y. le x y ≡ true) rest) results

  insert_by-perm : (le : A → A → Bool) (x : A) (xs : List A) → Perm (insert_by le x xs) (x ∷ xs)
  unfolding insert_by
  insert_by-perm le x [] = Perm.refl (x ∷ [])
  insert_by-perm le x (y ∷ ys) = elim (Bool-cases (le x y)) [
    | inl first ↦ rw first (Perm.refl (x ∷ y ∷ ys))
    | inr later ↦ rw later (Perm.trans (Perm.cons y (insert_by-perm le x ys)) (Perm.swap x y ys))
  ]

  pub sort_by-perm : (le : A → A → Bool) (xs : List A) → Perm (sort_by le xs) xs
  unfolding sort_by
  sort_by-perm le [] = Perm.refl []
  sort_by-perm le (x ∷ xs) =
      Perm.trans (insert_by-perm le x (sort_by le xs)) (Perm.cons x (sort_by-perm le xs))

  -- What holds of all members holds of all members of the ranking.
  All-insert_by :
      (P : A → Type 0) (le : A → A → Bool) (x : A) (xs : List A)
      → P x
      → All P xs
      → All P (insert_by le x xs)
  unfolding insert_by
  All-insert_by P le x [] h hs = (h, tt)
  All-insert_by P le x (y ∷ ys) h hs = elim (Bool-cases (le x y)) [
    | inl first ↦ rw first (h, hs)
    | inr later ↦ rw later (hs.0, All-insert_by P le x ys h hs.1)
  ]

  pub All-sort_by :
      (P : A → Type 0) (le : A → A → Bool) (xs : List A) → All P xs → All P (sort_by le xs)
  unfolding sort_by
  All-sort_by P le [] hs = tt
  All-sort_by P le (x ∷ xs) hs =
      All-insert_by P le x (sort_by le xs) hs.0 (All-sort_by P le xs hs.1)

  take-drop : (n : ℕ) (xs : List A) → take n xs ++ drop n xs ≡ xs
  take-drop zero xs = refl
  take-drop (suc n) [] = refl
  take-drop (suc n) (x ∷ xs) = ap (◌∷◌ x) (take-drop n xs)

  take_full : (n : ℕ) (xs : List A) → (drop n xs ≡ []) ⊎ (length (take n xs) ≡ n)
  take_full zero xs = inr refl
  take_full (suc n) [] = inl refl
  take_full (suc n) (x ∷ xs) = elim (take_full n xs) [ inl e ↦ inl e | inr e ↦ inr (ap suc e) ]

  All-drop : (P : A → Type 0) (n : ℕ) (xs : List A) → All P xs → All P (drop n xs)
  All-drop P zero xs hs = hs
  All-drop P (suc n) [] hs = tt
  All-drop P (suc n) (x ∷ xs) hs = All-drop P n xs hs.1

  All-take : (P : A → Type 0) (n : ℕ) (xs : List A) → All P xs → All P (take n xs)
  All-take P zero xs hs = tt
  All-take P (suc n) [] hs = tt
  All-take P (suc n) (x ∷ xs) hs = (hs.0, All-take P n xs hs.1)

  IsRanked-take :
      (le : A → A → Bool) (n : ℕ) (xs : List A) → IsRanked le xs → IsRanked le (take n xs)
  IsRanked-take le zero xs r = tt
  IsRanked-take le (suc n) [] r = tt
  IsRanked-take le (suc n) (x ∷ xs) r =
      (All-take (λ y. le x y ≡ true) n xs r.0, IsRanked-take le n xs r.1)

  take_best :
      (le : A → A → Bool) (n : ℕ) (xs : List A)
      → IsRanked le xs
      → All (λ x. All (λ y. le x y ≡ true) (drop n xs)) (take n xs)
  take_best le zero xs r = tt
  take_best le (suc n) [] r = tt
  take_best le (suc n) (x ∷ xs) r = (All-drop (λ y. le x y ≡ true) n xs r.0, take_best le n xs r.1)

  module _ (le : A → A → Bool) (total : (x y : A) → le x y ≡ false → le y x ≡ true)
      (trans : (x y z : A) → le x y ≡ true → le y z ≡ true → le x z ≡ true) where
    All-precedes :
        (x y : A) (ys : List A)
        → le x y ≡ true
        → All (λ z. le y z ≡ true) ys
        → All (λ z. le x z ≡ true) ys
    All-precedes x y [] h hs = tt
    All-precedes x y (z ∷ ys) h hs = (trans x y z h hs.0, All-precedes x y ys h hs.1)

    insert_by-IsRanked : (x : A) (xs : List A) → IsRanked le xs → IsRanked le (insert_by le x xs)
    unfolding insert_by
    insert_by-IsRanked x [] r = (tt, tt)
    insert_by-IsRanked x (y ∷ ys) r = elim (Bool-cases (le x y)) [
      | inl first ↦ rw first ((first, All-precedes x y ys first r.0), r)
      | inr later ↦ rw later (
        All-insert_by (λ z. le y z ≡ true) le x ys (total x y later) r.0,
        insert_by-IsRanked x ys r.1,
      )
    ]

    pub sort_by-IsRanked : (xs : List A) → IsRanked le (sort_by le xs)
    unfolding sort_by
    sort_by-IsRanked [] = tt
    sort_by-IsRanked (x ∷ xs) = insert_by-IsRanked x (sort_by le xs) (sort_by-IsRanked xs)

    -- By a total and transitive order, the first n of the sorted candidates are their top.
    pub take-sort_by-IsTop :
        (n : ℕ) (candidates : List A) → IsTop le n candidates (take n (sort_by le candidates))
    take-sort_by-IsTop n candidates = record {
      rest = drop n (sort_by le candidates);
      all_there = rw (take-drop n (sort_by le candidates)) (sort_by-perm le candidates);
      bounded = length-take-le n (sort_by le candidates);
      full = take_full n (sort_by le candidates);
      ranked = IsRanked-take le n (sort_by le candidates) (sort_by-IsRanked candidates);
      best = take_best le n (sort_by le candidates) (sort_by-IsRanked candidates);
    }
