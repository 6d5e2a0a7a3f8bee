-- ===== src/Prelude/Lists.antt =====
-- Lists measured by native numbers, under the library's names, and predicates on all members.
use Prim.Native.Nat.{ℕ, zero, suc, ◌+◌, ◌≤◌}
use mathlib.Core.Path.{subst, ◌≡◌, refl}
use mathlib.Core.Bool.{Bool, true, false, ◌&&◌, ◌||◌}
use mathlib.Core.List.{List, [], ◌∷◌, ◌++◌}
use mathlib.Core.Option.{Option, none, some}
use mathlib.Core.Path.{ap}
use mathlib.Core.Logic.{◌↔◌, ◌⊎◌, inl, inr}
use mathlib.Core.List.{Memᴰ}
use native.Mathlib.Omega.{arith}
use hangar_ia.Prelude.Tests.{if◌then◌else◌, Bool-cases}

module _ {ℓ} {A : Type ℓ} where
  abbrev pub length : List A → ℕ
  length [] = 0
  length (x ∷ xs) = suc (length xs)

  abbrev pub is_empty : List A → Bool
  is_empty [] = true
  is_empty (x ∷ xs) = false

  abbrev pub any : (A → Bool) → List A → Bool
  any p [] = false
  any p (x ∷ xs) = p x || any p xs

  abbrev pub all : (A → Bool) → List A → Bool
  all p [] = true
  all p (x ∷ xs) = p x && all p xs

  -- `Iterator::filter` by a Boolean test
  abbrev pub filter : (A → Bool) → List A → List A
  filter p [] = []
  filter p (x ∷ xs) = let rest = filter p xs in if p x then x ∷ rest else rest

  -- `Iterator::find`
  abbrev pub find : (A → Bool) → List A → Option A
  find p [] = none
  find p (x ∷ xs) = if p x then some x else find p xs

  abbrev pub take : ℕ → List A → List A
  take zero xs = []
  take (suc n) [] = []
  take (suc n) (x ∷ xs) = x ∷ take n xs

  -- the sum of a number that each member has
  abbrev pub sum_by : (A → ℕ) → List A → ℕ
  sum_by f [] = 0
  sum_by f (x ∷ xs) = f x + sum_by f xs

  pub length-append : (xs ys : List A) → length (xs ++ ys) ≡ length xs + length ys
  length-append [] ys = omega arith
  length-append (x ∷ xs) ys = omega (arith, length-append xs ys)

  pub sum_by-append : (f : A → ℕ) (xs ys : List A) → sum_by f (xs ++ ys) ≡ sum_by f xs + sum_by f ys
  sum_by-append f [] ys = omega arith
  sum_by-append f (x ∷ xs) ys = omega (arith, sum_by-append f xs ys)

  pub length-filter-le : (p : A → Bool) (xs : List A) → length (filter p xs) ≤ length xs
  length-filter-le p [] = omega arith
  length-filter-le p (x ∷ xs) = ground (arith, length-filter-le p xs)

  pub length-take-le : (n : ℕ) (xs : List A) → length (take n xs) ≤ n
  length-take-le zero xs = omega arith
  length-take-le (suc n) [] = omega arith
  length-take-le (suc n) (x ∷ xs) = omega (arith, length-take-le n xs)

module _ {ℓ κ} {A : Type ℓ} where
  abbrev pub All : (A → Type κ) → List A → Type κ
  All P [] = Unit
  All P (x ∷ xs) = P x × All P xs

  pub All-append : (P : A → Type κ) (xs ys : List A) → All P xs → All P ys → All P (xs ++ ys)
  All-append P [] ys first rest = rest
  All-append P (x ∷ xs) ys (this, first) rest = (this, All-append P xs ys first rest)

  pub All-if :
      (P : A → Type κ) (b : Bool) (x : A) (xs : List A)
      → (b ≡ true → P x)
      → All P xs
      → All P (if b then x ∷ xs else xs)
  All-if P true x xs hx h = (hx refl, h)
  All-if P false x xs hx h = h

  -- All members that a filter keeps have `P`, if those that pass its test have.
  pub All-filter_test :
      (P : A → Type κ) (p : A → Bool) (xs : List A)
      → ((x : A) → p x ≡ true → P x)
      → All P (filter p xs)
  All-filter_test P p [] h = tt
  All-filter_test P p (x ∷ xs) h = All-if P (p x) x (filter p xs) (h x) (All-filter_test P p xs h)

  pub All-filter : (P : A → Type κ) (p : A → Bool) (xs : List A) → All P xs → All P (filter p xs)
  All-filter P p [] h = tt
  All-filter P p (x ∷ xs) h = All-if P (p x) x (filter p xs) (λ _. h.0) (All-filter P p xs h.1)

  pub All-take : (P : A → Type κ) (n : ℕ) (xs : List A) → All P xs → All P (take n xs)
  All-take P zero xs h = tt
  All-take P (suc n) [] h = tt
  All-take P (suc n) (x ∷ xs) h = (h.0, All-take P n xs h.1)

-- A found member passes the test.
pub find_sound {ℓ} :
    {A : Type ℓ} (p : A → Bool) (xs : List A) (a : A) → find p xs ≡ some a → p a ≡ true
find_sound p [] a h = ground arith
find_sound p (x ∷ xs) a h = ground (arith, find_sound p xs a)

-- `any` finds a member that passes the test.
pub any_iff {ℓ} :
    {A : Type ℓ} (p : A → Bool) (xs : List A)
    → (any p xs ≡ true) ↔ ((x : A) × Memᴰ x xs × (p x ≡ true))
any_iff {A = A} p xs = (found xs, λ w. passes xs w.0 w.1 w.2)
  where
    found : (ys : List A) → any p ys ≡ true → (x : A) × Memᴰ x ys × (p x ≡ true)
    found [] h = absurd (cc)
    found (y ∷ ys) h = elim (Bool-cases (p y)) [
      | inl e ↦ (y, Memᴰ.head refl, e)
      | inr e ↦
          (let w : (x : A) × Memᴰ x ys × (p x ≡ true) = found ys (ground (arith, h, e)) in
            (w.0, Memᴰ.tail w.1, w.2))
    ]

    passes : (ys : List A) (x : A) → Memᴰ x ys → p x ≡ true → any p ys ≡ true
    passes [] x m h = elim m [ ]
    passes (y ∷ ys) x (Memᴰ.head e) h = ground (arith, h, ap p e)
    passes (y ∷ ys) x (Memᴰ.tail m) h = ground (arith, passes ys x m h)

pub filter-append {ℓ} :
    {A : Type ℓ} (p : A → Bool) (xs ys : List A) → filter p (xs ++ ys) ≡ filter p xs ++ filter p ys
filter-append p [] ys = refl
filter-append p (x ∷ xs) ys = ground (arith, filter-append p xs ys)

-- What holds of every member.
pub Memᴰ-All {ℓ κ} :
    {A : Type ℓ} (P : A → Type κ) (xs : List A) → ((x : A) → Memᴰ x xs → P x) → All P xs
Memᴰ-All P [] h = tt
Memᴰ-All P (x ∷ xs) h = (h x (Memᴰ.head refl), Memᴰ-All P xs (λ y m. h y (Memᴰ.tail m)))

-- A found member has what all members have.
pub find-All {ℓ κ} :
    {A : Type ℓ} (P : A → Type κ) (q : A → Bool) (xs : List A) (a : A)
    → All P xs
    → find q xs ≡ some a
    → P a
find-All P q [] a h e = absurd (cc)
find-All P q (x ∷ xs) a h e = elim (Bool-cases (q x)) [
  | inl t ↦ subst P (ground (arith, e, t)) h.0
  | inr f ↦ find-All P q xs a h.1 (ground (arith, e, f))
]

-- Membership in a list with a conditional head.
module _ {ℓ} {A : Type ℓ} where
  pub Memᴰ-if_tail :
      (b : Bool) (a x : A) (xs : List A) → Memᴰ a xs → Memᴰ a (if b then x ∷ xs else xs)
  Memᴰ-if_tail true a x xs m = Memᴰ.tail m
  Memᴰ-if_tail false a x xs m = m

  pub Memᴰ-if_head :
      (b : Bool) (a x : A) (xs : List A) → b ≡ true → a ≡ x → Memᴰ a (if b then x ∷ xs else xs)
  Memᴰ-if_head true a x xs h e = Memᴰ.head e
  Memᴰ-if_head false a x xs h e = absurd (cc)

pub All-imp {ℓ κ μ} :
    {A : Type ℓ} (P : A → Type κ) (Q : A → Type μ) (xs : List A)
    → ((x : A) → P x → Q x)
    → All P xs
    → All Q xs
All-imp P Q [] f h = tt
All-imp P Q (x ∷ xs) f h = (f x h.0, All-imp P Q xs f h.1)

pub List-cases {ℓ} :
    {A : Type ℓ} (xs : List A) → (xs ≡ []) ⊎ ((x : A) × (rest : List A) × (xs ≡ x ∷ rest))
List-cases [] = inl refl
List-cases (x ∷ rest) = inr (x, rest, refl)

pub All-filter_imp {ℓ κ μ} :
    {A : Type ℓ} (P : A → Type κ) (Q : A → Type μ) (p : A → Bool) (xs : List A)
    → ((x : A) → P x → p x ≡ true → Q x)
    → All P xs
    → All Q (filter p xs)
All-filter_imp P Q p [] f h = tt
All-filter_imp P Q p (x ∷ xs) f h =
    All-if Q (p x) x (filter p xs) (f x h.0) (All-filter_imp P Q p xs f h.1)

-- `push` of what a loop gives, if it gives a value
abbrev pub cons_some {ℓ} : {A : Type ℓ} → Option A → List A → List A
cons_some none rest = rest
cons_some (some a) rest = a ∷ rest
