-- ===== src/Outbox/Cuts.antt =====
-- Lists that are cut behind a first part, as the pages of the outbox are.
use hangar_ia.Prelude.{
  ℕ, zero, suc, ◌≤◌, ◌≡◌, refl, ap, Option, none, some, List, [], ◌∷◌, ◌++◌, map, length, All, take,
  arith,
}
use hangar_ia.Platform.{Uuid}
use hangar_ia.Types.Events.{OutboxEvent}

module _ {ℓ} {A : Type ℓ} where
  abbrev pub drop : ℕ → List A → List A
  drop zero xs = xs
  drop (suc n) [] = []
  drop (suc n) (x ∷ xs) = drop n xs

  abbrev pub last : List A → Option A
  last [] = none
  last (x ∷ []) = some x
  last (x ∷ y ∷ xs) = last (y ∷ xs)

  -- A list that is cut behind its first part, with the last member of that part.
  abbrev Cut : ℕ → A → List A → Type ℓ
  Cut m x xs =
      (front : List A) × (a : A) × (last (take (suc m) (x ∷ xs)) ≡ some a)
      × (x ∷ xs ≡ front ++ (a ∷ drop (suc m) (x ∷ xs)))

  pub cut : (m : ℕ) (x : A) (xs : List A) → Cut m x xs
  cut zero x xs = ([], x, refl, refl)
  cut (suc m) x [] = ([], x, refl, refl)
  cut (suc m) x (y ∷ xs) = let c = cut m y xs in (x ∷ c.0, c.1, c.2, ap (◌∷◌ x) c.3)

  pub length-drop-le : (m : ℕ) (x : A) (xs : List A) → length (drop (suc m) (x ∷ xs)) ≤ length xs
  length-drop-le zero x xs = omega arith
  length-drop-le (suc m) x [] = omega arith
  length-drop-le (suc m) x (y ∷ xs) = omega (arith, length-drop-le m y xs)

abbrev pub Row : Type 0
Row = Uuid × OutboxEvent

abbrev pub event_of : Row → OutboxEvent
event_of row = row.1

-- An event is stored under its id.
abbrev pub HasIds : List Row → Type 0
HasIds rs = All (λ (row : Row). row.1.id ≡ row.0) rs

pub map-take : (n : ℕ) (rs : List Row) → map event_of (take n rs) ≡ take n (map event_of rs)
map-take zero rs = refl
map-take (suc n) [] = refl
map-take (suc n) (r ∷ rs) = ap (◌∷◌ r.1) (map-take n rs)

pub last-map :
    (rs : List Row) (row : Row) → last rs ≡ some row → last (map event_of rs) ≡ some row.1
last-map [] row e = absurd (cc)
last-map (r ∷ []) row e = ground arith
last-map (r ∷ q ∷ rs) row e = last-map (q ∷ rs) row e

pub take-drop :
    (n : ℕ) (rs : List Row) → map event_of (take n rs) ++ map event_of (drop n rs) ≡ map event_of rs
take-drop zero rs = refl
take-drop (suc n) [] = refl
take-drop (suc n) (r ∷ rs) = ap (◌∷◌ r.1) (take-drop n rs)

pub length-map : (rs : List Row) → length (map event_of rs) ≡ length rs
length-map [] = refl
length-map (r ∷ rs) = ap suc (length-map rs)
