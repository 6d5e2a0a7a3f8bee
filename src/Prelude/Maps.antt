-- ===== src/Prelude/Maps.antt =====
-- `BTreeMap::insert` on a list of rows in the order of their keys.
use Prim.Native.Nat.{ℕ}
use mathlib.Core.List.{List, [], ◌∷◌}
use hangar_ia.Prelude.Tests.{ltb, ◌==◌, nat_eq, Bool-cases, if◌then◌else◌}
use hangar_ia.Prelude.Lists.{All}
use mathlib.Core.Logic.{inl, inr}

module _ {ℓ} {V : Type ℓ} where
  unfoldable pub put : ℕ → V → List (ℕ × V) → List (ℕ × V)
  put k v [] = (k, v) ∷ []
  put k v ((j, w) ∷ rows) =
      let later = put k v rows in
      if j == k then (k, v) ∷ rows else if ltb k j then (k, v) ∷ (j, w) ∷ rows else (j, w) ∷ later

  -- What holds of the old values and of the new one holds of all values.
  pub All-put :
      (P : ℕ × V → Type 0) (k : ℕ) (v : V) (rows : List (ℕ × V))
      → P (k, v)
      → All P rows
      → All P (put k v rows)
  unfolding put
  All-put P k v [] new old = (new, tt)
  All-put P k v ((j, w) ∷ rows) new old = elim (Bool-cases (j == k)) [
    | inl same ↦ rw same (new, old.1)
    | inr other ↦ elim (Bool-cases (ltb k j)) [
      | inl below ↦ rw (other, below) (new, old)
      | inr above ↦ rw (other, above) (old.0, All-put P k v rows new old.1)
    ]
  ]
