-- ===== src/Platform/Rows.antt =====
-- Rows in the order of their keys, against the lookups by key.
use mathlib.Core.List.{Memᴰ}
use hangar_ia.Platform.Defs.{Platform, Uuid, find_row, IsAscending}
use hangar_ia.Prelude.{
  Memᴰ-All, ◌∙◌, ℕ, ◌<◌, ◌≡◌, refl, Bool, false, none, some, List, [], ◌∷◌, All, find, ◌==◌, nat_eq,
  arith, ==_iff, ap, ==_refl, Bool-cases, inl, inr,
}

module _ {V : Type 0} where
  pub find_row-below :
      (k : ℕ) (rs : List (ℕ × V)) → All (λ row. k < row.0) rs → find_row k rs ≡ none
  find_row-below k [] h = refl
  find_row-below k (row ∷ rs) h = ground (arith, find_row-below k rs h.1)

  find_row-above :
      (k j : ℕ) (v : V) (rs : List (ℕ × V))
      → All (λ row. k < row.0) rs
      → find_row j rs ≡ some v
      → k < j
  find_row-above k j v [] h e = absurd (cc)
  find_row-above k j v (row ∷ rs) h e = ground (arith, find_row-above k j v rs h.1)

  find-above :
      (q : ℕ × V → Bool) (k : ℕ) (rs : List (ℕ × V)) (row : ℕ × V)
      → All (λ r. k < r.0) rs
      → find q rs ≡ some row
      → k < row.0
  find-above q k [] row h e = absurd (cc)
  find-above q k (r ∷ rs) row h e = ground (arith, find-above q k rs row h.1)

  -- A row that a search finds is the one of its key.
  pub find_row-find :
      (q : ℕ × V → Bool) (rs : List (ℕ × V)) (row : ℕ × V)
      → IsAscending rs
      → find q rs ≡ some row
      → find_row row.0 rs ≡ some row.1
  find_row-find q [] row a e = absurd (cc)
  find_row-find q (r ∷ rs) row a e =
      ground (arith, find_row-find q rs row a.1, find-above q r.0 rs row a.0, ==_iff r.0 r.0)

  -- A row under a smaller key than the found one does not pass the test.
  pub find-first :
      (q : ℕ × V → Bool) (rs : List (ℕ × V)) (row : ℕ × V) (k : ℕ) (v : V)
      → IsAscending rs
      → find q rs ≡ some row
      → find_row k rs ≡ some v
      → k < row.0
      → q (k, v) ≡ false
  find-first q [] row k v a e h l = absurd (cc)
  find-first q (r ∷ rs) row k v a e h l = ground (
    arith,
    find-first q rs row k v a.1,
    find-above q r.0 rs row a.0,
    find_row-above r.0 k v rs a.0,
    ==_iff r.0 k,
  )

  -- A search that finds nothing has refused every row.
  pub find-none :
      (q : ℕ × V → Bool) (rs : List (ℕ × V)) (k : ℕ) (v : V)
      → find q rs ≡ none
      → find_row k rs ≡ some v
      → q (k, v) ≡ false
  find-none q [] k v e h = absurd (cc)
  find-none q (r ∷ rs) k v e h = ground (arith, find-none q rs k v, ==_iff r.0 k)

  All-Memᴰ :
      (k : ℕ) (row : ℕ × V) (rs : List (ℕ × V)) → All (λ r. k < r.0) rs → Memᴰ row rs → k < row.0
  All-Memᴰ k row [] h m = elim m [ ]
  All-Memᴰ k row (r ∷ rs) h (Memᴰ.head e) = ground (arith, h.0, ap (λ x. x.0) e)
  All-Memᴰ k row (r ∷ rs) h (Memᴰ.tail m) = All-Memᴰ k row rs h.1 m

  -- A row of the list is the one that its key finds, and the other way round.
  pub find_row-Memᴰ :
      (rs : List (ℕ × V)) (row : ℕ × V)
      → IsAscending rs
      → Memᴰ row rs
      → find_row row.0 rs ≡ some row.1
  find_row-Memᴰ [] row a m = elim m [ ]
  find_row-Memᴰ (r ∷ rs) row a (Memᴰ.head e) = rw (e, ==_refl r.0)
  find_row-Memᴰ (r ∷ rs) row a (Memᴰ.tail m) =
      ground (arith, find_row-Memᴰ rs row a.1 m, All-Memᴰ r.0 row rs a.0 m)

  pub Memᴰ-find_row : (k : ℕ) (v : V) (rs : List (ℕ × V)) → find_row k rs ≡ some v → Memᴰ (k, v) rs
  Memᴰ-find_row k v [] h = absurd (cc)
  Memᴰ-find_row k v ((j, w) ∷ rs) h = elim (Bool-cases (j == k)) [
    | inl e ↦ Memᴰ.head (ground (arith, h, e))
    | inr e ↦ Memᴰ.tail (Memᴰ-find_row k v rs (ground (arith, h, e)))
  ]

-- A row of a table is the one that its key finds.
pub row_found :
    (p : Platform) {V : Type 0} (t : p.uuids.Table V) (row : Uuid × V)
    → Memᴰ row (p.uuids.rows t)
    → p.uuids.get row.0 t ≡ some row.1
row_found p t row m =
    p.uuids.get-rows row.0 t ∙ find_row-Memᴰ (p.uuids.rows t) row (p.ascending t) m

-- The rows of a table are the ones that their keys find.
pub rows_found :
    (p : Platform) {V : Type 0} (t : p.uuids.Table V)
    → All (λ (row : Uuid × V). p.uuids.get row.0 t ≡ some row.1) (p.uuids.rows t)
rows_found p {V} t =
    Memᴰ-All (λ (row : Uuid × V). p.uuids.get row.0 t ≡ some row.1) (p.uuids.rows t) (row_found p t)
