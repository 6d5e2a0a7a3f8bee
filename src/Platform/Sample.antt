-- ===== src/Platform/Sample.antt =====
-- A platform of lists of rows, which shows that the laws can be met and on which tests run.
use Prim.Native.Nat.{zero}
use Prim.Native.String.{◌++◌ as append}
use hangar_ia.Platform.Defs.{Redb, Platform, Call, find_row, old_row, Replaced, IsAscending}
use hangar_ia.Prelude.{
  len, ℕ, suc, ◌+◌, ◌<◌, String, ◌≡◌, refl, none, some, List, [], ◌∷◌, ◌++◌, All, ◌==◌, nat_eq,
  string_eq, ltb, arith, ==_iff, if◌then◌else◌, Bool-cases, inl, inr,
}

module _ {V : Type 0} where
  -- a row in its place
  abbrev pub put : ℕ → V → List (ℕ × V) → List (ℕ × V)
  put k v [] = (k, v) ∷ []
  put k v ((j, w) ∷ rows) =
      if j == k
      then (k, v) ∷ rows
      else if ltb k j
      then (k, v) ∷ (j, w) ∷ rows
      else (j, w) ∷ put k v rows

  All-put :
      (i k : ℕ) (v : V) (rows : List (ℕ × V))
      → i < k
      → All (λ row. i < row.0) rows
      → All (λ row. i < row.0) (put k v rows)
  All-put i k v [] h a = (h, tt)
  All-put i k v (row ∷ rows) h a = ground (arith, All-put i k v rows h a.1)

  All-weaken :
      (i k : ℕ) (rows : List (ℕ × V))
      → i < k
      → All (λ row. k < row.0) rows
      → All (λ row. i < row.0) rows
  All-weaken i k [] h a = tt
  All-weaken i k (row ∷ rows) h a = (omega arith, All-weaken i k rows h a.1)

  pub put-IsAscending :
      (k : ℕ) (v : V) (rows : List (ℕ × V)) → IsAscending rows → IsAscending (put k v rows)
  put-IsAscending k v [] a = (tt, tt)
  put-IsAscending k v ((j, w) ∷ rows) a =
      ground (arith, put-IsAscending k v rows a.1, All-put j k v rows, All-weaken k j rows)

  pub find_row-put :
      (j k : ℕ) (v : V) (rows : List (ℕ × V))
      → find_row j (put k v rows) ≡ (if k == j then some v else find_row j rows)
  find_row-put j k v [] = refl
  find_row-put j k v ((i, w) ∷ rows) = ground (arith, find_row-put j k v rows)

  find_row-below :
      (k : ℕ) (rows : List (ℕ × V)) → All (λ row. k < row.0) rows → find_row k rows ≡ none
  find_row-below k [] a = refl
  find_row-below k (row ∷ rows) a = ground (arith, find_row-below k rows a.1)

  -- the other rows
  abbrev pub erase : ℕ → List (ℕ × V) → List (ℕ × V)
  erase k [] = []
  erase k ((j, w) ∷ rows) = if j == k then erase k rows else (j, w) ∷ erase k rows

  All-erase :
      (i k : ℕ) (rows : List (ℕ × V))
      → All (λ row. i < row.0) rows
      → All (λ row. i < row.0) (erase k rows)
  All-erase i k [] a = tt
  All-erase i k (row ∷ rows) a = ground (arith, All-erase i k rows a.1)

  pub erase-IsAscending :
      (k : ℕ) (rows : List (ℕ × V)) → IsAscending rows → IsAscending (erase k rows)
  erase-IsAscending k [] a = tt
  erase-IsAscending k ((j, w) ∷ rows) a =
      ground (arith, erase-IsAscending k rows a.1, All-erase j k rows a.0)

  pub find_row-erase :
      (j k : ℕ) (rows : List (ℕ × V))
      → find_row j (erase k rows) ≡ (if k == j then none else find_row j rows)
  find_row-erase j k [] = ground arith
  find_row-erase j k ((i, w) ∷ rows) =
      ground (arith, find_row-erase j k rows, ==_iff i k, ==_iff i j, ==_iff k j)

  abbrev pub Split : ℕ → V → List (ℕ × V) → Type 0
  Split k v rows =
      (before after : List (ℕ × V)) × (rows ≡ before ++ (old_row k (find_row k rows) ++ after))
      × (put k v rows ≡ before ++ ((k, v) ∷ after))

  pub put-Split : (k : ℕ) (v : V) (rows : List (ℕ × V)) → IsAscending rows → Split k v rows
  put-Split k v [] a = ([], [], refl, refl)
  put-Split k v ((j, w) ∷ rows) a = elim (Bool-cases (j == k)) [
    | inl same ↦ ([], rows, ground (arith, same), ground (arith, same))
    | inr other ↦ elim (Bool-cases (ltb k j)) [
      | inl below ↦ (
        [],
        (j, w) ∷ rows,
        ground (arith, other, below, find_row-below k rows, All-weaken k j rows),
        ground (arith, other, below),
      )
      | inr above ↦
          (let s : Split k v rows = put-Split k v rows a.1 in
            ((j, w) ∷ s.0, s.1, ground (arith, other, s.2), ground (arith, other, above, s.3)))
    ]
  ]

abbrev Sorted : Type 0 → Type 0
Sorted V = (rows : List (ℕ × V)) × IsAscending rows

abbrev sorted_tables : Redb ℕ nat_eq
sorted_tables = record {
  Table = Sorted;
  empty = ([], tt);
  get = λ k t. find_row k t.0;
  insert = λ k v t. (put k v t.0, put-IsAscending k v t.0 t.1);
  remove = λ k t. (erase k t.0, erase-IsAscending k t.0 t.1);
  rows = λ t. t.0;
  get-empty = λ k. refl;
  get-insert = λ j k v t. find_row-put j k v t.0;
  get-remove = λ j k t. find_row-erase j k t.0;
  get-rows = λ k t. refl;
  rows-empty = refl;
}

module _ {V : Type 0} where
  -- a row in the place of the old one, or at the end
  abbrev pub replace : String → V → List (String × V) → List (String × V)
  replace k v [] = (k, v) ∷ []
  replace k v ((j, w) ∷ rows) = if j == k then (k, v) ∷ rows else (j, w) ∷ replace k v rows

  pub find_row-replace :
      (j k : String) (v : V) (rows : List (String × V))
      → find_row j (replace k v rows) ≡ (if k == j then some v else find_row j rows)
  find_row-replace j k v [] = refl
  find_row-replace j k v ((i, w) ∷ rows) =
      ground (arith, find_row-replace j k v rows, ==_iff i k, ==_iff i j, ==_iff k j)

  abbrev pub drop_row : String → List (String × V) → List (String × V)
  drop_row k [] = []
  drop_row k ((j, w) ∷ rows) = if j == k then drop_row k rows else (j, w) ∷ drop_row k rows

  pub find_row-drop_row :
      (j k : String) (rows : List (String × V))
      → find_row j (drop_row k rows) ≡ (if k == j then none else find_row j rows)
  find_row-drop_row j k [] = ground arith
  find_row-drop_row j k ((i, w) ∷ rows) =
      ground (arith, find_row-drop_row j k rows, ==_iff i k, ==_iff i j, ==_iff k j)

  pub replace-Replaced :
      (k : String) (v : V) (rows : List (String × V))
      → Replaced k (find_row k rows) v rows (replace k v rows)
  replace-Replaced k v [] = ([], [], refl, refl)
  replace-Replaced k v ((j, w) ∷ rows) = elim (Bool-cases (j == k)) [
    | inl same ↦ ([], rows, ground (arith, same, (==_iff j k).0 same), ground (arith, same))
    | inr other ↦
        (let s : Replaced k (find_row k rows) v rows (replace k v rows) =
            replace-Replaced k v rows in
          ((j, w) ∷ s.0, s.1, ground (arith, other, s.2), ground (arith, other, s.3)))
  ]

abbrev list_tables : Redb String string_eq
list_tables = record {
  Table = λ V. List (String × V);
  empty = [];
  get = λ k t. find_row k t;
  insert = λ k v t. replace k v t;
  remove = λ k t. drop_row k t;
  rows = λ t. t;
  get-empty = λ k. refl;
  get-insert = λ j k v t. find_row-replace j k v t;
  get-remove = λ j k t. find_row-drop_row j k t;
  get-rows = λ k t. refl;
  rows-empty = refl;
}

-- A text for each number, so that tests can tell uuids apart.
abbrev marks : ℕ → String
marks zero = ""
marks (suc n) = append "i" (marks n)

abbrev pub sample : Platform
sample = record {
  uuids = sorted_tables;
  texts = list_tables;
  digest = λ content. content;
  uuid_text = marks;
  uuid_simple = marks;
  number_text = marks;
  padded_text = marks;
  uuid_v5 = λ name. len name;
  ascending = λ t. t.1;
  rows-insert = λ k v t. put-Split k v t.0 t.1;
  text_rows-insert = λ k v t. replace-Replaced k v t;
}

-- A call at a time, with its uuids from a number on.
abbrev pub call_at : ℕ → ℕ → Call
call_at now first = record { ids = λ i. first + i; clock = λ _. now }
