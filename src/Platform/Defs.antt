-- ===== src/Platform/Defs.antt =====
-- The interface to redb, sha2, hex and uuid, which `packages/hangar-server/src/store.rs` calls.
use hangar_ia.Prelude.{
  ℕ, ◌+◌, ◌<◌, String, ◌≡◌, Option, none, some, List, [], ◌∷◌, ◌++◌, All, ◌==◌, Eq, nat_eq,
  string_eq, if◌then◌else◌,
}

abbrev pub Uuid : Type 0
Uuid = ℕ

-- The first value stored under a key.
abbrev pub find_row {ℓ} : {K : Type 0} {V : Type ℓ} ⦃e : Eq K⦄ → K → List (K × V) → Option V
find_row k [] = none
find_row k ((j, v) ∷ rows) = if j == k then some v else find_row k rows

-- The row that a key has.
abbrev pub old_row {ℓ} : {K : Type 0} {V : Type ℓ} → K → Option V → List (K × V)
old_row k none = []
old_row k (some v) = (k, v) ∷ []

-- Rows in the order of their keys, each key once.
abbrev pub IsAscending {ℓ} : {V : Type ℓ} → List (ℕ × V) → Type ℓ
IsAscending [] = Unit
IsAscending ((k, v) ∷ rows) = All (λ row. k < row.0) rows × IsAscending rows

-- Rows in which one key has a new value, and its old one is gone.
abbrev pub Replaced {ℓ} :
    {K : Type 0} {V : Type ℓ} → K → Option V → V → List (K × V) → List (K × V) → Type ℓ
Replaced {K} {V} k old v rows rows' =
    (before after : List (K × V)) × (rows ≡ before ++ (old_row k old ++ after))
    × (rows' ≡ before ++ ((k, v) ∷ after))

-- A kind of redb table: `get`, `insert`, `remove` and `iter`, with the decoded values.
pub record Redb (K : Type 0) (e : Eq K) : Type 1 where
  pub Table : Type 0 → Type 0
  pub empty : {V : Type 0} → Table V
  pub get : {V : Type 0} → K → Table V → Option V
  pub insert : {V : Type 0} → K → V → Table V → Table V
  pub remove : {V : Type 0} → K → Table V → Table V
  pub rows : {V : Type 0} → Table V → List (K × V)
  pub get-empty : {V : Type 0} (k : K) → get {V = V} k empty ≡ none
  pub get-insert :
      {V : Type 0} (j k : K) (v : V) (t : Table V)
      → get j (insert k v t) ≡ (if e.beq k j then some v else get j t)
  pub get-remove :
      {V : Type 0} (j k : K) (t : Table V)
      → get j (remove k t) ≡ (if e.beq k j then none else get j t)
  pub get-rows : {V : Type 0} (k : K) (t : Table V) → get k t ≡ find_row ⦃e = e⦄ k (rows t)
  pub rows-empty : {V : Type 0} → rows {V = V} empty ≡ []

pub record Platform : Type 1 where
  -- tables keyed by a uuid
  pub uuids : Redb ℕ nat_eq
  -- tables keyed by another text
  pub texts : Redb String string_eq
  -- `hex::encode(Sha256::digest(...))`
  pub digest : String → String
  -- `Uuid::to_string`
  pub uuid_text : Uuid → String
  -- `Uuid::simple`, the digits without hyphens
  pub uuid_simple : Uuid → String
  -- a number written out, and in eight places (`{:08}`)
  pub number_text : ℕ → String
  pub padded_text : ℕ → String
  -- `Uuid::new_v5` in the namespace of object ids
  pub uuid_v5 : String → Uuid
  -- `iter` goes up through the keys
  pub ascending : {V : Type 0} (t : uuids.Table V) → IsAscending (uuids.rows t)
  -- `insert` adds one row or replaces the row of its key
  pub rows-insert :
      {V : Type 0} (k : Uuid) (v : V) (t : uuids.Table V)
      → Replaced k (uuids.get k t) v (uuids.rows t) (uuids.rows (uuids.insert k v t))
  pub text_rows-insert :
      {V : Type 0} (k : String) (v : V) (t : texts.Table V)
      → Replaced k (texts.get k t) v (texts.rows t) (texts.rows (texts.insert k v t))

-- What one call is given: a uuid for each place where the operation draws one (`Uuid::now_v7`), and
-- a time for each place where it reads the clock (`now_unix_ms`), numbered in the order of the
-- source. The clock is past the epoch, so `now_unix_ms` does not fail.
pub record Call : Type 0 where
  pub ids : ℕ → Uuid
  pub clock : ℕ → ℕ

-- The rest of a call, after the clock was read.
abbrev pub after_clock : Call → Call
after_clock call = record call { clock = λ i. call.clock (i + 1) }
