-- ===== src/Floats.antt =====
-- The arithmetic of `f32` on bit patterns, which packages/hangar-server/src/store.rs uses in scores.
use hangar_ia.Prelude.{ℕ, Bool, true, false, ◌≡◌, leb, ltb, ◌+◌, ◌*◌, ◌/◌, ◌-◌, max, arith}

-- The machine's operations, and `total_cmp` as the test for "not greater", which is a total order.
pub record Floats : Type 0 where
  pub add : ℕ → ℕ → ℕ
  pub sub : ℕ → ℕ → ℕ
  pub mul : ℕ → ℕ → ℕ
  pub div : ℕ → ℕ → ℕ
  pub larger : ℕ → ℕ → ℕ
  -- `as f32` of a `usize`
  pub of_usize : ℕ → ℕ
  pub greater : ℕ → ℕ → Bool
  pub total_le : ℕ → ℕ → Bool
  pub total : (a b : ℕ) → total_le a b ≡ false → total_le b a ≡ true
  pub transitive : (a b c : ℕ) → total_le a b ≡ true → total_le b c ≡ true → total_le a c ≡ true

pub leb_total : (a b : ℕ) → leb a b ≡ false → leb b a ≡ true
leb_total a b h = ground arith

pub leb_trans : (a b c : ℕ) → leb a b ≡ true → leb b c ≡ true → leb a c ≡ true
leb_trans a b c h k = ground arith

-- Whole numbers as a stand-in for the floats of tests.
abbrev pub whole : Floats
whole = record {
  add = λ a b. a + b;
  sub = λ a b. a - b;
  mul = λ a b. a * b;
  div = λ a b. a / b;
  larger = λ a b. max a b;
  of_usize = λ n. n;
  greater = λ a b. ltb b a;
  total_le = λ a b. leb a b;
  total = leb_total;
  transitive = leb_trans;
}
