-- ===== src/Prelude/Words.antt =====
-- Machine words: `+` wraps in a release build, `saturating_add` stops at the largest value, and a
-- 32-bit float is its bit pattern.
use Prim.Native.Nat.{ℕ, ◌+◌, ◌-◌, ◌/◌, ◌%◌, ◌^◌, min}
use mathlib.Core.Bool.{Bool, ◌||◌}
use hangar_ia.Prelude.Tests.{leb, ◌==◌, nat_eq}

abbrev pub add_u32 : ℕ → ℕ → ℕ
add_u32 a b = (a + b) % 2 ^ 32

abbrev pub add_usize : ℕ → ℕ → ℕ
add_usize a b = (a + b) % 2 ^ 64

abbrev pub add_u128 : ℕ → ℕ → ℕ
add_u128 a b = (a + b) % 2 ^ 128

abbrev pub saturating_add_u32 : ℕ → ℕ → ℕ
saturating_add_u32 a b = min (a + b) (2 ^ 32 - 1)

abbrev pub saturating_add_usize : ℕ → ℕ → ℕ
saturating_add_usize a b = min (a + b) (2 ^ 64 - 1)

-- `(0.0..=1.0).contains(&x)` on the bits of an `f32`: the patterns from 0.0 to 1.0 are in the order
-- of their numbers, and -0.0 equals 0.0; a NaN is in no range.
abbrev pub in_unit_interval : ℕ → Bool
in_unit_interval bits = leb bits 0x3F800000 || bits == 0x80000000

-- `usize::div_ceil(4)`
abbrev pub div_ceil_four : ℕ → ℕ
div_ceil_four n = (n + 3) / 4

abbrev pub sub_usize : ℕ → ℕ → ℕ
sub_usize a b = (a + 2 ^ 64 - b) % 2 ^ 64
