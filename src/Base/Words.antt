-- ===== src/Base/Words.antt =====
-- C words as native numbers below `2 ^ w`: wrapping sums and differences, and signed comparison.
use Prim.Native.Nat.{ℕ, ◌+◌, ◌-◌, ◌*◌, ◌/◌, ◌%◌, ◌^◌}
use mathlib.Core.Bool.{Bool}
use ffrdp.Base.Tests.{ltb, leb, if◌then◌else◌}

abbrev pub u8 : ℕ → ℕ
u8 n = n % 2 ^ 8

abbrev pub u16 : ℕ → ℕ
u16 n = n % 2 ^ 16

abbrev pub u32 : ℕ → ℕ
u32 n = n % 2 ^ 32

-- A 24-bit frame number, `x & 0xFFFFFF`.
abbrev pub u24 : ℕ → ℕ
u24 n = n % 2 ^ 24

abbrev pub add32 : ℕ → ℕ → ℕ
add32 a b = (a + b) % 2 ^ 32

-- `-` on ℕ stops at 0, so the modulus is added first.
abbrev pub sub32 : ℕ → ℕ → ℕ
sub32 a b = (a + 2 ^ 32 - b) % 2 ^ 32

abbrev pub mul32 : ℕ → ℕ → ℕ
mul32 a b = a * b % 2 ^ 32

-- The order of two words read as `int32_t`: adding `2 ^ 31` turns it into the order of ℕ.
abbrev pub bias32 : ℕ → ℕ
bias32 w = (w + 2 ^ 31) % 2 ^ 32

abbrev pub slt32 : ℕ → ℕ → Bool
slt32 a b = ltb (bias32 a) (bias32 b)

abbrev pub sle32 : ℕ → ℕ → Bool
sle32 a b = leb (bias32 a) (bias32 b)

-- `x / 2` of an `int`, which rounds towards 0.
abbrev pub half32 : ℕ → ℕ
half32 w = if slt32 w 0 then sub32 0 (sub32 0 w / 2) else w / 2

-- The macros MIN and MAX of utils.h, on unsigned values.
abbrev pub min_c : ℕ → ℕ → ℕ
min_c a b = if ltb a b then a else b

abbrev pub max_c : ℕ → ℕ → ℕ
max_c a b = if ltb b a then a else b
