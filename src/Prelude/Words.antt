-- ===== src/Prelude/Words.antt =====
-- Machine words as bit patterns: wrapping steps, and the order of signed 32-bit words.
use Prim.Native.Nat.{ℕ, ◌+◌, ◌-◌, ◌%◌, ◌^◌}
use mathlib.Core.Bool.{Bool}
use tcp_redirector.Prelude.Tests.{ltb, leb, if◌then◌else◌}

abbrev pub u16_mod : ℕ
u16_mod = 2 ^ 16

abbrev pub u32_mod : ℕ
u32_mod = 2 ^ 32

abbrev pub u64_mod : ℕ
u64_mod = 2 ^ 64

-- `x + y`, `x - y`, `x++` and `x--` on a 32-bit or a 64-bit word.
abbrev pub add32 : ℕ → ℕ → ℕ
add32 x y = (x + y) % u32_mod

abbrev pub dec32 : ℕ → ℕ
dec32 x = (x + (u32_mod - 1)) % u32_mod

abbrev pub add64 : ℕ → ℕ → ℕ
add64 x y = (x + y) % u64_mod

abbrev pub sub64 : ℕ → ℕ → ℕ
sub64 x y = (x + (u64_mod - y % u64_mod)) % u64_mod

-- `x <= y` of two LONGs, given as bit patterns.
abbrev pub leb_signed32 : ℕ → ℕ → Bool
leb_signed32 x y = leb ((x + 2 ^ 31) % u32_mod) ((y + 2 ^ 31) % u32_mod)

-- The conversion of a LONG to a 64-bit unsigned integer.
abbrev pub sign_extend : ℕ → ℕ
sign_extend x = if ltb x (2 ^ 31) then x else x + (u64_mod - u32_mod)
