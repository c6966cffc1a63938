-- ===== src/Prelude/Bits.antt =====
-- One bit of a word: tested, set and cleared.
use Prim.Native.Nat.{ℕ, zero, suc, ◌+◌, ◌*◌, ◌/◌, ◌%◌}
use mathlib.Core.Path.{◌≡◌}
use mathlib.Core.Bool.{Bool, not, ◌&&◌, ◌||◌}
use native.Mathlib.Omega.{arith}
use tcp_redirector.Prelude.Tests.{◌==◌}

-- `(w >> k) & 1`.
unfoldable pub test_bit : ℕ → ℕ → Bool
test_bit w zero = (w % 2) == 1
test_bit w (suc k) = test_bit (w / 2) k

-- `w | (1u << k)`.
unfoldable pub or_bit : ℕ → ℕ → ℕ
or_bit w zero = w / 2 * 2 + 1
or_bit w (suc k) = w % 2 + 2 * or_bit (w / 2) k

-- `w & ~(1u << k)`.
unfoldable pub and_not_bit : ℕ → ℕ → ℕ
and_not_bit w zero = w / 2 * 2
and_not_bit w (suc k) = w % 2 + 2 * and_not_bit (w / 2) k

pub test_bit-or_bit : (w k j : ℕ) → test_bit (or_bit w k) j ≡ ((k == j) || test_bit w j)
unfolding test_bit or_bit
test_bit-or_bit w zero zero = ground arith
test_bit-or_bit w zero (suc j) = ground arith
test_bit-or_bit w (suc k) zero = ground arith
test_bit-or_bit w (suc k) (suc j) =
    let half : (w % 2 + 2 * or_bit (w / 2) k) / 2 ≡ or_bit (w / 2) k = omega arith in
    rw half (ground (arith, test_bit-or_bit (w / 2) k j))

pub test_bit-and_not_bit :
    (w k j : ℕ) → test_bit (and_not_bit w k) j ≡ (not (k == j) && test_bit w j)
unfolding test_bit and_not_bit
test_bit-and_not_bit w zero zero = ground arith
test_bit-and_not_bit w zero (suc j) = ground arith
test_bit-and_not_bit w (suc k) zero = ground arith
test_bit-and_not_bit w (suc k) (suc j) =
    let half : (w % 2 + 2 * and_not_bit (w / 2) k) / 2 ≡ and_not_bit (w / 2) k = omega arith in
    rw half (ground (arith, test_bit-and_not_bit (w / 2) k j))
