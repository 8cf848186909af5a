-- ===== src/Base/Bits.antt =====
-- Bit fields: one bit set, cleared or read, from the lowest one on.
use Prim.Native.Nat.{ℕ, zero, suc, ◌+◌, ◌*◌, ◌/◌, ◌%◌}
use mathlib.Core.Bool.{Bool, false, not, ◌&&◌, ◌||◌}
use mathlib.Core.Path.{◌≡◌, refl, ◌∙◌}
use native.Mathlib.Omega.{arith}
use tcp_info.Base.Bools.{◌==◌}

-- `bits | 1 << n`.
unfoldable pub set_bit : ℕ → ℕ → ℕ
set_bit zero bits = 2 * (bits / 2) + 1
set_bit (suc n) bits = 2 * set_bit n (bits / 2) + bits % 2

-- `bits & ^(1 << n)`.
unfoldable pub clear_bit : ℕ → ℕ → ℕ
clear_bit zero bits = 2 * (bits / 2)
clear_bit (suc n) bits = 2 * clear_bit n (bits / 2) + bits % 2

unfoldable pub test_bit : ℕ → ℕ → Bool
test_bit zero bits = bits % 2 == 1
test_bit (suc n) bits = test_bit n (bits / 2)

pub test_bit-zero : (n : ℕ) → test_bit n 0 ≡ false
unfolding test_bit
test_bit-zero zero = refl
test_bit-zero (suc n) = test_bit-zero n

-- Exactly that bit is added.
pub test_bit-set_bit : (m n bits : ℕ) → test_bit m (set_bit n bits) ≡ (m == n || test_bit m bits)
unfolding set_bit test_bit
test_bit-set_bit zero zero bits = ground arith
test_bit-set_bit zero (suc n) bits = ground arith
test_bit-set_bit (suc m) zero bits =
    let same : (2 * (bits / 2) + 1) / 2 ≡ bits / 2 = omega arith in rw same (ground arith)
test_bit-set_bit (suc m) (suc n) bits =
    let same : (2 * set_bit n (bits / 2) + bits % 2) / 2 ≡ set_bit n (bits / 2) = omega arith in
    rw same (test_bit-set_bit m n (bits / 2) ∙ ground arith)

-- Exactly that bit is taken away.
pub test_bit-clear_bit :
    (m n bits : ℕ) → test_bit m (clear_bit n bits) ≡ (not (m == n) && test_bit m bits)
unfolding clear_bit test_bit
test_bit-clear_bit zero zero bits = ground arith
test_bit-clear_bit zero (suc n) bits = ground arith
test_bit-clear_bit (suc m) zero bits =
    let same : 2 * (bits / 2) / 2 ≡ bits / 2 = omega arith in rw same (ground arith)
test_bit-clear_bit (suc m) (suc n) bits =
    let same : (2 * clear_bit n (bits / 2) + bits % 2) / 2 ≡ clear_bit n (bits / 2) = omega arith in
    rw same (test_bit-clear_bit m n (bits / 2) ∙ ground arith)
