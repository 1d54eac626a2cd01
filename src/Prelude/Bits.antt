-- ===== src/Prelude/Bits.antt =====
-- Single bits of an unsigned word, by recursion on the bit's place: the tests and assignments
-- that C writes `x & (1 << k)`, `x |= 1 << k` and `x &= ~(1 << k)`.
use Prim.Native.Nat.{ℕ, zero, suc, ◌+◌, ◌*◌, ◌/◌, ◌%◌, ◌^◌, ◌≤◌, ◌<◌}
use mathlib.Core.Path.{◌≡◌, refl}
use mathlib.Core.Logic.{◌≢◌}
use mathlib.Core.Bool.{Bool, true, false}
use native.Mathlib.Omega.{arith}
use native.Mathlib.Nat.{pow-suc}
use termux_gamepad.Prelude.Tests.{◌==◌}

unfoldable pub test_bit : ℕ → ℕ → Bool
test_bit x zero = x % 2 == 1
test_bit x (suc k) = test_bit (x / 2) k

unfoldable pub set_bit : ℕ → ℕ → ℕ
set_bit x zero = x / 2 * 2 + 1
set_bit x (suc k) = set_bit (x / 2) k * 2 + x % 2

unfoldable pub clear_bit : ℕ → ℕ → ℕ
clear_bit x zero = x / 2 * 2
clear_bit x (suc k) = clear_bit (x / 2) k * 2 + x % 2

low_of_twice : (a b : ℕ) → b < 2 → (a * 2 + b) % 2 ≡ b
low_of_twice a b h = omega arith

half_of_twice : (a b : ℕ) → b < 2 → (a * 2 + b) / 2 ≡ a
half_of_twice a b h = omega arith

pub test_bit-zero : (k : ℕ) → test_bit 0 k ≡ false
unfolding test_bit
test_bit-zero zero = refl
test_bit-zero (suc k) = test_bit-zero k

pub test_bit-set_bit : (x k : ℕ) → test_bit (set_bit x k) k ≡ true
unfolding test_bit set_bit
test_bit-set_bit x zero = ground arith
test_bit-set_bit x (suc k) =
    rw (half_of_twice (set_bit (x / 2) k) (x % 2) (omega arith)) (test_bit-set_bit (x / 2) k)

pub test_bit-clear_bit : (x k : ℕ) → test_bit (clear_bit x k) k ≡ false
unfolding test_bit clear_bit
test_bit-clear_bit x zero = ground arith
test_bit-clear_bit x (suc k) =
    rw (half_of_twice (clear_bit (x / 2) k) (x % 2) (omega arith)) (test_bit-clear_bit (x / 2) k)

pub test_bit-set_bit_ne : (x k j : ℕ) → k ≢ j → test_bit (set_bit x k) j ≡ test_bit x j
unfolding test_bit set_bit
test_bit-set_bit_ne x zero zero h = absurd (h refl)
test_bit-set_bit_ne x zero (suc j) h = rw (half_of_twice (x / 2) 1 (omega arith))
test_bit-set_bit_ne x (suc k) zero h = rw (low_of_twice (set_bit (x / 2) k) (x % 2) (omega arith))
test_bit-set_bit_ne x (suc k) (suc j) h =
    rw (half_of_twice (set_bit (x / 2) k) (x % 2) (omega arith))
      (test_bit-set_bit_ne (x / 2) k j (omega arith))

pub test_bit-clear_bit_ne : (x k j : ℕ) → k ≢ j → test_bit (clear_bit x k) j ≡ test_bit x j
unfolding test_bit clear_bit
test_bit-clear_bit_ne x zero zero h = absurd (h refl)
test_bit-clear_bit_ne x zero (suc j) h = let e : x / 2 * 2 / 2 ≡ x / 2 = omega arith in rw e
test_bit-clear_bit_ne x (suc k) zero h =
    rw (low_of_twice (clear_bit (x / 2) k) (x % 2) (omega arith))
test_bit-clear_bit_ne x (suc k) (suc j) h =
    rw (half_of_twice (clear_bit (x / 2) k) (x % 2) (omega arith))
      (test_bit-clear_bit_ne (x / 2) k j (omega arith))

-- A word of `w` bits stays one.
pub set_bit-lt : (w x k : ℕ) → k < w → x < 2 ^ w → set_bit x k < 2 ^ w
unfolding set_bit
set_bit-lt zero x k h hx = absurd (omega arith)
set_bit-lt (suc w) x zero h hx = omega (arith, pow-suc 2 w)
set_bit-lt (suc w) x (suc k) h hx =
    omega (arith, pow-suc 2 w, set_bit-lt w (x / 2) k (omega arith) (omega (arith, pow-suc 2 w)))

pub clear_bit-le : (x k : ℕ) → clear_bit x k ≤ x
unfolding clear_bit
clear_bit-le x zero = omega arith
clear_bit-le x (suc k) = omega (arith, clear_bit-le (x / 2) k)
