-- ===== src/Common/Bits.antt =====
-- `tg_set_bit` of src/tg_common.h: the bits of a buffer.
use native.Mathlib.Decide.{ℕ_discrete}
use termux_gamepad.Prelude.{
  ℕ, ◌/◌, ◌%◌, ◌≡◌, ◌≢◌, arith, false, ◌||◌, ◌&&◌, List, ltb, ltb→lt, ◌==◌, length, get_or, set_bit,
  test_bit, test_bit-set_bit, test_bit-set_bit_ne, get_or-set_self, get_or-set_ne, Bool-cases, inl,
  inr, length-set,
}
use termux_gamepad.Common.{set_buffer_bit, buffer_bit}

test_bit-set_bit_at : (x a b : ℕ) → test_bit (set_bit x a) b ≡ (a == b) || test_bit x b
test_bit-set_bit_at x a b = elim (ℕ_discrete a b) [
  | yes e ↦ rw (← e) (rw (test_bit-set_bit x a) (ground arith))
  | no e ↦ rw (test_bit-set_bit_ne x a b e) (ground arith)
]

same_place : (a b : ℕ) → a / 8 ≡ b / 8 → ((a % 8) == (b % 8)) ≡ (a == b)
same_place a b e = ground arith

other_place : (a b : ℕ) → a / 8 ≢ b / 8 → (a == b) ≡ false
other_place a b e = ground arith

-- A bit that is set stands in the buffer if the buffer reaches that far; no other bit changes.
pub buffer_bit-set_buffer_bit :
    (buf : List ℕ) (bit k : ℕ)
    → buffer_bit (set_buffer_bit buf bit) k
      ≡ ((bit == k) && ltb (bit / 8) (length buf)) || buffer_bit buf k
unfolding set_buffer_bit buffer_bit
buffer_bit-set_buffer_bit buf bit k = elim (Bool-cases (ltb (bit / 8) (length buf))) [
  | inr out ↦ rw out (ground arith)
  | inl fits ↦ rw fits (elim (ℕ_discrete (bit / 8) (k / 8)) [
    | yes e ↦ rw (← e) (
        rw
          (get_or-set_self buf (bit / 8) (set_bit (get_or buf (bit / 8) 0) (bit % 8)) 0
            (ltb→lt _ _ fits))
          (rw (test_bit-set_bit_at (get_or buf (bit / 8) 0) (bit % 8) (k % 8))
            (rw (same_place bit k e) (ground arith))))
    | no e ↦
        rw (get_or-set_ne buf (bit / 8) (k / 8) (set_bit (get_or buf (bit / 8) 0) (bit % 8)) 0 e)
          (rw (other_place bit k e))
  ])
]

pub length-set_buffer_bit : (buf : List ℕ) (bit : ℕ) → length (set_buffer_bit buf bit) ≡ length buf
unfolding set_buffer_bit
length-set_buffer_bit buf bit = elim (Bool-cases (ltb (bit / 8) (length buf))) [
  | inr out ↦ rw out
  | inl fits ↦ rw fits (length-set buf (bit / 8) (set_bit (get_or buf (bit / 8) 0) (bit % 8)))
]
