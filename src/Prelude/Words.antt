-- ===== src/Prelude/Words.antt =====
-- Machine words: little-endian bytes, and the signed reading of a bit pattern.
use Prim.Native.Nat.{ℕ, zero, suc, ◌+◌, ◌-◌, ◌*◌, ◌/◌, ◌%◌, ◌^◌, ◌<◌}
use mathlib.Core.Path.{◌≡◌, refl, ap}
use mathlib.Core.List.{List, [], ◌∷◌, ◌++◌}
use native.Mathlib.Omega.{arith}
use native.Mathlib.Nat.{pow-suc}
use termux_gamepad.Prelude.Tests.{ltb, if◌then◌else◌}
use termux_gamepad.Prelude.Lists.{length}
use termux_gamepad.Prelude.Int.{ℤ, pos, negsuc, ◌≤ℤ◌}

-- The `k` bytes of `n`, lowest first, as a little-endian machine stores a field.
unfoldable pub le_bytes : ℕ → ℕ → List ℕ
le_bytes zero n = []
le_bytes (suc k) n = (n % 256) ∷ le_bytes k (n / 256)

-- A field of `k` bytes read off the front, with the bytes behind it.
unfoldable pub read_le : ℕ → List ℕ → ℕ × List ℕ
read_le zero bs = (0, bs)
read_le (suc k) [] = (0, [])
read_le (suc k) (b ∷ bs) = let (n, rest) = read_le k bs in (b + 256 * n, rest)

pub length-le_bytes : (k n : ℕ) → length (le_bytes k n) ≡ k
unfolding le_bytes
length-le_bytes zero n = refl
length-le_bytes (suc k) n = ap suc (length-le_bytes k (n / 256))

pub read_le-le_bytes :
    (k n : ℕ) (rest : List ℕ) → n < 256 ^ k → read_le k (le_bytes k n ++ rest) ≡ (n, rest)
unfolding read_le le_bytes
read_le-le_bytes zero n rest h = let e : n ≡ 0 = omega arith in rw e
read_le-le_bytes (suc k) n rest h =
    rw (read_le-le_bytes k (n / 256) rest (omega (arith, pow-suc 256 k))) (ground arith)

-- A 16-bit field as `read_le` puts it together.
pub word_read : (n : ℕ) → n < 2 ^ 16 → n % 256 + 256 * (n / 256 % 256 + 256 * 0) ≡ n
word_read n h = omega arith

-- The bit pattern of `z` in a word with `m` patterns, `m` being 2 ^ w.
abbrev pub to_unsigned : ℕ → ℤ → ℕ
to_unsigned m (pos n) = n % m
to_unsigned m (negsuc n) = m - 1 - n % m

-- The two's complement reading of a pattern below `m`.
abbrev pub to_signed : ℕ → ℕ → ℤ
to_signed m w = if ltb w (m / 2) then pos w else negsuc (m - w - 1)

abbrev pub u16_mod : ℕ
u16_mod = 2 ^ 16

abbrev pub u32_mod : ℕ
u32_mod = 2 ^ 32

abbrev pub u64_mod : ℕ
u64_mod = 2 ^ 64

-- `(int16_t)z`, `(int8_t)z`, `(int32_t)z`.
abbrev pub cast_s16 : ℤ → ℤ
cast_s16 z = to_signed (2 ^ 16) (to_unsigned (2 ^ 16) z)

abbrev pub cast_s8 : ℤ → ℤ
cast_s8 z = to_signed (2 ^ 8) (to_unsigned (2 ^ 8) z)

abbrev pub IsS16 : ℤ → Type 0
IsS16 z = (negsuc 32767 ≤ℤ z) × (z ≤ℤ pos 32767)

abbrev pub IsS32 : ℤ → Type 0
IsS32 z = (negsuc 2147483647 ≤ℤ z) × (z ≤ℤ pos 2147483647)

pub to_signed-to_unsigned_s32 : (z : ℤ) → IsS32 z → to_signed (2 ^ 32) (to_unsigned (2 ^ 32) z) ≡ z
to_signed-to_unsigned_s32 (pos n) h = ground arith
to_signed-to_unsigned_s32 (negsuc n) h = ground arith

pub cast_s16-of_IsS16 : (z : ℤ) → IsS16 z → cast_s16 z ≡ z
cast_s16-of_IsS16 (pos n) h = ground arith
cast_s16-of_IsS16 (negsuc n) h = ground arith

pub to_unsigned-lt_u16 : (z : ℤ) → to_unsigned (2 ^ 16) z < 2 ^ 16
to_unsigned-lt_u16 (pos n) = omega arith
to_unsigned-lt_u16 (negsuc n) = omega arith

pub to_unsigned-lt_s32 : (z : ℤ) → to_unsigned (2 ^ 32) z < 2 ^ 32
to_unsigned-lt_s32 (pos n) = omega arith
to_unsigned-lt_s32 (negsuc n) = omega arith
