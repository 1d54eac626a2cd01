-- ===== src/Udev/Hex.antt =====
-- The hexadecimal texts of src/libudev_fake.c, read back.
use termux_gamepad.Prelude.{
  ℕ, ◌+◌, ◌-◌, ◌*◌, ◌/◌, ◌%◌, ◌^◌, ◌≡◌, refl, arith, false, List, [], ◌∷◌, leb, ◌==◌, if◌then◌else◌,
  AllBelow, AllBelow-at, length,
}
use termux_gamepad.Wire.{c_string}
use termux_gamepad.Udev.{hex_digit, hex_digits, format_hex4}

-- What a reader of the text does: the digits up to the terminator.
abbrev pub digit_value : ℕ → ℕ
digit_value c = if leb c b'9' then c - b'0' else c - b'a' + 10

unfoldable pub parse_hex : ℕ → List ℕ → ℕ
parse_hex n [] = n
parse_hex n (c ∷ cs) =
    let later = parse_hex (n * 16 + digit_value c) cs in if c == 0 then n else later

abbrev IsDigit : ℕ → Type 0
IsDigit d = (digit_value (hex_digit d) ≡ d) × ((hex_digit d == 0) ≡ false)

digits : AllBelow 16 IsDigit
digits = (
  (refl, refl),
  (
    (refl, refl),
    (
      (refl, refl),
      (
        (refl, refl),
        (
          (refl, refl),
          (
            (refl, refl),
            (
              (refl, refl),
              (
                (refl, refl),
                (
                  (refl, refl),
                  (
                    (refl, refl),
                    (
                      (refl, refl),
                      (
                        (refl, refl),
                        ((refl, refl), ((refl, refl), ((refl, refl), ((refl, refl), tt)))),
                      ),
                    ),
                  ),
                ),
              ),
            ),
          ),
        ),
      ),
    ),
  ),
)

digit : (d : ℕ) → IsDigit (d % 16)
digit d = AllBelow-at 16 IsDigit digits (d % 16) (omega arith)

-- The text of a number is four digits and the terminator, and reads as the number's lowest 16 bits.
pub parse_hex-format_hex4 :
    (value : ℕ)
    → (parse_hex 0 (format_hex4 value) ≡ value % 2 ^ 16)
      × (length (c_string (format_hex4 value)) ≡ 4)
unfolding format_hex4 hex_digits parse_hex c_string
parse_hex-format_hex4 value = (
  rw
      (
        (digit (value / 16 / 16 / 16)).1,
        (digit (value / 16 / 16 / 16)).0,
        (digit (value / 16 / 16)).1,
        (digit (value / 16 / 16)).0,
        (digit (value / 16)).1,
        (digit (value / 16)).0,
        (digit value).1,
        (digit value).0,
      )
      (omega arith),
  rw
      (
        (digit (value / 16 / 16 / 16)).1,
        (digit (value / 16 / 16)).1,
        (digit (value / 16)).1,
        (digit value).1,
        c_string,
      )
      refl,
)
