-- ===== src/Bridge/Convert.antt =====
-- The pure conversions of src/lorie_evdev_bridge.c.
pub mod Range
use termux_gamepad.Prelude.{
  ℕ, ◌+◌, ◌-◌, ◌*◌, ◌/◌, Bool, true, false, List, [], ◌∷◌, ℤ, pos, negsuc, ◌-ℤ◌, ltb, ltb_ℤ,
  if◌then◌else◌, get_or, test_bit, pos_part,
}

unfoldable pub clamp_int : ℤ → ℤ → ℤ → ℤ
clamp_int value minimum maximum =
    if ltb_ℤ value minimum then minimum else if ltb_ℤ maximum value then maximum else value

-- `value` is what `(int)value` makes of the `double`. The clamped value is not negative where it
-- is scaled, so its scaling is one of natural numbers.
unfoldable pub convert_axis : ℕ → ℤ → ℤ
unfolding clamp_int
convert_axis axis value =
    if ltb axis 4
    then clamp_int value (negsuc 32767) (pos 32767)
    else pos ((pos_part (clamp_int value (pos 0) (pos 32767)) * 255 + 16383) / 32767)

-- ABS_X, ABS_Y, ABS_RX, ABS_RY, ABS_Z, ABS_RZ
unfoldable pub axis_code : ℕ → ℕ
axis_code axis = get_or (0x00 ∷ 0x01 ∷ 0x03 ∷ 0x04 ∷ 0x02 ∷ 0x05 ∷ []) axis 0

-- BTN_SOUTH, BTN_EAST, BTN_NORTH, BTN_WEST, BTN_TL, BTN_TR, BTN_SELECT, BTN_START, BTN_THUMBL,
-- BTN_THUMBR, four without a code, BTN_MODE, BTN_C
abbrev pub button_codes : List ℕ
button_codes =
    0 ∷ 0x130 ∷ 0x131 ∷ 0x133 ∷ 0x134 ∷ 0x136 ∷ 0x137 ∷ 0x13a ∷ 0x13b ∷ 0x13d ∷ 0x13e ∷ 0 ∷ 0 ∷ 0
    ∷ 0 ∷ 0x13c ∷ 0x132 ∷ []

unfoldable pub button_code : ℕ → ℕ
button_code detail = if ltb detail 17 then get_or button_codes detail 0 else 0

-- `(state.buttons & (1U << (detail - 1))) != 0`
abbrev pub is_pressed : ℕ → ℕ → Bool
is_pressed buttons detail = test_bit buttons (detail - 1)

abbrev pub as_int : Bool → ℕ
as_int true = 1
as_int false = 0

unfoldable pub hat_value : ℕ → ℕ → ℕ → ℤ
unfolding ◌-ℤ◌
hat_value buttons negative_detail positive_detail =
    pos (as_int (is_pressed buttons positive_detail))
    -ℤ pos (as_int (is_pressed buttons negative_detail))
