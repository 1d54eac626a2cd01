-- ===== src/Preload/Reports/Ranges.antt =====
-- The axis ranges that src/evdev_preload.c reports, against the values that the bridge sends.
use termux_gamepad.Prelude.{ℕ, zero, suc, ◌<◌, arith, ℤ, ◌≤ℤ◌}
use termux_gamepad.Bridge.Convert.{convert_axis, axis_code, hat_value}
use termux_gamepad.Bridge.Convert.Range.{
  convert_axis-IsS16, convert_axis-IsTrigger, hat_value_bounds,
}
use termux_gamepad.Preload.Reports.{AbsInfo, abs_info}

abbrev pub InRange : AbsInfo → ℤ → Type 0
InRange a v = (a.minimum ≤ℤ v) × (v ≤ℤ a.maximum)

-- Every value that the bridge sends for one of the six axes, or for either half of the hat, lies in
-- the range that EVIOCGABS reports for the code under which it is sent.
pub abs_info_covers :
    (axis buttons negative positive : ℕ) (value : ℤ)
    → axis < 6
    → InRange (abs_info (axis_code axis)) (convert_axis axis value)
      × InRange (abs_info 0x10) (hat_value buttons negative positive)
      × InRange (abs_info 0x11) (hat_value buttons negative positive)
unfolding abs_info axis_code
abs_info_covers axis buttons negative positive value h = (
  in_range axis h,
  hat_value_bounds buttons negative positive,
  hat_value_bounds buttons negative positive,
)
  where
    in_range : (a : ℕ) → a < 6 → InRange (abs_info (axis_code a)) (convert_axis a value)
    in_range zero lt = convert_axis-IsS16 0 value (omega arith)
    in_range (suc zero) lt = convert_axis-IsS16 1 value (omega arith)
    in_range (suc (suc zero)) lt = convert_axis-IsS16 2 value (omega arith)
    in_range (suc (suc (suc zero))) lt = convert_axis-IsS16 3 value (omega arith)
    in_range (suc (suc (suc (suc zero)))) lt = convert_axis-IsTrigger 4 value (omega arith)
    in_range (suc (suc (suc (suc (suc zero))))) lt = convert_axis-IsTrigger 5 value (omega arith)
    in_range (suc (suc (suc (suc (suc (suc a)))))) lt = absurd (omega arith)
