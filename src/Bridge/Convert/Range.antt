-- ===== src/Bridge/Convert/Range.antt =====
-- The ranges of what src/lorie_evdev_bridge.c computes for an axis and for a hat.
use termux_gamepad.Prelude.{
  ℕ, ◌≤◌, ◌<◌, arith, ℤ, pos, negsuc, ◌≤ℤ◌, IsS16, ltb, if_cases, parts_disjoint,
}
use termux_gamepad.Bridge.Convert.{clamp_int, convert_axis, hat_value}

-- A stick: the signed 16-bit range. A trigger: 0 to 255.
abbrev pub IsTrigger : ℤ → Type 0
IsTrigger z = (pos 0 ≤ℤ z) × (z ≤ℤ pos 255)

-- The result lies between the ends of a range that is not empty.
pub clamp_int_bounds :
    (value low high : ℤ)
    → low ≤ℤ high
    → (low ≤ℤ clamp_int value low high) × (clamp_int value low high ≤ℤ high)
unfolding clamp_int
clamp_int_bounds value low high h = ground arith

pub convert_axis-IsS16 : (axis : ℕ) (value : ℤ) → axis < 4 → IsS16 (convert_axis axis value)
unfolding convert_axis
convert_axis-IsS16 axis value h =
    if_cases IsS16 (ltb axis 4) _ _
      (λ _. clamp_int_bounds value (negsuc 32767) (pos 32767) (omega arith))
      (λ e. absurd (ground arith))

pub convert_axis-IsTrigger : (axis : ℕ) (value : ℤ) → 4 ≤ axis → IsTrigger (convert_axis axis value)
unfolding convert_axis
convert_axis-IsTrigger axis value h =
    if_cases IsTrigger (ltb axis 4) _ _ (λ e. absurd (ground arith))
      (λ _.
        let (low, high) = clamp_int_bounds value (pos 0) (pos 32767) (omega arith) in
        omega (arith, parts_disjoint (clamp_int value (pos 0) (pos 32767))))

-- An axis that moves further up never reads lower.
pub convert_axis_mono : (axis : ℕ) (v w : ℤ) → v ≤ℤ w → convert_axis axis v ≤ℤ convert_axis axis w
unfolding convert_axis
convert_axis_mono axis v w h = ground arith

pub hat_value_bounds :
    (buttons negative positive : ℕ)
    → (negsuc 0 ≤ℤ hat_value buttons negative positive)
      × (hat_value buttons negative positive ≤ℤ pos 1)
unfolding hat_value
hat_value_bounds buttons negative positive = ground arith
