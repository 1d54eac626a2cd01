-- ===== src/Preload/Axes.antt =====
-- The ranges of the joystick events of src/evdev_preload.c.
use termux_gamepad.Prelude.{
  ℕ, ◌*◌, ◌≤◌, ◌<◌, ◌≡◌, arith, true, false, ◌||◌, ◌==◌, ℤ, pos, negsuc, ◌≤ℤ◌, ◌-ℤ◌, pos_part,
  IsS16, cast_s16-of_IsS16,
}
use termux_gamepad.Preload.Joydev.{joy_axis_value, clamp_to}

-- A stick or a hat (any code but the triggers') reads from -32767 to 32767, whatever value
-- arrives, and a higher value never reads lower.
pub joy_axis_value_range :
    (code : ℕ) (v w : ℤ)
    → ((code == 0x02) || (code == 0x05)) ≡ false
    → v ≤ℤ w
    → (negsuc 32766 ≤ℤ joy_axis_value code v)
      × (joy_axis_value code v ≤ℤ joy_axis_value code w)
      × (joy_axis_value code w ≤ℤ pos 32767)
unfolding joy_axis_value
joy_axis_value_range code v w stick h = ground arith

clamp_below : (v : ℕ) → v < 255 → pos_part (clamp_to (pos 0) (pos 255) (pos v)) ≡ v
clamp_below v h = ground arith

clamp_above : (v : ℕ) → 255 ≤ v → pos_part (clamp_to (pos 0) (pos 255) (pos v)) ≡ 255
clamp_above v h = ground arith

trigger_fits : (v : ℕ) → v < 255 → IsS16 (pos (v * 257) -ℤ pos 32767)
unfolding ◌-ℤ◌
trigger_fits v h = ground arith

-- A trigger's value below 255 is spread from -32767 up in steps of 257; but from 255 on, where the
-- trigger is pulled all the way, it reads -32768, lower than at rest.
pub joy_axis_value_trigger :
    (code v : ℕ)
    → ((code == 0x02) || (code == 0x05)) ≡ true
    → (v < 255 → joy_axis_value code (pos v) ≡ pos (v * 257) -ℤ pos 32767)
      × (255 ≤ v → joy_axis_value code (pos v) ≡ negsuc 32767)
unfolding joy_axis_value
joy_axis_value_trigger code v trigger = (
  λ h.
      rw (trigger, clamp_below v h)
        (cast_s16-of_IsS16 (pos (v * 257) -ℤ pos 32767) (trigger_fits v h)),
  λ h. rw (trigger, clamp_above v h),
)
