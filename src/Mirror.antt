-- ===== src/Mirror.antt =====
-- The two ends together: src/lorie_evdev_bridge.c turns XInput2 events into input events, and
-- src/termux_gamepad.c turns these into the state that an application reads.
pub mod Plugged
pub mod Places
pub mod Axes
pub mod Buttons
pub mod Reports
pub mod Snapshot
pub mod Join
pub mod Sendable
pub mod Delivery
pub mod Reach
use termux_gamepad.Prelude.{
  ℕ, ◌+◌, ◌<◌, ◌≡◌, List, [], ◌∷◌, ℤ, pos, get_or, length, test_bit, ltb, if◌then◌else◌,
}
use termux_gamepad.Wire.{InputEvent}
use termux_gamepad.Bridge.State.{GamepadState}
use termux_gamepad.Gamepad.State.{PadState}
use termux_gamepad.Gamepad.Events.{process_event, trigger_value}

-- The state after these events, oldest first.
unfoldable pub replay : PadState → List InputEvent → PadState
replay s [] = s
replay s (e ∷ es) = replay (process_event s e).0 es

-- The bit of the bridge's `buttons` behind each bit of the library's: the bridge keeps the four
-- buttons of the hat among its own.
unfoldable pub place : ℕ → ℕ
place j = get_or (0 ∷ 1 ∷ 2 ∷ 3 ∷ 4 ∷ 5 ∷ 6 ∷ 7 ∷ 8 ∷ 9 ∷ 14 ∷ 15 ∷ []) j 16

abbrev pub shown_axis : ℕ → ℤ → ℤ
shown_axis k value = if ltb k 4 then value else trigger_value value

-- The library's state shows the gamepad as the bridge knows it: sticks and hat as they are, the
-- triggers' 0 to 255 spread over the signed 16-bit range, and each of the twelve buttons.
pub record IsMirror (s : PadState) (g : GamepadState) : Type 0 where
  pub shown_axes : length s.axes ≡ 6
  pub known_axes : length g.axes ≡ 6
  pub axes : (k : ℕ) → k < 6 → get_or s.axes k (pos 0) ≡ shown_axis k (get_or g.axes k (pos 0))
  pub hat_x : s.hat_x ≡ g.hat_x
  pub hat_y : s.hat_y ≡ g.hat_y
  pub buttons : (j : ℕ) → j < 12 → test_bit s.buttons j ≡ test_bit g.buttons (place j)
