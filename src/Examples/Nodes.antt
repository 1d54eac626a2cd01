-- ===== src/Examples/Nodes.antt =====
-- Device nodes that src/evdev_preload.c opens, and ioctls on them.
use termux_gamepad.Prelude.{
  ℕ, ◌<◌, ◌≡◌, ◌↔◌, refl, arith, true, [], ◌∷◌, ◌++◌, some, none, pos, negsuc, length, drop, List,
  replicate,
}
use termux_gamepad.Wire.{encode_control, control_rumble, ev_key}
use termux_gamepad.Wire.RoundTrip.{IsDescriptor}
use termux_gamepad.Bridge.Convert.{convert_axis, axis_code, hat_value}
use termux_gamepad.Common.{fake_joydev_node, same_text, strlen, buffer_bit}
use termux_gamepad.Gamepad.Net.{connected}
use termux_gamepad.Preload.Fds.{find_fake_fd}
use termux_gamepad.Preload.Effects.{choose_slot}
use termux_gamepad.Preload.Calls.{answered, control, write}
use termux_gamepad.Preload.Opening.{Attempt, node_of, openat}
use termux_gamepad.Preload.Opening.Served.{
  fits, opened, unserved_errno, is_offered, Settled, openat-Settled,
}
use termux_gamepad.Preload.Reports.{abs_info, fill_bits, request_size, fake_joy_ioctl}
use termux_gamepad.Preload.Reports.Keys.{IsDelivered, fill_bits_keys}
use termux_gamepad.Preload.Reports.Ranges.{InRange, abs_info_covers}
use termux_gamepad.Preload.Requests.{ioctl}
use termux_gamepad.Preload.Requests.Within.{ioctl-Within}
use termux_gamepad.Preload.Requests.Played.{play_bytes, upload_then_play}
use termux_gamepad.Preload.Requests.Layout.{
  UploadedEffect, IsUploaded, periodic_force, effect_bytes,
}
use termux_gamepad.Preload.Joydev.Numbers.{IsButton, IsAxis, joystick_counts}
use termux_gamepad.Examples.Samples.{shown_descriptor}
use termux_gamepad.Examples.Loaded.{plain, served, two_games, found_5}

pub shown_descriptor-IsDescriptor : IsDescriptor shown_descriptor
shown_descriptor-IsDescriptor = record {
  magic_fits = omega arith;
  version_fits = omega arith;
  present_fits = omega arith;
  capabilities_fits = omega arith;
  mode_fits = omega arith;
  vendor_fits = omega arith;
  product_fits = omega arith;
  device_fits = omega arith;
  name_size = refl;
}

plain-fits : fits plain ≡ true
unfolding strlen
plain-fits = refl

joystick_node : node_of (some fake_joydev_node) ≡ some true
unfolding node_of same_text
joystick_node = refl

fresh_9 : find_fake_fd (pos 9) two_games.fakes ≡ none
unfolding find_fake_fd
fresh_9 = refl

-- The bridge is there and hangs up.
abbrev hung_up : Attempt
hung_up = record { outcome = connected 9; reply = 1 ∷ 2 ∷ [] }

openat-Settled_example :
    Settled
      (opened (fits plain) hung_up.outcome)
      (unserved_errno (fits plain) hung_up.outcome)
      (is_offered (fits plain) hung_up.outcome two_games.sends hung_up.reply)
      true
      hung_up.reply
      two_games
      (openat plain (some fake_joydev_node) 0 hung_up two_games)
openat-Settled_example =
    openat-Settled plain (some fake_joydev_node) 0 true hung_up two_games joystick_node
      (rw plain-fits (fresh_9, tt))

-- EVIOCGNAME with room for four bytes.
ioctl-Within_example :
    (mem' : List ℕ) × ((ioctl plain (pos 5) 0x80044506 4096 (1 ∷ 2 ∷ 3 ∷ 4 ∷ 5 ∷ []) two_games).1
      ≡ some mem')
    × (drop (request_size 0x80044506) mem'
        ≡ drop (request_size 0x80044506) (1 ∷ 2 ∷ 3 ∷ 4 ∷ 5 ∷ []))
    × (length mem' ≡ length {A = ℕ} (1 ∷ 2 ∷ 3 ∷ 4 ∷ 5 ∷ []))
ioctl-Within_example =
    ioctl-Within plain (pos 5) (served (pos 5)) 0x80044506 4096 (1 ∷ 2 ∷ 3 ∷ 4 ∷ 5 ∷ []) two_games
      found_5

-- A wave in place of the effect in slot 0, with 26 bytes of the union behind it.
abbrev wave : UploadedEffect
wave = record {
  id = pos 0;
  direction = 0;
  button = 0;
  interval = 0;
  replay_length = 300;
  replay_delay = 20;
  force = periodic_force 0x5a 100 (negsuc 8999);
}

wave-IsUploaded : IsUploaded wave
wave-IsUploaded = record {
  id_fits = (omega arith, omega arith);
  length_fits = omega arith;
  force_fits = (omega arith, omega arith);
}

first_slot : choose_slot (pos 5) wave.id two_games.effects ≡ some 0
unfolding choose_slot
first_slot = refl

upload_then_play_example :
    let (uploaded, mem', s1) =
      ioctl plain (pos 5) 0x40304580 4096 (effect_bytes wave (replicate 26 0)) two_games in
    let (written, s2) = write (pos 5) (some (play_bytes 0)) s1 in
    (uploaded ≡ answered (pos 0))
    × (written ≡ answered (pos 24))
    × (s2.wire
        ≡ two_games.wire ++ ((pos 5, encode_control (control control_rumble 18000 18000 300)) ∷ []))
upload_then_play_example =
    upload_then_play plain (pos 5) (served (pos 5)) 0x40304580 4096 0 wave (replicate 26 0)
      two_games wave-IsUploaded found_5 refl refl (omega arith) (omega arith) first_slot refl refl
      refl

fill_bits_keys_example :
    (buffer_bit (fill_bits 96 ev_key true) 0x120 ≡ true) ↔ IsDelivered true 0x120
fill_bits_keys_example = fill_bits_keys 96 0x120 true (omega arith)

abs_info_covers_example :
    InRange (abs_info (axis_code 4)) (convert_axis 4 (pos 40000))
    × InRange (abs_info 0x10) (hat_value 1 1 2)
    × InRange (abs_info 0x11) (hat_value 1 1 2)
abs_info_covers_example = abs_info_covers 4 1 1 2 (pos 40000) (omega arith)

joystick_counts_example :
    (count_buttons : ℕ) × (count_axes : ℕ) × ((fake_joy_ioctl plain
        (served (pos 5))
        0x80016a12
        4096
        (0 ∷ 7 ∷ [])).1
      ≡ count_buttons ∷ 7 ∷ [])
    × ((fake_joy_ioctl plain (served (pos 5)) 0x80016a11 4096 (0 ∷ 7 ∷ [])).1 ≡ count_axes ∷ 7 ∷ [])
    × ((n : ℕ) → (n < count_buttons) ↔ IsButton n)
    × ((n : ℕ) → (n < count_axes) ↔ IsAxis n)
joystick_counts_example =
    joystick_counts plain (served (pos 5)) 0x80016a12 0x80016a11 4096 0 (7 ∷ []) refl refl
      (omega arith) refl refl (omega arith) (omega arith)
