-- ===== src/Gamepad/State.antt =====
-- The structures of include/termux_gamepad.h, and the handle of src/termux_gamepad.c.
use termux_gamepad.Prelude.{ℕ, List, [], ◌∷◌, ℤ, pos, negsuc}
use termux_gamepad.Gamepad.Net.{Dial, refused}

abbrev pub abi_version : ℕ
abi_version = 1

-- `sizeof(struct termux_gamepad_descriptor)`
abbrev pub descriptor_size : ℕ
descriptor_size = 88

pub record Descriptor : Type 0 where
  pub abi_version : ℕ
  pub struct_size : ℕ
  pub present : ℕ
  pub capabilities : ℕ
  pub input_mode : ℕ
  pub vendor_id : ℕ
  pub product_id : ℕ
  pub device_id : ℤ
  pub name : List ℕ

pub record PadState : Type 0 where
  pub axes : List ℤ
  pub buttons : ℕ
  pub hat_x : ℤ
  pub hat_y : ℤ
  pub packet_number : ℕ

-- `monitor_buffer` and `event_buffer` are the first `monitor_used` and `event_used` bytes. `dials`
-- is how the coming attempts to reach the bridge will go; `wire` and `closed` log the bytes that
-- each descriptor took and the descriptors closed, oldest first.
pub record Gamepad : Type 0 where
  pub socket_path : List ℕ
  pub monitor_fd : ℤ
  pub event_fd : ℤ
  pub descriptor : Descriptor
  pub state : PadState
  pub monitor_buffer : List ℕ
  pub event_buffer : List ℕ
  pub dials : List Dial
  pub wire : List (ℤ × List ℕ)
  pub closed : List ℤ

-- `reset_state`: the triggers rest at their lowest.
abbrev pub reset_state : PadState
reset_state = record {
  axes = pos 0 ∷ pos 0 ∷ pos 0 ∷ pos 0 ∷ negsuc 32767 ∷ negsuc 32767 ∷ [];
  buttons = 0;
  hat_x = pos 0;
  hat_y = pos 0;
  packet_number = 0;
}

abbrev pub next_dial : List Dial → Dial
next_dial [] = refused
next_dial (d ∷ ds) = d

abbrev pub later_dials : List Dial → List Dial
later_dials [] = []
later_dials (d ∷ ds) = ds
