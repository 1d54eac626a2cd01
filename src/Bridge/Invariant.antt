-- ===== src/Bridge/Invariant.antt =====
-- What holds of the client table of src/lorie_evdev_bridge.c between any two steps, and the part of
-- the bridge that serving the clients leaves alone.
pub mod Attached
pub mod Mixing
pub mod Queues
pub mod Serving
pub mod Messages
pub mod Run
pub mod Attachment
use termux_gamepad.Prelude.{
  ℕ, ◌≤◌, ◌<◌, ◌≡◌, refl, arith, true, false, List, [], ◌∷◌, ℤ, length, All, max, is_nonneg, get_or,
  set, zero, suc,
}
use termux_gamepad.Wire.{DeviceDescriptor}
use termux_gamepad.Bridge.State.{
  Bridge, Client, GamepadState, client_buffer_size, control_buffer_size, max_clients, free_client,
  client_at, with_client,
}

-- The buffers hold what they hold, and a free slot holds nothing.
pub record IsSlot (c : Client) : Type 0 where
  pub output_fits : length c.output ≤ client_buffer_size
  pub control_fits : length c.control ≤ control_buffer_size
  pub free_silent :
      is_nonneg c.fd ≡ false → (c.rumble_low ≡ 0) × (c.rumble_high ≡ 0) × (length c.control ≡ 0)

pub free_client-IsSlot : IsSlot free_client
free_client-IsSlot = ground arith

-- The loudest effect that any client asks for, on each motor.
abbrev pub loudest_low : List Client → ℕ
loudest_low [] = 0
loudest_low (c ∷ cs) = max c.rumble_low (loudest_low cs)

abbrev pub loudest_high : List Client → ℕ
loudest_high [] = 0
loudest_high (c ∷ cs) = max c.rumble_high (loudest_high cs)

-- The table keeps its size, its buffers fit, and the controller plays the loudest effect on each
-- motor.
pub record IsServing (b : Bridge) : Type 0 where
  pub size : length b.clients ≡ max_clients
  pub slots : All IsSlot b.clients
  pub display_open : b.x_display ≡ true
  pub low_mixed : b.active_rumble_low ≡ loudest_low b.clients
  pub high_mixed : b.active_rumble_high ≡ loudest_high b.clients

-- The same without the last two, as it is while an effect is being changed.
pub record IsTable (b : Bridge) : Type 0 where
  pub size : length b.clients ≡ max_clients
  pub slots : All IsSlot b.clients
  pub display_open : b.x_display ≡ true

-- What is no part of the client table or of the world.
pub record Core : Type 0 where
  pub state : GamepadState
  pub opcode : ℤ
  pub device_id : ℤ
  pub capabilities : ℕ
  pub descriptor : DeviceDescriptor

abbrev pub core : Bridge → Core
core b = record {
  state = b.state;
  opcode = b.opcode;
  device_id = b.device_id;
  capabilities = b.capabilities;
  descriptor = b.descriptor;
}

-- A connection holds slot `i`.
abbrev pub IsOpen : Bridge → ℕ → Type 0
IsOpen b i = is_nonneg (client_at b i).fd ≡ true

-- A slot that is held is one of the table's, so what is written there is read there.
pub get_or-set_open :
    (cs : List Client) (i : ℕ) (c : Client)
    → is_nonneg (get_or cs i free_client).fd ≡ true
    → get_or (set cs i c) i free_client ≡ c
get_or-set_open [] i c h = cc
get_or-set_open (x ∷ cs) zero c h = refl
get_or-set_open (x ∷ cs) (suc i) c h = get_or-set_open cs i c h

pub client_at-with_client :
    (b : Bridge) (i : ℕ) (c : Client) → IsOpen b i → client_at (with_client b i c) i ≡ c
client_at-with_client b i c h = get_or-set_open b.clients i c h

pub with_client-IsOpen :
    (b : Bridge) (i : ℕ) (c : Client)
    → IsOpen b i
    → is_nonneg c.fd ≡ true
    → IsOpen (with_client b i c) i
with_client-IsOpen b i c h e = rw (get_or-set_open b.clients i c h) e

-- A client that asks for the same effect leaves the mix alone.
pub loudest_low-set :
    (cs : List Client) (i : ℕ) (c : Client)
    → c.rumble_low ≡ (get_or cs i free_client).rumble_low
    → loudest_low (set cs i c) ≡ loudest_low cs
loudest_low-set [] i c h = refl
loudest_low-set (x ∷ cs) zero c h = rw h
loudest_low-set (x ∷ cs) (suc i) c h = rw (loudest_low-set cs i c h)

pub loudest_high-set :
    (cs : List Client) (i : ℕ) (c : Client)
    → c.rumble_high ≡ (get_or cs i free_client).rumble_high
    → loudest_high (set cs i c) ≡ loudest_high cs
loudest_high-set [] i c h = refl
loudest_high-set (x ∷ cs) zero c h = rw h
loudest_high-set (x ∷ cs) (suc i) c h = rw (loudest_high-set cs i c h)
