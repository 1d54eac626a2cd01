-- ===== src/Bridge/State.antt =====
-- The globals of src/lorie_evdev_bridge.c, and what the operating system and the X server will
-- answer and have been asked.
use termux_gamepad.Prelude.{ℕ, Bool, false, List, [], ℤ, pos, negsuc, get_or, set, replicate}
use termux_gamepad.Wire.{DeviceDescriptor}

abbrev pub max_clients : ℕ
max_clients = 16

abbrev pub client_buffer_size : ℕ
client_buffer_size = 16384

-- `sizeof(client->control)`
abbrev pub control_buffer_size : ℕ
control_buffer_size = 256

pub data ClientKind : Type 0 where
  uninitialized events monitor : ClientKind

-- `output` and `control` are the first `used` and `control_used` bytes of the two buffers: the C
-- code reads none behind them.
pub record Client : Type 0 where
  pub fd : ℤ
  pub output : List ℕ
  pub control : List ℕ
  pub rumble_low : ℕ
  pub rumble_high : ℕ
  pub rumble_expires_ms : ℕ
  pub kind : ClientKind

pub record GamepadState : Type 0 where
  pub axes : List ℤ
  pub buttons : ℕ
  pub hat_x : ℤ
  pub hat_y : ℤ

-- What `send` answers: the bytes that it took, EAGAIN, EINTR, or another error.
pub data SendResult : Type 0 where
  took : ℕ → SendResult
  send_again send_interrupted send_failed : SendResult

-- What `recv` answers: bytes (none at the end of the stream), EAGAIN, EINTR, or another error.
pub data RecvResult : Type 0 where
  got : List ℕ → RecvResult
  recv_again recv_interrupted recv_failed : RecvResult

-- The requests of the LORIE-CONTROLLER extension that control the motors.
pub data XRequest : Type 0 where
  stop_rumble : ℕ → XRequest
  rumble : ℕ → ℕ → ℕ → ℕ → XRequest

-- `now` is CLOCK_MONOTONIC in nanoseconds; `delays` is how far it moves before each reading, and
-- `sends` and `recvs` are the coming answers. After the last of these the clock stands still and
-- every call would block. The rest is a log: the bytes that each descriptor took, the descriptors
-- closed and the requests made, oldest first.
pub record World : Type 0 where
  pub now : ℕ
  pub delays : List ℕ
  pub sends : List SendResult
  pub recvs : List RecvResult
  pub wire : List (ℤ × List ℕ)
  pub closed : List ℤ
  pub requests : List XRequest

-- `x_display` is whether the pointer is set; `opcode`, `device_id` and `capabilities` are the
-- globals that start with `lorie_`.
pub record Bridge : Type 0 where
  pub clients : List Client
  pub state : GamepadState
  pub x_display : Bool
  pub opcode : ℤ
  pub device_id : ℤ
  pub capabilities : ℕ
  pub active_rumble_low : ℕ
  pub active_rumble_high : ℕ
  pub descriptor : DeviceDescriptor
  pub world : World

-- A slot that no connection holds, as `close_client` leaves it.
abbrev pub free_client : Client
free_client = record {
  fd = negsuc 0;
  output = [];
  control = [];
  rumble_low = 0;
  rumble_high = 0;
  rumble_expires_ms = 0;
  kind = uninitialized;
}

-- `memset(&state, 0, sizeof(state))`
abbrev pub zero_state : GamepadState
zero_state = record { axes = replicate 6 (pos 0); buttons = 0; hat_x = pos 0; hat_y = pos 0 }

-- `clients[i]`; every index in the source lies below MAX_CLIENTS.
abbrev pub client_at : Bridge → ℕ → Client
client_at b i = get_or b.clients i free_client

abbrev pub with_client : Bridge → ℕ → Client → Bridge
with_client b i c = record b { clients = set b.clients i c }

abbrev pub is_events : ClientKind → Bool
is_events events = Bool.true
is_events _ = false

abbrev pub is_monitor : ClientKind → Bool
is_monitor monitor = Bool.true
is_monitor _ = false
