-- ===== src/Examples/Samples.antt =====
-- Inputs for src/lorie_evdev_bridge.c and src/termux_gamepad.c.
use termux_gamepad.Prelude.{ℕ, true, List, [], ◌∷◌, none, some, pos, negsuc, replicate}
use termux_gamepad.Wire.{
  DeviceDescriptor, ControlMessage, HotplugMessage, InputEvent, device_magic, hotplug_magic,
  control_magic, control_version,
}
use termux_gamepad.Bridge.State.{Bridge, World, RecvResult, XRequest, free_client, events}
use termux_gamepad.Bridge.Input.{XiEvent, motion, button_press}
use termux_gamepad.Bridge.Device.{XiDevice, slave_pointer}
use termux_gamepad.Bridge.Server.{
  accepted, device_event, Round, PollResult, ready, poll_failed, start,
}

-- The clock stands at five seconds and moves a millisecond at each reading.
abbrev pub calm : World
calm = record {
  now = 5_000_000_000;
  delays = 1_000_000 ∷ 1_000_000 ∷ 1_000_000 ∷ [];
  sends = [];
  recvs = [];
  wire = [];
  closed = [];
  requests = [];
}

abbrev pub gamepad_device : XiDevice
gamepad_device = record {
  deviceid = pos 7;
  use_kind = slave_pointer;
  name = none;
  reply = some (record {
    device_id = 7;
    capabilities = 1;
    present = 1;
    vendor_id = 0x045e;
    product_id = 0x028e;
    input_mode = 0;
  });
}

-- Button 1 goes down.
abbrev pub south_pressed : XiEvent
south_pressed = record {
  deviceid = pos 7;
  sourceid = pos 7;
  evtype = button_press;
  detail = pos 1;
  mask = [];
  values = [];
}

-- The left stick moves: X beyond its range, Y in it.
abbrev pub stick_moved : XiEvent
stick_moved = record {
  deviceid = pos 7;
  sourceid = pos 7;
  evtype = motion;
  detail = pos 0;
  mask = true ∷ true ∷ [];
  values = pos 40000 ∷ negsuc 99 ∷ [];
}

-- A client connects, and the stick moves.
abbrev pub first_round : Round
first_round = record {
  x_ready = true;
  x_events = device_event stick_moved ∷ [];
  server_ready = true;
  accepts = accepted 5 true ∷ [];
  revents = [];
  late_x_events = device_event south_pressed ∷ [];
}

abbrev pub polls : List PollResult
polls = ready first_round ∷ poll_failed ∷ []

-- Client 0 plays an effect for two and a half seconds, and the controller plays it.
abbrev pub playing : Bridge
playing =
    let b = start (pos 140) calm in
    record b {
      device_id = pos 7;
      capabilities = 1;
      active_rumble_low = 100;
      active_rumble_high = 0;
      clients =
          record free_client {
            fd = pos 5;
            rumble_low = 100;
            rumble_high = 0;
            rumble_expires_ms = 7_500;
            kind = events;
          }
          ∷ replicate 15 free_client;
      world = record calm { requests = XRequest.rumble 7 100 0 2500 ∷ [] };
    }

-- Client 0 sends these bytes.
abbrev pub hearing : List ℕ → Bridge
hearing bytes = record playing { world = record calm { recvs = RecvResult.got bytes ∷ [] } }

abbrev pub stop_message : ControlMessage
stop_message = record {
  magic = control_magic;
  version = control_version;
  command = 2;
  low_frequency = 0;
  high_frequency = 0;
  duration_ms = 0;
}

abbrev pub shown_descriptor : DeviceDescriptor
shown_descriptor = record {
  magic = device_magic;
  version = control_version;
  present = 1;
  capabilities = 1;
  input_mode = 0;
  vendor_id = 0x045e;
  product_id = 0x028e;
  device_id = pos 7;
  name = 0x70 ∷ 0x61 ∷ 0x64 ∷ replicate 61 0;
}

abbrev pub arrival : HotplugMessage
arrival = record {
  magic = hotplug_magic;
  version = control_version;
  action = 1;
  descriptor = shown_descriptor;
}

-- `BTN_SOUTH` goes down.
abbrev pub key_event : InputEvent
key_event = record { sec = 5; usec = 1000; type = 1; code = 0x130; value = pos 1 }

-- The bytes of `key_event`, and of the SYN_REPORT a millisecond later.
abbrev pub key_bytes_1 : List ℕ
key_bytes_1 = 5 ∷ 0 ∷ 0 ∷ 0 ∷ 0 ∷ 0 ∷ 0 ∷ 0 ∷ 0xe8 ∷ 0x03 ∷ []

abbrev pub key_bytes_2 : List ℕ
key_bytes_2 = 0 ∷ 0 ∷ 0 ∷ 0 ∷ 0 ∷ 0 ∷ 1 ∷ 0 ∷ 0x30 ∷ 0x01 ∷ 1 ∷ 0 ∷ 0 ∷ 0 ∷ []

abbrev pub syn_bytes : List ℕ
syn_bytes =
    5 ∷ 0 ∷ 0 ∷ 0 ∷ 0 ∷ 0 ∷ 0 ∷ 0 ∷ 0xd0 ∷ 0x07 ∷ 0 ∷ 0 ∷ 0 ∷ 0 ∷ 0 ∷ 0 ∷ 0 ∷ 0 ∷ 0 ∷ 0 ∷ 0 ∷ 0 ∷ 0
    ∷ 0 ∷ []
