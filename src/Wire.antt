-- ===== src/Wire.antt =====
-- The structures that cross the Unix socket: src/tg_evdev_protocol.h, and `struct tg_input_event`
-- of src/tg_common.h (the kernel's `struct input_event`), with their bytes on a little-endian
-- 64-bit machine. A `char name[64]` is the list of its 64 bytes.
pub mod RoundTrip
pub mod Text
pub mod Pieces
use termux_gamepad.Prelude.{
  ℕ, ◌+◌, ◌-◌, ◌^◌, List, [], ◌∷◌, ◌++◌, ◌==◌, if◌then◌else◌, ℤ, le_bytes, read_le, to_signed,
  to_unsigned, u32_mod, take, length, replicate,
}

abbrev pub control_magic : ℕ
control_magic = 0x54474546

abbrev pub control_version : ℕ
control_version = 3

abbrev pub control_rumble : ℕ
control_rumble = 1

abbrev pub control_stop_rumble : ℕ
control_stop_rumble = 2

abbrev pub control_query_descriptor : ℕ
control_query_descriptor = 3

abbrev pub control_monitor : ℕ
control_monitor = 4

abbrev pub device_magic : ℕ
device_magic = 0x54474456

abbrev pub device_cap_rumble : ℕ
device_cap_rumble = 0

abbrev pub input_mode_dinput : ℕ
input_mode_dinput = 2

abbrev pub hotplug_magic : ℕ
hotplug_magic = 0x54474850

abbrev pub hotplug_add : ℕ
hotplug_add = 1

abbrev pub hotplug_remove : ℕ
hotplug_remove = 2

abbrev pub ev_syn : ℕ
ev_syn = 0x00

abbrev pub ev_key : ℕ
ev_key = 0x01

abbrev pub ev_rel : ℕ
ev_rel = 0x02

abbrev pub ev_abs : ℕ
ev_abs = 0x03

abbrev pub ev_ff : ℕ
ev_ff = 0x15

abbrev pub syn_report : ℕ
syn_report = 0

-- `sec` and `usec` are the 64-bit patterns of signed numbers.
pub record InputEvent : Type 0 where
  pub sec : ℕ
  pub usec : ℕ
  pub type : ℕ
  pub code : ℕ
  pub value : ℤ

pub record ControlMessage : Type 0 where
  pub magic : ℕ
  pub version : ℕ
  pub command : ℕ
  pub low_frequency : ℕ
  pub high_frequency : ℕ
  pub duration_ms : ℕ

pub record DeviceDescriptor : Type 0 where
  pub magic : ℕ
  pub version : ℕ
  pub present : ℕ
  pub capabilities : ℕ
  pub input_mode : ℕ
  pub vendor_id : ℕ
  pub product_id : ℕ
  pub device_id : ℤ
  pub name : List ℕ

pub record HotplugMessage : Type 0 where
  pub magic : ℕ
  pub version : ℕ
  pub action : ℕ
  pub descriptor : DeviceDescriptor

-- `sizeof` of each.
abbrev pub input_event_size : ℕ
input_event_size = 24

abbrev pub control_message_size : ℕ
control_message_size = 16

abbrev pub device_descriptor_size : ℕ
device_descriptor_size = 88

abbrev pub hotplug_message_size : ℕ
hotplug_message_size = 96

-- The bytes of a value, followed by `rest`.
pub put_event : InputEvent → List ℕ → List ℕ
put_event e rest =
    le_bytes 8 e.sec
    ++ (le_bytes 8 e.usec
        ++ (le_bytes 2 e.type
            ++ (le_bytes 2 e.code ++ (le_bytes 4 (to_unsigned u32_mod e.value) ++ rest))))

unfoldable pub encode_event : InputEvent → List ℕ
unfolding put_event
encode_event e = put_event e []

unfoldable pub decode_event : List ℕ → InputEvent
decode_event bs =
    let (sec, b1) = read_le 8 bs in
    let (usec, b2) = read_le 8 b1 in
    let (type, b3) = read_le 2 b2 in
    let (code, b4) = read_le 2 b3 in
    let (value, b5) = read_le 4 b4 in
    record { sec = sec; usec = usec; type = type; code = code; value = to_signed u32_mod value }

pub put_control : ControlMessage → List ℕ → List ℕ
put_control m rest =
    le_bytes 4 m.magic
    ++ (le_bytes 2 m.version
        ++ (le_bytes 2 m.command
            ++ (le_bytes 2 m.low_frequency
                ++ (le_bytes 2 m.high_frequency ++ (le_bytes 4 m.duration_ms ++ rest)))))

unfoldable pub encode_control : ControlMessage → List ℕ
unfolding put_control
encode_control m = put_control m []

unfoldable pub decode_control : List ℕ → ControlMessage
decode_control bs =
    let (magic, b1) = read_le 4 bs in
    let (version, b2) = read_le 2 b1 in
    let (command, b3) = read_le 2 b2 in
    let (low, b4) = read_le 2 b3 in
    let (high, b5) = read_le 2 b4 in
    let (duration, b6) = read_le 4 b5 in
    record {
      magic = magic;
      version = version;
      command = command;
      low_frequency = low;
      high_frequency = high;
      duration_ms = duration;
    }

-- `pad0[3]` is zero: every descriptor that is sent was cleared as a whole.
pub put_descriptor : DeviceDescriptor → List ℕ → List ℕ
put_descriptor d rest =
    le_bytes 4 d.magic
    ++ (le_bytes 2 d.version
        ++ (le_bytes 1 d.present
            ++ (le_bytes 1 d.capabilities
                ++ (le_bytes 1 d.input_mode
                    ++ (le_bytes 3 0
                        ++ (le_bytes 4 d.vendor_id
                            ++ (le_bytes 4 d.product_id
                                ++ (le_bytes 4 (to_unsigned u32_mod d.device_id)
                                    ++ (d.name ++ rest)))))))))

unfoldable pub encode_descriptor : DeviceDescriptor → List ℕ
unfolding put_descriptor
encode_descriptor d = put_descriptor d []

unfoldable pub decode_descriptor : List ℕ → DeviceDescriptor
decode_descriptor bs =
    let (magic, b1) = read_le 4 bs in
    let (version, b2) = read_le 2 b1 in
    let (present, b3) = read_le 1 b2 in
    let (capabilities, b4) = read_le 1 b3 in
    let (input_mode, b5) = read_le 1 b4 in
    let (pad0, b6) = read_le 3 b5 in
    let (vendor_id, b7) = read_le 4 b6 in
    let (product_id, b8) = read_le 4 b7 in
    let (device_id, b9) = read_le 4 b8 in
    record {
      magic = magic;
      version = version;
      present = present;
      capabilities = capabilities;
      input_mode = input_mode;
      vendor_id = vendor_id;
      product_id = product_id;
      device_id = to_signed u32_mod device_id;
      name = take 64 b9;
    }

pub put_hotplug : HotplugMessage → List ℕ → List ℕ
unfolding put_descriptor
put_hotplug m rest =
    le_bytes 4 m.magic
    ++ (le_bytes 2 m.version
        ++ (le_bytes 1 m.action ++ (le_bytes 1 0 ++ put_descriptor m.descriptor rest)))

unfoldable pub encode_hotplug : HotplugMessage → List ℕ
unfolding put_hotplug
encode_hotplug m = put_hotplug m []

unfoldable pub decode_hotplug : List ℕ → HotplugMessage
unfolding decode_descriptor
decode_hotplug bs =
    let (magic, b1) = read_le 4 bs in
    let (version, b2) = read_le 2 b1 in
    let (action, b3) = read_le 1 b2 in
    let (pad0, b4) = read_le 1 b3 in
    record { magic = magic; version = version; action = action; descriptor = decode_descriptor b4 }

-- Events one after the other.
unfoldable pub encode_events : List InputEvent → List ℕ
encode_events [] = []
encode_events (e ∷ es) = encode_event e ++ encode_events es

-- The bytes of a C string, its terminator left off.
unfoldable pub c_string : List ℕ → List ℕ
c_string [] = []
c_string (x ∷ xs) = if x == 0 then [] else x ∷ c_string xs

-- What `snprintf(name, 64, "%s", s)` leaves in a `name` that was cleared before.
unfoldable pub fill_name : List ℕ → List ℕ
unfolding c_string
fill_name s = let kept = take 63 (c_string s) in kept ++ replicate (64 - length kept) 0
