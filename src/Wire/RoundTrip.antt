-- ===== src/Wire/RoundTrip.antt =====
-- Encoding and decoding of each structure of src/tg_evdev_protocol.h and of input events.
use termux_gamepad.Prelude.{
  ℕ, ◌^◌, ◌<◌, ◌≡◌, refl, List, [], arith, length, length-append, le_bytes, read_le-le_bytes,
  to_unsigned, to_unsigned-lt_s32, to_signed-to_unsigned_s32, IsS32, u32_mod, take-append_exact,
}
use termux_gamepad.Wire.{
  InputEvent, ControlMessage, DeviceDescriptor, HotplugMessage, put_event, encode_event,
  decode_event, put_control, decode_control, put_descriptor, encode_descriptor, decode_descriptor,
  put_hotplug, encode_hotplug, decode_hotplug, input_event_size,
}

-- Each field lies in the range of its C type.
pub record IsEvent (e : InputEvent) : Type 0 where
  pub sec_fits : e.sec < 2 ^ 64
  pub usec_fits : e.usec < 2 ^ 64
  pub type_fits : e.type < 2 ^ 16
  pub code_fits : e.code < 2 ^ 16
  pub value_fits : IsS32 e.value

pub record IsControl (m : ControlMessage) : Type 0 where
  pub magic_fits : m.magic < 2 ^ 32
  pub version_fits : m.version < 2 ^ 16
  pub command_fits : m.command < 2 ^ 16
  pub low_fits : m.low_frequency < 2 ^ 16
  pub high_fits : m.high_frequency < 2 ^ 16
  pub duration_fits : m.duration_ms < 2 ^ 32

pub record IsDescriptor (d : DeviceDescriptor) : Type 0 where
  pub magic_fits : d.magic < 2 ^ 32
  pub version_fits : d.version < 2 ^ 16
  pub present_fits : d.present < 2 ^ 8
  pub capabilities_fits : d.capabilities < 2 ^ 8
  pub mode_fits : d.input_mode < 2 ^ 8
  pub vendor_fits : d.vendor_id < 2 ^ 32
  pub product_fits : d.product_id < 2 ^ 32
  pub device_fits : IsS32 d.device_id
  pub name_size : length d.name ≡ 64

pub record IsHotplug (m : HotplugMessage) : Type 0 where
  pub magic_fits : m.magic < 2 ^ 32
  pub version_fits : m.version < 2 ^ 16
  pub action_fits : m.action < 2 ^ 8
  pub descriptor_fits : IsDescriptor m.descriptor

-- An input event whose fields fit their C types is read back from its bytes, whatever follows
-- them.
pub decode_event-put_event :
    (e : InputEvent) (rest : List ℕ) → IsEvent e → decode_event (put_event e rest) ≡ e
unfolding decode_event put_event
decode_event-put_event e rest v = rw (
  read_le-le_bytes 8 e.sec _ v.sec_fits,
  read_le-le_bytes 8 e.usec _ v.usec_fits,
  read_le-le_bytes 2 e.type _ v.type_fits,
  read_le-le_bytes 2 e.code _ v.code_fits,
  read_le-le_bytes 4 (to_unsigned u32_mod e.value) _ (to_unsigned-lt_s32 e.value),
  to_signed-to_unsigned_s32 e.value v.value_fits,
)

pub decode_event-encode_event : (e : InputEvent) → IsEvent e → decode_event (encode_event e) ≡ e
unfolding encode_event
decode_event-encode_event e v = decode_event-put_event e [] v

-- A control message whose fields fit their C types is read back from its bytes, whatever follows
-- them.
pub decode_control-put_control :
    (m : ControlMessage) (rest : List ℕ) → IsControl m → decode_control (put_control m rest) ≡ m
unfolding decode_control put_control
decode_control-put_control m rest v = rw (
  read_le-le_bytes 4 m.magic _ v.magic_fits,
  read_le-le_bytes 2 m.version _ v.version_fits,
  read_le-le_bytes 2 m.command _ v.command_fits,
  read_le-le_bytes 2 m.low_frequency _ v.low_fits,
  read_le-le_bytes 2 m.high_frequency _ v.high_fits,
  read_le-le_bytes 4 m.duration_ms _ v.duration_fits,
)

decode_descriptor-put_descriptor :
    (d : DeviceDescriptor) (rest : List ℕ)
    → IsDescriptor d
    → decode_descriptor (put_descriptor d rest) ≡ d
unfolding decode_descriptor put_descriptor
decode_descriptor-put_descriptor d rest v = rw (
  read_le-le_bytes 4 d.magic _ v.magic_fits,
  read_le-le_bytes 2 d.version _ v.version_fits,
  read_le-le_bytes 1 d.present _ v.present_fits,
  read_le-le_bytes 1 d.capabilities _ v.capabilities_fits,
  read_le-le_bytes 1 d.input_mode _ v.mode_fits,
  read_le-le_bytes 3 0 _ (omega arith),
  read_le-le_bytes 4 d.vendor_id _ v.vendor_fits,
  read_le-le_bytes 4 d.product_id _ v.product_fits,
  read_le-le_bytes 4 (to_unsigned u32_mod d.device_id) _ (to_unsigned-lt_s32 d.device_id),
  to_signed-to_unsigned_s32 d.device_id v.device_fits,
  take-append_exact 64 d.name rest v.name_size,
)

-- A hotplug message whose fields fit their C types, with the descriptor in it, is read back from
-- its bytes, whatever follows them.
pub decode_hotplug-put_hotplug :
    (m : HotplugMessage) (rest : List ℕ) → IsHotplug m → decode_hotplug (put_hotplug m rest) ≡ m
unfolding decode_hotplug put_hotplug
decode_hotplug-put_hotplug m rest v = rw (
  read_le-le_bytes 4 m.magic _ v.magic_fits,
  read_le-le_bytes 2 m.version _ v.version_fits,
  read_le-le_bytes 1 m.action _ v.action_fits,
  read_le-le_bytes 1 0 _ (omega arith),
  decode_descriptor-put_descriptor m.descriptor rest v.descriptor_fits,
)

-- `sizeof(struct input_event)` is what the encoding takes.
pub length-encode_event : (e : InputEvent) → length (encode_event e) ≡ input_event_size
unfolding encode_event le_bytes
length-encode_event e = refl

pub length-encode_descriptor :
    (d : DeviceDescriptor) → length d.name ≡ 64 → length (encode_descriptor d) ≡ 88
unfolding encode_descriptor le_bytes
length-encode_descriptor d h = omega (arith, length-append d.name [], h)

pub decode_descriptor-encode_descriptor :
    (d : DeviceDescriptor) → IsDescriptor d → decode_descriptor (encode_descriptor d) ≡ d
unfolding encode_descriptor
decode_descriptor-encode_descriptor d v = decode_descriptor-put_descriptor d [] v

pub length-encode_hotplug :
    (m : HotplugMessage) → length m.descriptor.name ≡ 64 → length (encode_hotplug m) ≡ 96
unfolding encode_hotplug le_bytes
length-encode_hotplug m h = omega (arith, length-append m.descriptor.name [], h)

pub decode_hotplug-encode_hotplug :
    (m : HotplugMessage) → IsHotplug m → decode_hotplug (encode_hotplug m) ≡ m
unfolding encode_hotplug
decode_hotplug-encode_hotplug m v = decode_hotplug-put_hotplug m [] v
