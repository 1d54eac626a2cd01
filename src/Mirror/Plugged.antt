-- ===== src/Mirror/Plugged.antt =====
-- What `refresh_lorie_device` of src/lorie_evdev_bridge.c announces to the clients that monitor it.
use termux_gamepad.Prelude.{test_bit, ℕ, List, Option, negsuc, is_nonneg, if◌then◌else◌}
use termux_gamepad.Wire.{
  fill_name, device_magic, control_version, DeviceDescriptor, hotplug_add, hotplug_remove,
  encode_hotplug,
}
use termux_gamepad.Bridge.State.{Bridge, zero_state}
use termux_gamepad.Bridge.Device.{XiDevice, Found, hotplug_message, find_lorie_device}

-- The bytes that tell a monitor of what a client of the bridge then finds.
abbrev pub announcement : ℕ → DeviceDescriptor → List ℕ
announcement action d = encode_hotplug (hotplug_message action d)

-- The descriptor behind a removal.
abbrev pub removed_descriptor : DeviceDescriptor → DeviceDescriptor
removed_descriptor d = record d { present = 0; device_id = negsuc 0 }

-- The descriptor of a gamepad that was found, field by field: the numbers and the mode are those of
-- the X server's reply, of whose capabilities only the first bit is passed on.
abbrev pub added_descriptor : Found → DeviceDescriptor
added_descriptor f = record {
  magic = device_magic;
  version = control_version;
  present = 1;
  capabilities = if test_bit f.reply.capabilities 0 then 1 else 0;
  input_mode = f.reply.input_mode;
  vendor_id = f.reply.vendor_id;
  product_id = f.reply.product_id;
  device_id = f.device_id;
  name = fill_name f.name;
}

-- The action and the descriptor that a search leads to, where it changes whether there is a
-- gamepad.
abbrev pub news : Option (List XiDevice) → Bridge → ℕ × DeviceDescriptor
news devices b =
    if is_nonneg b.device_id
    then (hotplug_remove, removed_descriptor b.descriptor)
    else (hotplug_add, added_descriptor (find_lorie_device devices))

-- The bridge when its globals are set and nothing is sent yet.
abbrev pub turned_to : Option (List XiDevice) → Bridge → Bridge
turned_to devices b =
    let f = find_lorie_device devices in
    if is_nonneg b.device_id
    then record b {
      device_id = negsuc 0;
      capabilities = 0;
      state = zero_state;
      descriptor = (news devices b).1;
    }
    else record b {
      device_id = f.device_id;
      capabilities = f.reply.capabilities;
      descriptor = (news devices b).1;
    }
