-- ===== src/Bridge/Device.antt =====
-- The gamepad that is attached: `query_lorie_capabilities`, `find_lorie_device`,
-- `broadcast_hotplug` and `refresh_lorie_device` of src/lorie_evdev_bridge.c.
use termux_gamepad.Prelude.{
  ℕ, Bool, true, false, not, ◌&&◌, ◌||◌, List, [], ◌∷◌, Option, none, some, ℤ, pos, negsuc, ◌==◌,
  eq_ℤ, is_nonneg, if◌then◌else◌, test_bit, replicate,
}
use termux_gamepad.Wire.{
  DeviceDescriptor, HotplugMessage, hotplug_magic, device_magic, control_version, hotplug_add,
  hotplug_remove, encode_hotplug, fill_name,
}
use termux_gamepad.Wire.Text.{strncmp_eq}
use termux_gamepad.Bridge.State.{Bridge, max_clients, client_at, is_monitor, zero_state}
use termux_gamepad.Bridge.Rumble.{close_on_failure}
use termux_gamepad.Bridge.Queue.{queue_bytes}
use termux_gamepad.Bridge.Input.{for_clients}

-- The fields of `xLorieControllerQueryCapabilitiesReply` that the bridge reads.
pub record Capabilities : Type 0 where
  pub device_id : ℕ
  pub capabilities : ℕ
  pub present : ℕ
  pub vendor_id : ℕ
  pub product_id : ℕ
  pub input_mode : ℕ

pub data DeviceUse : Type 0 where
  floating_slave slave_pointer other_use : DeviceUse

-- An `XIDeviceInfo`, with the server's reply to a query for this device (`none`: no reply).
pub record XiDevice : Type 0 where
  pub deviceid : ℤ
  pub use_kind : DeviceUse
  pub name : Option (List ℕ)
  pub reply : Option Capabilities

pub record Found : Type 0 where
  pub device_id : ℤ
  pub reply : Capabilities
  pub name : List ℕ

abbrev pub no_capabilities : Capabilities
no_capabilities = record {
  device_id = 0;
  capabilities = 0;
  present = 0;
  vendor_id = 0;
  product_id = 0;
  input_mode = 0;
}

abbrev pub not_found : Found
not_found = record { device_id = negsuc 0; reply = no_capabilities; name = replicate 64 0 }

-- `none` for the status 0.
unfoldable pub query_lorie_capabilities : ℤ → Option Capabilities → Option Capabilities
query_lorie_capabilities device_id none = none
query_lorie_capabilities device_id (some reply) =
    if reply.present == 0 || not (eq_ℤ (pos reply.device_id) device_id) then none else some reply

-- "Lorie gamepad"
abbrev pub default_name : List ℕ
default_name =
    0x4c ∷ 0x6f ∷ 0x72 ∷ 0x69 ∷ 0x65 ∷ 0x20 ∷ 0x67 ∷ 0x61 ∷ 0x6d ∷ 0x65 ∷ 0x70 ∷ 0x61 ∷ 0x64 ∷ []

abbrev pub name_or_default : Option (List ℕ) → List ℕ
name_or_default none = default_name
name_or_default (some s) = s

abbrev pub is_slave : DeviceUse → Bool
is_slave other_use = false
is_slave _ = true

abbrev pub offers_gamepad : XiDevice → Option Capabilities
offers_gamepad d = if is_slave d.use_kind then query_lorie_capabilities d.deviceid d.reply else none

unfoldable pub find_in : List XiDevice → Found
find_in [] = not_found
find_in (d ∷ ds) =
    let rest = find_in ds in
    elim (offers_gamepad d) [
      | none ↦ rest
      | some reply ↦ record {
        device_id = d.deviceid;
        reply = reply;
        name = fill_name (name_or_default d.name);
      }
    ]

-- `none` where XIQueryDevice returns NULL.
unfoldable pub find_lorie_device : Option (List XiDevice) → Found
find_lorie_device none = not_found
find_lorie_device (some ds) = find_in ds

abbrev pub hotplug_message : ℕ → DeviceDescriptor → HotplugMessage
hotplug_message action d = record {
  magic = hotplug_magic;
  version = control_version;
  action = action;
  descriptor = d;
}

-- One client's turn of `broadcast_hotplug`.
unfoldable pub offer_hotplug : ℕ → DeviceDescriptor → ℕ → Bridge → Bridge
offer_hotplug action d i b =
    let c = client_at b i in
    if is_nonneg c.fd && is_monitor c.kind
    then close_on_failure i (queue_bytes i (encode_hotplug (hotplug_message action d)) b)
    else b

unfoldable pub broadcast_hotplug : ℕ → Bridge → Bridge
broadcast_hotplug action b = for_clients max_clients 0 (offer_hotplug action b.descriptor) b

-- The gamepad that was found is the one that is served.
unfoldable pub is_unchanged : Found → Bridge → Bool
is_unchanged f b =
    eq_ℤ f.device_id b.device_id
    && is_nonneg f.device_id
    && (b.capabilities == f.reply.capabilities)
    && (b.descriptor.input_mode == f.reply.input_mode)
    && (b.descriptor.vendor_id == f.reply.vendor_id)
    && (b.descriptor.product_id == f.reply.product_id)
    && strncmp_eq 64 b.descriptor.name f.name

unfoldable pub remove_device : Bridge → Bridge
remove_device b = broadcast_hotplug hotplug_remove (record b {
  device_id = negsuc 0;
  capabilities = 0;
  state = zero_state;
  descriptor = record b.descriptor { present = 0; device_id = negsuc 0 };
})

abbrev pub describe : Found → DeviceDescriptor
describe f = record {
  magic = device_magic;
  version = control_version;
  present = 1;
  capabilities = if test_bit f.reply.capabilities 0 then 1 else 0;
  input_mode = f.reply.input_mode;
  vendor_id = f.reply.vendor_id;
  product_id = f.reply.product_id;
  device_id = f.device_id;
  name = fill_name f.name;
}

unfoldable pub add_device : Found → Bridge → Bridge
add_device f b = broadcast_hotplug hotplug_add (record b {
  device_id = f.device_id;
  capabilities = f.reply.capabilities;
  descriptor = describe f;
})

-- `selected` is whether `select_device` succeeds. The status is ignored by every caller.
unfoldable pub refresh_lorie_device : Option (List XiDevice) → Bool → Bridge → ℤ × Bridge
refresh_lorie_device devices selected b =
    let f = find_lorie_device devices in
    let removed = if is_nonneg b.device_id then remove_device b else b in
    if is_unchanged f b
    then (pos 0, b)
    else if not (is_nonneg f.device_id)
    then (pos 0, removed)
    else if not selected
    then (negsuc 0, removed)
    else (pos 1, add_device f removed)
