-- ===== src/Udev/Plugging.antt =====
-- From the bridge's messages to what src/libudev_fake.c lists, and on to the nodes that
-- src/evdev_preload.c opens.
use termux_gamepad.Prelude.{
  ℕ, ◌+◌, ◌-◌, ◌<◌, ◌≡◌, refl, ap, ap₂, ◌∙◌, arith, Bool, true, false, not, ◌&&◌, List, ◌++◌, some,
  ◌==◌, is_nonneg, take-append_exact, if◌then◌else◌, Bool-cases, inl, inr,
}
use termux_gamepad.Wire.{
  DeviceDescriptor, encode_hotplug, encode_descriptor, hotplug_add, hotplug_remove,
  control_message_size,
}
use termux_gamepad.Wire.RoundTrip.{
  IsDescriptor, IsHotplug, length-encode_hotplug, decode_hotplug-encode_hotplug,
}
use termux_gamepad.Bridge.Device.{hotplug_message}
use termux_gamepad.Common.{codes, same_text}
use termux_gamepad.Gamepad.Net.{connected}
use termux_gamepad.Preload.Setup.{Environment}
use termux_gamepad.Preload.Opening.{node_of}
use termux_gamepad.Preload.Opening.Served.{fits}
use termux_gamepad.Udev.{
  event_dev, Udev, Contact, udev_backend_enabled, update_descriptor, is_known,
}
use termux_gamepad.Udev.Devices.{
  device_ref, device_unref, refs, get_action, get_devnode, new_from_syspath, device_for_syspath,
}
use termux_gamepad.Udev.Listing.{scan_devices, get_list_entry, list_entry_get_name}
use termux_gamepad.Udev.Monitor.{receive_device}
use termux_gamepad.Udev.Asking.{refresh_descriptor-answered}

-- A device is listed exactly if the enumeration asks for input devices and there is a gamepad.
abbrev Lists : Environment → Udev → Bool → Type 0
Lists env u listed = get_list_entry env true u ≡ listed

hotplug_message-IsHotplug :
    (action : ℕ) (d : DeviceDescriptor)
    → action < 256
    → IsDescriptor d
    → IsHotplug (hotplug_message action d)
hotplug_message-IsHotplug action d h v = record {
  magic_fits = omega arith;
  version_fits = omega arith;
  action_fits = h;
  descriptor_fits = v;
}

-- The action that the bridge sends with a descriptor.
abbrev pub action_for : DeviceDescriptor → ℕ
action_for d = if d.present == 0 then hotplug_remove else hotplug_add

action_for-lt : (d : DeviceDescriptor) → action_for d < 256
action_for-lt d = ground arith

abbrev pub action_text : DeviceDescriptor → List ℕ
action_text d = if d.present == 0 then codes "remove" else codes "add"

action_reads :
    (d : DeviceDescriptor)
    → (if (if action_for d == hotplug_remove then 2 else 1) == 2
        then codes "remove"
        else codes "add")
      ≡ action_text d
action_reads d = elim (Bool-cases (d.present == 0)) [ inl gone ↦ rw gone | inr here ↦ rw here ]

-- A hotplug message that the bridge sends is taken in whole: the monitor gives the event device,
-- its action says what happened, the descriptor is the bridge's, and an enumeration of input
-- devices from then on lists the device exactly if there is a gamepad. The backend is enabled and
-- the monitor's connection is open.
pub receive_device_mirrors :
    (env : Environment) (d : DeviceDescriptor) (rest : List ℕ) (u : Udev)
    → udev_backend_enabled env ≡ true
    → is_nonneg u.monitor_fd ≡ true
    → u.matched_input ≡ true
    → IsDescriptor d
    → let (dev, u') =
        receive_device env true (encode_hotplug (hotplug_message (action_for d) d) ++ rest) u in
      (dev ≡ some event_dev)
      × (get_action dev u' ≡ some (action_text d))
      × (u'.descriptor ≡ d)
      × (get_list_entry env true u' ≡ not (d.present == 0))
unfolding receive_device device_ref update_descriptor get_action get_list_entry
receive_device_mirrors env d rest u enabled monitored matched v =
    let m = hotplug_message (action_for d) d in
    let size = length-encode_hotplug m v.name_size in
    let whole = take-append_exact 96 (encode_hotplug m) rest size in
    let same =
      decode_hotplug-encode_hotplug m
        (hotplug_message-IsHotplug (action_for d) d (action_for-lt d) v) in
    rw (enabled, monitored, whole, size, same, matched) (refl, ap some (action_reads d), refl, refl)

-- When the bridge answers a scan with its descriptor, the enumeration lists the device exactly if
-- there is a gamepad. The enumeration has been asked for input devices, the backend is enabled, the
-- socket's path fits, the request is sent whole, and the descriptor is one whose fields fit their C
-- types and that the library knows by its magic number and version.
pub scan_devices_lists :
    (env : Environment) (fd : ℕ) (d : DeviceDescriptor) (rest : List ℕ) (u : Udev)
    → udev_backend_enabled env ≡ true
    → fits env ≡ true
    → u.matched_input ≡ true
    → IsDescriptor d
    → is_known d ≡ true
    → let c : Contact = record {
      outcome = connected fd;
      sent = control_message_size;
      reply = encode_descriptor d ++ rest;
    } in
      get_list_entry env true (scan_devices env true c u).1 ≡ not (d.present == 0)
unfolding scan_devices get_list_entry
scan_devices_lists env fd d rest u enabled short matched v known =
    let (status, same, kept) = refresh_descriptor-answered env fd d rest u enabled short v known in
    rw (enabled, scan_devices)
      (ap₂ (λ (a : Bool) (p : ℕ). a && not (p == 0)) (kept ∙ matched)
        (ap (λ (e : DeviceDescriptor). e.present) same))

-- A device that is listed can be opened: its name leads to the event device, whose node is one that
-- the preload serves as an evdev device; looking it up takes one reference, which giving it back
-- releases.
pub listed_opens :
    (env : Environment) (u : Udev)
    → get_list_entry env true u ≡ true
    → let (dev, u') = new_from_syspath env (list_entry_get_name true) u in
      (node_of (get_devnode dev) ≡ some false)
      × (refs event_dev u' ≡ refs event_dev u + 1)
      × (device_unref dev u' ≡ u)
unfolding get_list_entry new_from_syspath list_entry_get_name device_for_syspath node_of get_devnode
    refs device_ref device_unref same_text
listed_opens env u listed =
    let enabled : udev_backend_enabled env ≡ true = ground (arith, listed) in
    let balanced : u.event_refs + 1 - 1 ≡ u.event_refs = omega arith in
    rw enabled (refl, refl, rw balanced)
