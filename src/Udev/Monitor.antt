-- ===== src/Udev/Monitor.antt =====
-- The monitor of src/libudev_fake.c, of which there is one; `given` is whether the pointer to it is
-- not NULL.
use termux_gamepad.Prelude.{
  ℕ, ◌+◌, ◌-◌, Bool, false, not, ◌&&◌, ◌||◌, List, Option, none, some, ℤ, pos, negsuc, ◌==◌,
  is_nonneg, if◌then◌else◌, length, take,
}
use termux_gamepad.Wire.{
  HotplugMessage, hotplug_magic, hotplug_remove, control_version, control_monitor,
  hotplug_message_size, decode_hotplug,
}
use termux_gamepad.Preload.Setup.{Environment}
use termux_gamepad.Udev.{
  Device, event_dev, Udev, Contact, udev_backend_enabled, connect_bridge, update_descriptor,
  log_closed,
}
use termux_gamepad.Udev.Devices.{device_ref}

-- `true` for a pointer to the monitor.
unfoldable pub new_from_netlink : Environment → Contact → Udev → Bool × Udev
new_from_netlink env c u =
    let u1 = record u { monitor_refs = 1; monitor_fd = negsuc 0 } in
    let (fd, u2) = connect_bridge env control_monitor c u1 in
    if udev_backend_enabled env then (is_nonneg fd, record u2 { monitor_fd = fd }) else (false, u)

unfoldable pub monitor_ref : Bool → Udev → Udev
monitor_ref given u = if given then record u { monitor_refs = u.monitor_refs + 1 } else u

unfoldable pub enable_receiving : Environment → Bool → ℤ
enable_receiving env given = if udev_backend_enabled env && given then pos 0 else negsuc 0

unfoldable pub monitor_get_fd : Environment → Bool → Udev → ℤ
monitor_get_fd env given u = if udev_backend_enabled env && given then u.monitor_fd else negsuc 0

abbrev pub is_hotplug : HotplugMessage → Bool
is_hotplug m = (m.magic == hotplug_magic) && (m.version == control_version)

abbrev pub plugged : Environment → HotplugMessage → Udev → Udev
plugged env m u = device_ref (some event_dev) (record (update_descriptor env m.descriptor u) {
  event_action = if m.action == hotplug_remove then 2 else 1;
})

-- `received` is what `recv` with MSG_WAITALL gives.
unfoldable pub receive_device : Environment → Bool → List ℕ → Udev → Option Device × Udev
receive_device env given received u =
    let bytes = take hotplug_message_size received in
    let m = decode_hotplug bytes in
    if not (udev_backend_enabled env) || not given || not (is_nonneg u.monitor_fd)
    then (none, u)
    else if (length bytes == hotplug_message_size) && is_hotplug m
    then (some event_dev, plugged env m u)
    else (none, u)

unfoldable pub monitor_unref : Bool → Udev → Udev
monitor_unref given u =
    let u1 =
      if is_nonneg u.monitor_fd
      then record (log_closed u.monitor_fd u) { monitor_fd = negsuc 0 }
      else u in
    if given then record u1 { monitor_refs = u1.monitor_refs - 1 } else u
