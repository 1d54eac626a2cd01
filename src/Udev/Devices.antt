-- ===== src/Udev/Devices.antt =====
-- The devices of src/libudev_fake.c: finding them, counting references, and what they say of
-- themselves. A NULL pointer is `none`.
use termux_gamepad.Prelude.{ℕ, ◌+◌, ◌-◌, Bool, List, Option, none, some, ◌==◌, if◌then◌else◌}
use termux_gamepad.Common.{
  codes, streq, fake_devnode, fake_joydev_node, fake_syspath, fake_joydev_syspath,
  fake_parent_syspath,
}
use termux_gamepad.Preload.Setup.{Environment}
use termux_gamepad.Udev.{
  Device, event_dev, joy_dev, parent_dev, Udev, udev_backend_enabled, dinput_mode, device_name,
}

abbrev pub text : Option (List ℕ) → List ℕ → Bool
text key name = streq key (some name)

unfoldable pub device_for_syspath : Option (List ℕ) → Option Device
device_for_syspath path =
    if text path fake_syspath
    then some event_dev
    else if text path fake_joydev_syspath
    then some joy_dev
    else if text path fake_parent_syspath
    then some parent_dev
    else none

unfoldable pub udev_new : Udev → Udev
udev_new u = record u { udev_refs = u.udev_refs + 1 }

-- `given` is whether the pointer is not NULL. A subtraction on ℕ stops at 0, as the test does.
unfoldable pub udev_ref : Bool → Udev → Udev
udev_ref given u = if given then record u { udev_refs = u.udev_refs + 1 } else u

unfoldable pub udev_unref : Bool → Udev → Udev
udev_unref given u = if given then record u { udev_refs = u.udev_refs - 1 } else u

unfoldable pub refs : Device → Udev → ℕ
refs event_dev u = u.event_refs
refs joy_dev u = u.joy_refs
refs parent_dev u = u.parent_refs

unfoldable pub device_ref : Option Device → Udev → Udev
device_ref none u = u
device_ref (some event_dev) u = record u { event_refs = u.event_refs + 1 }
device_ref (some joy_dev) u = record u { joy_refs = u.joy_refs + 1 }
device_ref (some parent_dev) u = record u { parent_refs = u.parent_refs + 1 }

unfoldable pub device_unref : Option Device → Udev → Udev
device_unref none u = u
device_unref (some event_dev) u = record u { event_refs = u.event_refs - 1 }
device_unref (some joy_dev) u = record u { joy_refs = u.joy_refs - 1 }
device_unref (some parent_dev) u = record u { parent_refs = u.parent_refs - 1 }

unfoldable pub new_from_syspath : Environment → Option (List ℕ) → Udev → Option Device × Udev
new_from_syspath env path u =
    let d = device_for_syspath path in
    if udev_backend_enabled env then (d, device_ref d u) else (none, u)

unfoldable pub new_from_devnum : Environment → Udev → Option Device × Udev
new_from_devnum env u =
    if udev_backend_enabled env then (some event_dev, device_ref (some event_dev) u) else (none, u)

unfoldable pub get_devnode : Option Device → Option (List ℕ)
get_devnode none = none
get_devnode (some event_dev) = some fake_devnode
get_devnode (some joy_dev) = some fake_joydev_node
get_devnode (some parent_dev) = none

unfoldable pub get_syspath : Option Device → Option (List ℕ)
get_syspath none = none
get_syspath (some event_dev) = some fake_syspath
get_syspath (some joy_dev) = some fake_joydev_syspath
get_syspath (some parent_dev) = some fake_parent_syspath

unfoldable pub get_sysname : Option Device → Option (List ℕ)
get_sysname none = none
get_sysname (some event_dev) = some (codes "event99")
get_sysname (some joy_dev) = some (codes "js99")
get_sysname (some parent_dev) = some (codes "input99")

unfoldable pub get_subsystem : Option Device → Option (List ℕ)
get_subsystem none = none
get_subsystem (some d) = some (codes "input")

unfoldable pub get_parent : Option Device → Option Device
get_parent none = none
get_parent (some event_dev) = some parent_dev
get_parent (some joy_dev) = some parent_dev
get_parent (some parent_dev) = none

unfoldable pub get_parent_with_subsystem_devtype : Option Device → Option (List ℕ) → Option Device
get_parent_with_subsystem_devtype d subsystem =
    if text subsystem (codes "input") then get_parent d else none

abbrev pub vendor_text : Environment → Udev → List ℕ
vendor_text env u = if dinput_mode env u then codes "1209" else u.vendor_string

abbrev pub product_text : Environment → Udev → List ℕ
product_text env u = if dinput_mode env u then codes "0001" else u.product_string

abbrev pub property_of : Environment → Udev → Device → Option (List ℕ) → Option (List ℕ)
property_of env u d key =
    if text key (codes "ID_INPUT_JOYSTICK")
    then some (codes "1")
    else if text key (codes "ID_INPUT")
    then some (codes "1")
    else if text key (codes "DEVNAME")
    then get_devnode (some d)
    else if text key (codes "SUBSYSTEM")
    then some (codes "input")
    else if text key (codes "NAME")
    then some (device_name env u)
    else if text key (codes "ID_VENDOR_ID")
    then some (vendor_text env u)
    else if text key (codes "ID_MODEL_ID")
    then some (product_text env u)
    else if text key (codes "ID_REVISION")
    then some (codes "0114")
    else none

-- A NULL key equals no text, so it has no value here either.
unfoldable pub get_property_value :
    Environment → Udev → Option Device → Option (List ℕ) → Option (List ℕ)
get_property_value env u none key = none
get_property_value env u (some d) key = property_of env u d key

unfoldable pub get_sysattr_value :
    Environment → Udev → Option Device → Option (List ℕ) → Option (List ℕ)
get_sysattr_value env u none key = none
get_sysattr_value env u (some d) key =
    if text key (codes "id/vendor")
    then some (vendor_text env u)
    else if text key (codes "id/product")
    then some (product_text env u)
    else if text key (codes "id/version")
    then some (codes "0114")
    else if text key (codes "name")
    then some (device_name env u)
    else none

abbrev pub action_of : Device → Udev → ℕ
action_of event_dev u = u.event_action
action_of joy_dev u = 0
action_of parent_dev u = 0

unfoldable pub get_action : Option Device → Udev → Option (List ℕ)
get_action none u = none
get_action (some d) u = some (if action_of d u == 2 then codes "remove" else codes "add")
