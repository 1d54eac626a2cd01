-- ===== src/Udev/Listing.antt =====
-- The enumeration of src/libudev_fake.c. There is one enumerator and one entry of a list; `given`
-- is whether the pointer to it is not NULL.
use termux_gamepad.Prelude.{
  ℕ, ◌+◌, ◌-◌, Bool, true, false, not, ◌&&◌, List, Option, none, some, ℤ, pos, negsuc, ◌==◌,
  if◌then◌else◌,
}
use termux_gamepad.Common.{codes, fake_syspath}
use termux_gamepad.Preload.Setup.{Environment}
use termux_gamepad.Udev.{Udev, Contact, udev_backend_enabled, refresh_descriptor, absent}
use termux_gamepad.Udev.Devices.{text}

unfoldable pub enumerate_new : Udev → Udev
enumerate_new u = record u { enumerate_refs = 1; matched_input = false }

unfoldable pub enumerate_ref : Bool → Udev → Udev
enumerate_ref given u = if given then record u { enumerate_refs = u.enumerate_refs + 1 } else u

unfoldable pub enumerate_unref : Bool → Udev → Udev
enumerate_unref given u = if given then record u { enumerate_refs = u.enumerate_refs - 1 } else u

unfoldable pub add_match_subsystem : Bool → Option (List ℕ) → Udev → ℤ × Udev
add_match_subsystem given subsystem u =
    if given
    then (pos 0, record u { matched_input = text subsystem (codes "input") })
    else (negsuc 0, u)

unfoldable pub add_match_property : Bool → Option (List ℕ) → Option (List ℕ) → Udev → ℤ × Udev
add_match_property given key value u =
    if not given
    then (negsuc 0, u)
    else if text key (codes "ID_INPUT_JOYSTICK") && text value (codes "1")
    then (pos 0, record u { matched_input = true })
    else (pos 0, u)

unfoldable pub scan_devices : Environment → Bool → Contact → Udev → ℤ × Udev
scan_devices env given c u =
    if not given
    then (negsuc 0, u)
    else if udev_backend_enabled env
    then (pos 0, (refresh_descriptor env c u).1)
    else (pos 0, record u { descriptor = absent u.descriptor })

-- Whether the result is the entry, which has the index 0.
unfoldable pub get_list_entry : Environment → Bool → Udev → Bool
get_list_entry env given u =
    udev_backend_enabled env && given && u.matched_input && not (u.descriptor.present == 0)

-- There is never a second entry.
unfoldable pub list_entry_get_next : Bool → Bool
list_entry_get_next given = false

unfoldable pub list_entry_get_name : Bool → Option (List ℕ)
list_entry_get_name given = if given then some fake_syspath else none
