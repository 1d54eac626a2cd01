-- ===== src/Udev/Identity.antt =====
-- What src/libudev_fake.c says of a device, against what src/evdev_preload.c says of it.
use termux_gamepad.Prelude.{
  ℕ, ◌≡◌, refl, arith, Bool, true, List, some, ℤ, drop, le_bytes, read_le, Bool-cases, inl, inr,
  ◌==◌,
}
use termux_gamepad.Wire.{DeviceDescriptor, input_mode_dinput}
use termux_gamepad.Common.{codes, same_text}
use termux_gamepad.Preload.Setup.{Environment, is_dinput, mode_override, override_or, mode_of}
use termux_gamepad.Preload.Setup
use termux_gamepad.Preload.Opening.Served.{new_fake}
use termux_gamepad.Preload.Reports.{input_id}
use termux_gamepad.Udev.{
  Device, Udev, udev_backend_enabled, update_descriptor, dinput_mode, device_name, format_hex4,
}
use termux_gamepad.Udev.Devices.{get_property_value}
use termux_gamepad.Udev.Hex.{parse_hex, parse_hex-format_hex4}

-- The 16-bit number at an offset.
abbrev pub number_at : ℕ → List ℕ → ℕ
number_at offset bytes = (read_le 2 (drop offset bytes)).0

-- A property's text reads as the number.
abbrev pub Says : Environment → Udev → Device → List ℕ → ℕ → Type 0
Says env u dev key n =
    (t : List ℕ) × (get_property_value env u (some dev) (some key) ≡ some t) × (parse_hex 0 t ≡ n)

-- With a descriptor from the bridge, the vendor, the product and the name that libudev's stand-in
-- gives of any of its devices are those that the preload gives of a descriptor that it serves, in
-- either mode.
pub identities_agree :
    (env : Environment) (d : DeviceDescriptor) (fd : ℤ) (joydev : Bool) (u : Udev) (dev : Device)
    → udev_backend_enabled env ≡ true
    → let u' = update_descriptor env d u in
      let f = new_fake fd joydev d in
      Says env u' dev (codes "ID_VENDOR_ID") (number_at 2 (input_id env f))
      × Says env u' dev (codes "ID_MODEL_ID") (number_at 4 (input_id env f))
      × (get_property_value env u' (some dev) (some (codes "NAME"))
          ≡ some (Setup.device_name env f))
unfolding update_descriptor get_property_value same_text input_id is_dinput dinput_mode device_name
    Setup.device_name mode_override le_bytes read_le parse_hex
identities_agree env d fd joydev u dev enabled =
    let vendor = (parse_hex-format_hex4 d.vendor_id).0 in
    let product = (parse_hex-format_hex4 d.product_id).0 in
    elim (Bool-cases (override_or (mode_of env.mode) (d.input_mode == input_mode_dinput))) [
      | inl dinput ↦
          rw (enabled, dinput) ((codes "1209", refl, refl), (codes "0001", refl, refl), refl)
      | inr xinput ↦
          rw (enabled, xinput)
            (
              (format_hex4 d.vendor_id, refl, omega (arith, vendor)),
              (format_hex4 d.product_id, refl, omega (arith, product)),
              refl,
            )
    ]
