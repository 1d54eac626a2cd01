-- ===== src/Udev.antt =====
-- src/libudev_fake.c: the library that stands in for libudev. Its globals, and how it learns of the
-- gamepad from the bridge.
pub mod Devices
pub mod Listing
pub mod Monitor
pub mod Hex
pub mod Asking
pub mod Identity
pub mod Plugging
use Prim.Native.String.{String}
use text.Mathlib.Text.{◌==◌ as str_eq}
use termux_gamepad.Prelude.{
  ℕ, zero, suc, ◌/◌, ◌%◌, Bool, true, false, not, ◌&&◌, List, [], ◌∷◌, ◌++◌, Option, none, some, ℤ,
  pos, negsuc, ltb, ◌==◌, is_nonneg, if◌then◌else◌, length, take, get_or,
}
use termux_gamepad.Wire.{
  DeviceDescriptor, ControlMessage, control_magic, control_version, control_query_descriptor,
  control_message_size, device_magic, device_descriptor_size, encode_control, decode_descriptor,
  input_mode_dinput,
}
use termux_gamepad.Wire.Text.{head_or_nul}
use termux_gamepad.Common.{codes, strlen, socket_or_default, xinput_name, dinput_name}
use termux_gamepad.Gamepad.Net.{
  Outcome, no_socket, not_connected, connected, sun_path_size, command_message,
}
use termux_gamepad.Gamepad.Api.{get_backend}
use termux_gamepad.Preload.Setup.{Environment, serves, mode_of, override_or}

-- `g_event_dev`, `g_joy_dev` and `g_parent_dev`: a pointer to one of them, which also is its kind.
pub data Device : Type 0 where
  event_dev joy_dev parent_dev : Device

-- The globals. `event_action` is the `action` of `g_event_dev`; the others' is never written.
-- `monitor_fd` is `pipefd[0]`; `pipefd[1]` is -1 wherever a monitor is in use. `closed` and `wire`
-- log the descriptors closed and the bytes that each took.
pub record Udev : Type 0 where
  pub descriptor : DeviceDescriptor
  pub vendor_string : List ℕ
  pub product_string : List ℕ
  pub udev_refs : ℕ
  pub event_refs : ℕ
  pub joy_refs : ℕ
  pub parent_refs : ℕ
  pub event_action : ℕ
  pub enumerate_refs : ℕ
  pub matched_input : Bool
  pub monitor_refs : ℕ
  pub monitor_fd : ℤ
  pub closed : List ℤ
  pub wire : List (ℤ × List ℕ)

unfoldable pub udev_backend_enabled : Environment → Bool
unfolding get_backend
udev_backend_enabled env = serves (get_backend env.backend)

abbrev pub hex_digit : ℕ → ℕ
hex_digit d = get_or (codes "0123456789abcdef") d 0

-- The loop from the last of `n` digits to the first.
unfoldable pub hex_digits : ℕ → ℕ → List ℕ → List ℕ
hex_digits zero value output = output
hex_digits (suc n) value output = hex_digits n (value / 16) (hex_digit (value % 16) ∷ output)

unfoldable pub format_hex4 : ℕ → List ℕ
format_hex4 value = hex_digits 4 value (0 ∷ [])

abbrev pub absent : DeviceDescriptor → DeviceDescriptor
absent d = record d { present = 0 }

unfoldable pub update_descriptor : Environment → DeviceDescriptor → Udev → Udev
update_descriptor env d u =
    if udev_backend_enabled env
    then record u {
      descriptor = d;
      vendor_string = format_hex4 d.vendor_id;
      product_string = format_hex4 d.product_id;
    }
    else record u { descriptor = absent u.descriptor }

-- How an attempt to reach the bridge goes: `socket` and `connect`, how many bytes `send` takes, and
-- what `recv` with MSG_WAITALL gives.
pub record Contact : Type 0 where
  pub outcome : Outcome
  pub sent : ℕ
  pub reply : List ℕ

abbrev pub log_closed : ℤ → Udev → Udev
log_closed fd u = record u { closed = u.closed ++ (fd ∷ []) }

abbrev pub send_request : ℕ → ℤ → Contact → Udev → ℤ × Udev
send_request command fd c u =
    let bytes = take c.sent (encode_control (command_message command 0 0 0)) in
    let u' = record u { wire = u.wire ++ ((fd, bytes) ∷ []) } in
    if c.sent == control_message_size then (fd, u') else (negsuc 0, log_closed fd u')

unfoldable pub connect_bridge : Environment → ℕ → Contact → Udev → ℤ × Udev
connect_bridge env command c u =
    if not (udev_backend_enabled env)
    then (negsuc 0, u)
    else if not (ltb (strlen (socket_or_default env.socket)) sun_path_size)
    then (negsuc 0, u)
    else elim c.outcome [
      | no_socket e ↦ (negsuc 0, u)
      | not_connected fd e ↦ (negsuc 0, log_closed (pos fd) u)
      | connected fd ↦ send_request command (pos fd) c u
    ]

abbrev pub status_of : DeviceDescriptor → ℤ
status_of d = if d.present == 0 then negsuc 0 else pos 0

abbrev pub is_known : DeviceDescriptor → Bool
is_known d = (d.magic == device_magic) && (d.version == control_version)

unfoldable pub refresh_descriptor : Environment → Contact → Udev → ℤ × Udev
refresh_descriptor env c u =
    let (fd, u1) = connect_bridge env control_query_descriptor c u in
    let received = take device_descriptor_size c.reply in
    let d = decode_descriptor received in
    let u2 = log_closed fd u1 in
    if not (is_nonneg fd)
    then (negsuc 0, u1)
    else if (length received == device_descriptor_size) && is_known d
    then (status_of d, update_descriptor env d u2)
    else (negsuc 0, u2)

unfoldable pub dinput_mode : Environment → Udev → Bool
dinput_mode env u = override_or (mode_of env.mode) (u.descriptor.input_mode == input_mode_dinput)

unfoldable pub device_name : Environment → Udev → List ℕ
device_name env u =
    if head_or_nul u.descriptor.name == 0
    then (if dinput_mode env u then dinput_name else xinput_name)
    else u.descriptor.name
