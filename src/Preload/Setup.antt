-- ===== src/Preload/Setup.antt =====
-- What src/evdev_preload.c takes from its environment, and what depends on the DInput mode.
use Prim.Native.String.{String}
use text.Mathlib.Text.{◌==◌ as str_eq}
use termux_gamepad.Prelude.{ℕ, Bool, true, false, List, Option, none, some, ◌==◌, if◌then◌else◌}
use termux_gamepad.Wire.{input_mode_dinput}
use termux_gamepad.Wire.Text.{head_or_nul}
use termux_gamepad.Common.{xinput_name, dinput_name}
use termux_gamepad.Gamepad.Api.{Backend, auto, udev, sdl, off, get_backend}
use termux_gamepad.Preload.Fds.{FakeFd}

-- TERMUX_GAMEPAD_BACKEND, TERMUX_GAMEPAD_MODE and TERMUX_GAMEPAD_EVDEV_SOCKET.
pub record Environment : Type 0 where
  pub backend : Option String
  pub mode : Option String
  pub socket : Option (List ℕ)

abbrev pub serves : Backend → Bool
serves auto = true
serves udev = true
serves sdl = false
serves off = false

unfoldable pub backend_enabled : Environment → Bool
unfolding get_backend
backend_enabled env = serves (get_backend env.backend)

abbrev pub mode_of : Option String → Option Bool
mode_of none = none
mode_of (some mode) =
    if str_eq mode "dinput" then some true else if str_eq mode "xinput" then some false else none

-- `mode_override`, as `tg_init` sets it; `none` for -1.
unfoldable pub mode_override : Environment → Option Bool
mode_override env = mode_of env.mode

abbrev pub override_or : Option Bool → Bool → Bool
override_or none b = b
override_or (some override) b = override

unfoldable pub is_dinput : Environment → FakeFd → Bool
is_dinput env f = override_or (mode_override env) (f.descriptor.input_mode == input_mode_dinput)

unfoldable pub device_name : Environment → FakeFd → List ℕ
device_name env f =
    if head_or_nul f.descriptor.name == 0
    then (if is_dinput env f then dinput_name else xinput_name)
    else f.descriptor.name

-- BTN_SOUTH, BTN_EAST, BTN_WEST, BTN_NORTH, BTN_TL, BTN_TR, BTN_SELECT, BTN_START, BTN_MODE,
-- BTN_THUMBL, BTN_THUMBR, BTN_C become BTN_TRIGGER to BTN_BASE6.
unfoldable pub dinput_button_code : ℕ → ℕ
dinput_button_code code =
    if code == 0x130
    then 0x120
    else if code == 0x131
    then 0x121
    else if code == 0x134
    then 0x122
    else if code == 0x133
    then 0x123
    else if code == 0x136
    then 0x124
    else if code == 0x137
    then 0x125
    else if code == 0x13a
    then 0x126
    else if code == 0x13b
    then 0x127
    else if code == 0x13c
    then 0x128
    else if code == 0x13d
    then 0x129
    else if code == 0x13e
    then 0x12a
    else if code == 0x132
    then 0x12b
    else code
