-- ===== src/Gamepad/Api.antt =====
-- The exported functions of src/termux_gamepad.c. A NULL handle is `none`.
use Prim.Native.String.{String}
use text.Mathlib.Text.{◌==◌ as str_eq}
use termux_gamepad.Prelude.{
  ℕ, Bool, true, false, not, ◌&&◌, List, [], ◌∷◌, Option, none, some, ℤ, pos, negsuc, ltb, ◌==◌,
  is_nonneg, if◌then◌else◌, replicate, length,
}
use termux_gamepad.Wire.{control_rumble, control_stop_rumble}
use termux_gamepad.Common.{default_socket}
use termux_gamepad.Gamepad.Net.{
  Dial, SendAnswer, RecvAnswer, send_command, minus, einval, enodev, sun_path_size,
}
use termux_gamepad.Gamepad.State.{
  Gamepad, Descriptor, PadState, reset_state, abi_version, descriptor_size,
}
use termux_gamepad.Gamepad.Events.{Intake, event_loop}
use termux_gamepad.Gamepad.Hotplug.{
  close_event_stream, open_event_stream, open_monitor, refresh, log_closed, log_wire,
}

pub data Backend : Type 0 where
  auto udev sdl off : Backend

-- `value` is TERMUX_GAMEPAD_BACKEND.
unfoldable pub get_backend : Option String → Backend
get_backend none = auto
get_backend (some value) =
    if str_eq value ""
    then auto
    else if str_eq value "auto"
    then auto
    else if str_eq value "udev"
    then udev
    else if str_eq value "sdl"
    then sdl
    else if str_eq value "off"
    then off
    else auto

abbrev pub or_else : Option (List ℕ) → List ℕ → List ℕ
or_else none d = d
or_else (some []) d = d
or_else (some (x ∷ xs)) d = x ∷ xs

-- The argument, else TERMUX_GAMEPAD_EVDEV_SOCKET, else the default; empty counts as missing.
unfoldable pub choose_path : Option (List ℕ) → Option (List ℕ) → List ℕ
choose_path socket_path environment = or_else socket_path (or_else environment default_socket)

abbrev pub fresh : List ℕ → List Dial → Gamepad
fresh path dials = record {
  socket_path = path;
  monitor_fd = negsuc 0;
  event_fd = negsuc 0;
  descriptor = record {
    abi_version = abi_version;
    struct_size = descriptor_size;
    present = 0;
    capabilities = 0;
    input_mode = 0;
    vendor_id = 0;
    product_id = 0;
    device_id = negsuc 0;
    name = replicate 64 0;
  };
  state = reset_state;
  monitor_buffer = [];
  event_buffer = [];
  dials = dials;
  wire = [];
  closed = [];
}

-- `allocated` is whether `calloc` succeeds.
unfoldable pub create : Bool → Option (List ℕ) → Option (List ℕ) → List Dial → Option Gamepad
create allocated socket_path environment dials =
    let path = choose_path socket_path environment in
    if not allocated
    then none
    else if ltb (length path) sun_path_size
    then some (open_monitor (fresh path dials)).1
    else none

-- The handle's descriptors are closed, the event stream after a request to stop the motors.
unfoldable pub destroy : List SendAnswer → Gamepad → Gamepad
destroy answers g =
    let (status, sent) = send_command answers control_stop_rumble 0 0 0 in
    let g1 =
      if is_nonneg g.event_fd
      then log_closed (g.event_fd ∷ []) (log_wire g.event_fd sent g)
      else g in
    if is_nonneg g.monitor_fd then log_closed (g.monitor_fd ∷ []) g1 else g1

abbrev pub with_intake : Gamepad → Intake → Gamepad
with_intake g q = record g { state = q.state; event_buffer = q.buffer }

-- What `termux_gamepad_update` returns where the loop ends.
abbrev pub finish_update : Option ℤ × Intake → Gamepad → ℤ × Gamepad
finish_update (none, q) g = (pos q.reports, with_intake g q)
finish_update (some (pos n), q) g = (pos q.reports, close_event_stream (with_intake g q))
finish_update (some (negsuc n), q) g = (negsuc n, close_event_stream (with_intake g q))

-- `termux_gamepad_update` on a handle; the answers are those of `recv` on each stream.
unfoldable pub update : List RecvAnswer → List RecvAnswer → Gamepad → ℤ × Gamepad
update monitor_answers event_answers g =
    let (refreshed, g1) = refresh monitor_answers g in
    let g2 =
      if not (is_nonneg g1.event_fd) && not (g1.descriptor.present == 0)
      then (open_event_stream g1).1
      else g1 in
    let start : Intake = record { state = g2.state; buffer = g2.event_buffer; reports = 0 } in
    if is_nonneg g2.event_fd
    then finish_update (event_loop event_answers start) g2
    else if is_nonneg refreshed
    then (pos 0, g2)
    else (refreshed, g2)

abbrev pub on_handle : (Gamepad → ℤ × Gamepad) → ℕ → Option Gamepad → ℤ × Option Gamepad
on_handle f error none = (minus error, none)
on_handle f error (some g) = let (status, g') = f g in (status, some g')

unfoldable pub termux_gamepad_refresh : List RecvAnswer → Option Gamepad → ℤ × Option Gamepad
termux_gamepad_refresh answers = on_handle (refresh answers) einval

unfoldable pub termux_gamepad_update :
    List RecvAnswer → List RecvAnswer → Option Gamepad → ℤ × Option Gamepad
termux_gamepad_update monitor_answers event_answers =
    on_handle (update monitor_answers event_answers) einval

-- The status, and what is stored in the caller's variable; the Boolean is whether there is one, not
-- NULL.
unfoldable pub get_descriptor : Option Gamepad → Bool → ℤ × Option Descriptor
get_descriptor none given = (minus einval, none)
get_descriptor (some g) false = (minus einval, none)
get_descriptor (some g) true = (pos 0, some g.descriptor)

unfoldable pub get_state : Option Gamepad → Bool → ℤ × Option PadState
get_state none given = (minus einval, none)
get_state (some g) false = (minus einval, none)
get_state (some g) true = (pos 0, some g.state)

unfoldable pub get_fd : Option Gamepad → ℤ
get_fd none = negsuc 0
get_fd (some g) = g.event_fd

-- A command on the event stream.
abbrev pub send_on_stream : List SendAnswer → ℕ → ℕ → ℕ → ℕ → Gamepad → ℤ × Gamepad
send_on_stream answers command low high duration_ms g =
    let (status, sent) = send_command answers command low high duration_ms in
    if is_nonneg g.event_fd then (status, log_wire g.event_fd sent g) else (minus enodev, g)

unfoldable pub stop_rumble : List SendAnswer → Option Gamepad → ℤ × Option Gamepad
stop_rumble answers = on_handle (send_on_stream answers control_stop_rumble 0 0 0) enodev

unfoldable pub rumble : List SendAnswer → ℕ → ℕ → ℕ → Option Gamepad → ℤ × Option Gamepad
rumble answers low high duration_ms g =
    if low == 0 && high == 0
    then stop_rumble answers g
    else on_handle (send_on_stream answers control_rumble low high duration_ms) enodev g
