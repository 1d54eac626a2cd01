-- ===== src/Gamepad/Hotplug.antt =====
-- The two streams of src/termux_gamepad.c: `copy_descriptor`, `descriptor_equal`,
-- `close_event_stream`, `open_event_stream`, `apply_hotplug`, `open_monitor` and
-- `termux_gamepad_refresh`.
use termux_gamepad.Prelude.{
  ℕ, ◌-◌, Bool, true, false, not, ◌&&◌, ◌||◌, List, [], ◌∷◌, ◌++◌, ℤ, pos, negsuc, ◌==◌, eq_ℤ,
  is_nonneg, if◌then◌else◌, test_bit, length, take,
}
use termux_gamepad.Wire.{
  DeviceDescriptor, HotplugMessage, device_magic, hotplug_magic, control_version,
  control_query_descriptor, control_monitor, device_descriptor_size, hotplug_message_size,
  decode_descriptor, decode_hotplug, fill_name,
}
use termux_gamepad.Wire.Text.{strncmp_eq}
use termux_gamepad.Gamepad.Net.{
  Dial, RecvAnswer, got, recv_interrupted, recv_again, recv_fault, connect_socket, send_command,
  receive_all, minus, enodev, eproto,
}
use termux_gamepad.Gamepad.State.{
  Gamepad, Descriptor, reset_state, abi_version, descriptor_size, next_dial, later_dials,
}

-- `strncpy` of 63 bytes into a cleared name leaves what `fill_name` says.
unfoldable pub copy_descriptor : DeviceDescriptor → Descriptor
copy_descriptor d = record {
  abi_version = abi_version;
  struct_size = descriptor_size;
  present = d.present;
  capabilities = if test_bit d.capabilities 0 then 3 else 0;
  input_mode = d.input_mode;
  vendor_id = d.vendor_id;
  product_id = d.product_id;
  device_id = d.device_id;
  name = fill_name d.name;
}

unfoldable pub descriptor_equal : Descriptor → Descriptor → Bool
descriptor_equal a b =
    (a.present == b.present)
    && (a.capabilities == b.capabilities)
    && (a.input_mode == b.input_mode)
    && (a.vendor_id == b.vendor_id)
    && (a.product_id == b.product_id)
    && eq_ℤ a.device_id b.device_id
    && strncmp_eq 64 a.name b.name

abbrev pub log_closed : List ℤ → Gamepad → Gamepad
log_closed fds g = record g { closed = g.closed ++ fds }

abbrev pub log_wire : ℤ → List ℕ → Gamepad → Gamepad
log_wire fd bytes g = record g { wire = g.wire ++ ((fd, bytes) ∷ []) }

unfoldable pub close_event_stream : Gamepad → Gamepad
close_event_stream g =
    let g' = if is_nonneg g.event_fd then log_closed (g.event_fd ∷ []) g else g in
    record g' { event_fd = negsuc 0; event_buffer = []; state = reset_state }

-- A socket that is connected, the command sent on it, and the reply of `size` bytes.
pub record Answered : Type 0 where
  pub fd : ℤ
  pub status : ℤ
  pub reply : List ℕ
  pub gamepad : Gamepad

-- The beginning that `open_event_stream` and `open_monitor` share; `fd` is negative, and the
-- status, where no socket is connected.
unfoldable pub ask_bridge : ℕ → ℕ → Dial → Gamepad → Answered
ask_bridge command size dial g =
    let (fd, closed) = connect_socket g.socket_path dial.outcome in
    let (sent_status, sent) = send_command dial.sends command 0 0 0 in
    let (status, reply) = receive_all dial.recvs size in
    let g' = log_closed closed g in
    if not (is_nonneg fd)
    then record { fd = fd; status = fd; reply = []; gamepad = g' }
    else if eq_ℤ sent_status (pos 0)
    then record { fd = fd; status = status; reply = reply; gamepad = log_wire fd sent g' }
    else record { fd = fd; status = sent_status; reply = []; gamepad = log_wire fd sent g' }

-- The attempt is used up, whatever comes of it.
abbrev pub dialled : Gamepad → Gamepad
dialled g = record g { dials = later_dials g.dials }

abbrev pub is_served : DeviceDescriptor → Bool
is_served d = (d.magic == device_magic) && (d.version == control_version) && not (d.present == 0)

unfoldable pub open_event_stream : Gamepad → ℤ × Gamepad
open_event_stream g =
    let dial = next_dial g.dials in
    let a = ask_bridge control_query_descriptor device_descriptor_size dial (dialled g) in
    let hung_up = log_closed (a.fd ∷ []) a.gamepad in
    if not (is_nonneg a.fd)
    then (a.fd, a.gamepad)
    else if not (is_nonneg a.status)
    then (a.status, hung_up)
    else if not (is_served (decode_descriptor a.reply))
    then (minus enodev, hung_up)
    else if not (is_nonneg dial.nonblocking)
    then (dial.nonblocking, hung_up)
    else (pos 0, record (close_event_stream a.gamepad) { event_fd = a.fd })

unfoldable pub apply_hotplug : HotplugMessage → Gamepad → ℤ × Gamepad
apply_hotplug m g =
    let d = copy_descriptor m.descriptor in
    let g' = close_event_stream (record g { descriptor = d }) in
    if not ((m.magic == hotplug_magic) && (m.version == control_version))
    then (minus eproto, g)
    else if descriptor_equal g.descriptor d
    then (pos 0, g)
    else (pos 1, if d.present == 0 then g' else (open_event_stream g').1)

unfoldable pub open_monitor : Gamepad → ℤ × Gamepad
open_monitor g =
    let dial = next_dial g.dials in
    let a = ask_bridge control_monitor hotplug_message_size dial (dialled g) in
    let hung_up = log_closed (a.fd ∷ []) a.gamepad in
    if not (is_nonneg a.fd)
    then (a.fd, a.gamepad)
    else if not (is_nonneg a.status)
    then (a.status, hung_up)
    else if not (is_nonneg dial.nonblocking)
    then (dial.nonblocking, hung_up)
    else apply_hotplug (decode_hotplug a.reply)
        (record a.gamepad { monitor_fd = a.fd; monitor_buffer = [] })

-- The bridge is gone; `status` is what is returned where there was no gamepad.
unfoldable pub lose_monitor : ℤ → Gamepad → ℤ × Gamepad
lose_monitor status g =
    let g' = record (log_closed (g.monitor_fd ∷ []) g) {
      monitor_fd = negsuc 0;
      monitor_buffer = [];
    } in
    let d = record g'.descriptor { present = 0; device_id = negsuc 0 } in
    if g.descriptor.present == 0
    then (status, g')
    else (pos 1, close_event_stream (record g' { descriptor = d }))

abbrev pub changed_to_int : Bool → ℤ
changed_to_int true = pos 1
changed_to_int false = pos 0

-- Bytes that arrive, and the status of a message that they complete (0 if they do not).
unfoldable pub monitor_bytes : List ℕ → Gamepad → ℤ × Gamepad
monitor_bytes bytes g =
    let buffer = g.monitor_buffer ++ take (hotplug_message_size - length g.monitor_buffer) bytes in
    let (applied, g') =
      apply_hotplug (decode_hotplug buffer) (record g { monitor_buffer = buffer }) in
    if length buffer == hotplug_message_size
    then (applied, record g' { monitor_buffer = [] })
    else (pos 0, record g { monitor_buffer = buffer })

-- After the last answer `recv` would block.
unfoldable pub monitor_loop : List RecvAnswer → Bool → Gamepad → ℤ × Gamepad
monitor_loop [] changed g = (changed_to_int changed, g)
monitor_loop (got [] ∷ rest) changed g = lose_monitor (changed_to_int changed) g
monitor_loop (got (x ∷ bytes) ∷ rest) changed g =
    let (applied, g') = monitor_bytes (x ∷ bytes) g in
    let later = monitor_loop rest (changed || not (eq_ℤ applied (pos 0))) g' in
    if is_nonneg applied then later else (applied, g')
monitor_loop (recv_interrupted ∷ rest) changed g = monitor_loop rest changed g
monitor_loop (recv_again ∷ rest) changed g = (changed_to_int changed, g)
monitor_loop (recv_fault e ∷ rest) changed g = lose_monitor (minus e) g

-- `termux_gamepad_refresh` on a handle; `answers` are those of `recv` on the monitor.
unfoldable pub refresh : List RecvAnswer → Gamepad → ℤ × Gamepad
refresh answers g = if is_nonneg g.monitor_fd then monitor_loop answers false g else open_monitor g
