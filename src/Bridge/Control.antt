-- ===== src/Bridge/Control.antt =====
-- `receive_control_messages` of src/lorie_evdev_bridge.c.
pub mod Pending
pub mod Drain
use termux_gamepad.Prelude.{
  ℕ, zero, suc, ◌+◌, ◌-◌, ◌%◌, Bool, true, false, not, ◌&&◌, [], ◌∷◌, ◌++◌, ltb, ◌==◌,
  if◌then◌else◌, length, take, drop, u64_mod,
}
use termux_gamepad.Wire.{
  ControlMessage, control_magic, control_version, control_rumble, control_stop_rumble,
  control_query_descriptor, control_monitor, control_message_size, decode_control, hotplug_add,
  hotplug_remove, encode_descriptor, encode_hotplug,
}
use termux_gamepad.Bridge.State.{
  Bridge, World, RecvResult, got, recv_again, recv_interrupted, recv_failed, client_at, with_client,
  control_buffer_size, events, monitor,
}
use termux_gamepad.Bridge.Os.{monotonic_ms, in_world}
use termux_gamepad.Bridge.Rumble.{update_rumble, without_rumble}
use termux_gamepad.Bridge.Queue.{queue_bytes}
use termux_gamepad.Bridge.Input.{send_snapshot}
use termux_gamepad.Bridge.Device.{hotplug_message}

-- The next answer of `recv`.
unfoldable pub recv : World → RecvResult × World
recv w = elim w.recvs [ [] ↦ (recv_again, w) | r ∷ rest ↦ (r, record w { recvs = rest }) ]

abbrev pub default_duration : ℕ
default_duration = 2500

-- `false` for the status -1, here and below.
unfoldable pub start_rumble : ℕ → ControlMessage → Bridge → Bool × Bridge
start_rumble i m b =
    let (now, w) = monotonic_ms b.world in
    let duration = if m.duration_ms == 0 then default_duration else m.duration_ms in
    let c = record (client_at b i) {
      rumble_low = m.low_frequency;
      rumble_high = m.high_frequency;
      rumble_expires_ms = (now + duration) % u64_mod;
    } in
    (true, update_rumble true (with_client (in_world b w) i c))

unfoldable pub stop_rumble : ℕ → Bridge → Bool × Bridge
stop_rumble i b = (true, update_rumble true (with_client b i (without_rumble (client_at b i))))

unfoldable pub query_descriptor : ℕ → Bridge → Bool × Bridge
query_descriptor i b =
    let b1 = with_client b i (record (client_at b i) { kind = events }) in
    let (success, b2) = queue_bytes i (encode_descriptor b1.descriptor) b1 in
    if not success
    then (false, b2)
    else if b2.descriptor.present == 0
    then (true, b2)
    else (true, send_snapshot i b2)

unfoldable pub start_monitor : ℕ → Bridge → Bool × Bridge
start_monitor i b =
    let b1 = with_client b i (record (client_at b i) { kind = monitor }) in
    let action = if b.descriptor.present == 0 then hotplug_remove else hotplug_add in
    queue_bytes i (encode_hotplug (hotplug_message action b.descriptor)) b1

unfoldable pub handle_message : ℕ → ControlMessage → Bridge → Bool × Bridge
handle_message i m b =
    if m.command == control_rumble
    then start_rumble i m b
    else if m.command == control_stop_rumble
    then stop_rumble i b
    else if m.command == control_query_descriptor
    then query_descriptor i b
    else if m.command == control_monitor
    then start_monitor i b
    else (false, b)

abbrev pub is_valid_control : ControlMessage → Bool
is_valid_control m = (m.magic == control_magic) && (m.version == control_version)

-- The message at the front is taken off the buffer before it is handled.
unfoldable pub take_message : ℕ → Bridge → Bool × Bridge
take_message i b =
    let c = client_at b i in
    let m = decode_control c.control in
    if is_valid_control m
    then handle_message i m
        (with_client b i (record c { control = drop control_message_size c.control }))
    else (false, b)

-- The `while` loop; a full buffer holds sixteen messages.
unfoldable pub control_loop : ℕ → ℕ → Bridge → Bool × Bridge
control_loop zero i b = (true, b)
control_loop (suc fuel) i b =
    if ltb (length (client_at b i).control) control_message_size
    then (true, b)
    else let (success, b') = take_message i b in
      elim success [ true ↦ control_loop fuel i b' | false ↦ (false, b') ]

abbrev pub control_fuel : ℕ
control_fuel = 17

-- What follows the call of `recv`, which gives no more bytes than the buffer has room for.
unfoldable pub receive_answer : RecvResult → ℕ → Bridge → Bool × Bridge
receive_answer recv_again i b = (true, b)
receive_answer recv_interrupted i b = (true, b)
receive_answer recv_failed i b = (false, b)
receive_answer (got []) i b = (false, b)
receive_answer (got (x ∷ bytes)) i b =
    let c = client_at b i in
    let room = control_buffer_size - length c.control in
    control_loop control_fuel i
      (with_client b i (record c { control = c.control ++ take room (x ∷ bytes) }))

unfoldable pub receive_control_messages : ℕ → Bridge → Bool × Bridge
receive_control_messages i b =
    let (answer, w) = recv b.world in
    if length (client_at b i).control == control_buffer_size
    then (false, b)
    else receive_answer answer i (in_world b w)
