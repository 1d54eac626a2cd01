-- ===== src/Gamepad/Events.antt =====
-- `button_index` and `process_event` of src/termux_gamepad.c, and the loop that feeds it.
use termux_gamepad.Prelude.{
  ℕ, ◌&&◌, ◌+◌, ◌-◌, ◌%◌, List, [], ◌∷◌, ◌++◌, Option, none, some, ℤ, pos, ◌-ℤ◌, ◌*ℤ◌, ◌==◌, eq_ℤ,
  if◌then◌else◌, set, set_bit, clear_bit, cast_s16, cast_s8, length, take, u32_mod,
}
use termux_gamepad.Wire.{
  InputEvent, decode_event, input_event_size, ev_syn, ev_key, ev_abs, syn_report,
}
use termux_gamepad.Gamepad.Net.{RecvAnswer, got, recv_interrupted, recv_again, recv_fault, minus}
use termux_gamepad.Gamepad.State.{PadState}

-- `none` for -1. BTN_SOUTH, BTN_EAST, BTN_NORTH, BTN_WEST, BTN_TL, BTN_TR, BTN_SELECT, BTN_START,
-- BTN_THUMBL, BTN_THUMBR, BTN_MODE, BTN_C
unfoldable pub button_index : ℕ → Option ℕ
button_index code =
    if code == 0x130
    then some 0
    else if code == 0x131
    then some 1
    else if code == 0x133
    then some 2
    else if code == 0x134
    then some 3
    else if code == 0x136
    then some 4
    else if code == 0x137
    then some 5
    else if code == 0x13a
    then some 6
    else if code == 0x13b
    then some 7
    else if code == 0x13d
    then some 8
    else if code == 0x13e
    then some 9
    else if code == 0x13c
    then some 10
    else if code == 0x132
    then some 11
    else none

-- `(int16_t)(value * 257 - 32768)`
unfoldable pub trigger_value : ℤ → ℤ
unfolding ◌-ℤ◌ ◌*ℤ◌
trigger_value value = cast_s16 (value *ℤ pos 257 -ℤ pos 32768)

abbrev pub with_axis : PadState → ℕ → ℤ → PadState
with_axis s axis value = record s { axes = set s.axes axis value }

-- ABS_X, ABS_Y, ABS_RX, ABS_RY, ABS_Z, ABS_RZ, ABS_HAT0X, ABS_HAT0Y
unfoldable pub process_abs : PadState → ℕ → ℤ → PadState
process_abs s code value =
    if code == 0x00
    then with_axis s 0 (cast_s16 value)
    else if code == 0x01
    then with_axis s 1 (cast_s16 value)
    else if code == 0x03
    then with_axis s 2 (cast_s16 value)
    else if code == 0x04
    then with_axis s 3 (cast_s16 value)
    else if code == 0x02
    then with_axis s 4 (trigger_value value)
    else if code == 0x05
    then with_axis s 5 (trigger_value value)
    else if code == 0x10
    then record s { hat_x = cast_s8 value }
    else if code == 0x11
    then record s { hat_y = cast_s8 value }
    else s

abbrev pub press : Option ℕ → ℤ → PadState → PadState
press none value s = s
press (some index) value s = record s {
  buttons = if eq_ℤ value (pos 0) then clear_bit s.buttons index else set_bit s.buttons index;
}

-- The state, and what is added to `*reports`.
unfoldable pub process_event : PadState → InputEvent → PadState × ℕ
process_event s e =
    if e.type == ev_abs
    then (process_abs s e.code e.value, 0)
    else if e.type == ev_key
    then (press (button_index e.code) e.value s, 0)
    else if (e.type == ev_syn) && (e.code == syn_report)
    then (record s { packet_number = (s.packet_number + 1) % u32_mod }, 1)
    else (s, 0)

-- The variables of the loop of `termux_gamepad_update`.
pub record Intake : Type 0 where
  pub state : PadState
  pub buffer : List ℕ
  pub reports : ℕ

-- Bytes that arrive; a full buffer is an event.
unfoldable pub take_bytes : List ℕ → Intake → Intake
take_bytes bytes q =
    let buffer = q.buffer ++ take (input_event_size - length q.buffer) bytes in
    let (state, reports) = process_event q.state (decode_event buffer) in
    if length buffer == input_event_size
    then record { state = state; buffer = []; reports = q.reports + reports }
    else record q { buffer = buffer }

-- `none` where the socket has nothing more; the error, or 0 at the end of the stream, where the
-- stream is to be closed. After the last answer `recv` would block.
unfoldable pub event_loop : List RecvAnswer → Intake → Option ℤ × Intake
event_loop [] q = (none, q)
event_loop (got [] ∷ rest) q = (some (pos 0), q)
event_loop (got (x ∷ bytes) ∷ rest) q = event_loop rest (take_bytes (x ∷ bytes) q)
event_loop (recv_interrupted ∷ rest) q = event_loop rest q
event_loop (recv_again ∷ rest) q = (none, q)
event_loop (recv_fault e ∷ rest) q = (some (minus e), q)
