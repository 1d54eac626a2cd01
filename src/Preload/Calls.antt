-- ===== src/Preload/Calls.antt =====
-- `tg_send_control`, `write` and `close` of src/evdev_preload.c on the descriptors that it serves.
use termux_gamepad.Prelude.{
  ℕ, zero, suc, ◌*◌, ◌/◌, ◌%◌, Bool, true, false, not, List, [], ◌∷◌, ◌++◌, Option, none, some, ℤ,
  pos, negsuc, ltb_ℤ, pos_part, ◌==◌, if◌then◌else◌, length, take, drop, u16_mod, u32_mod,
}
use termux_gamepad.Wire.{
  InputEvent, ControlMessage, control_magic, control_version, control_rumble, control_stop_rumble,
  encode_control, control_message_size, decode_event, input_event_size, ev_ff,
}
use termux_gamepad.Preload.Fds.{FakeFd, find_fake_fd, del_fake_fd}
use termux_gamepad.Preload.Effects.{EffectSlot, effect_at, find_effect, clear_effects}

-- The globals, the coming answers of `send` (how many bytes it takes, 0 for an error; after the
-- last it takes none), and the bytes that each descriptor took.
pub record Shim : Type 0 where
  pub fakes : List FakeFd
  pub effects : List EffectSlot
  pub ff_gain : ℕ
  pub sends : List ℕ
  pub wire : List (ℤ × List ℕ)

abbrev pub next_send : List ℕ → ℕ
next_send [] = 0
next_send (n ∷ ns) = n

abbrev pub later_sends : List ℕ → List ℕ
later_sends [] = []
later_sends (n ∷ ns) = ns

abbrev pub control : ℕ → ℕ → ℕ → ℕ → ControlMessage
control command low high duration_ms = record {
  magic = control_magic;
  version = control_version;
  command = command;
  low_frequency = low;
  high_frequency = high;
  duration_ms = duration_ms;
}

-- `false` for the status -1.
unfoldable pub send_control : ℤ → ℕ → ℕ → ℕ → ℕ → Shim → Bool × Shim
send_control fd command low high duration_ms s =
    let sent = next_send s.sends in
    let bytes = take sent (encode_control (control command low high duration_ms)) in
    (
      sent == control_message_size,
      record s { sends = later_sends s.sends; wire = s.wire ++ ((fd, bytes) ∷ []) },
    )

-- FF_GAIN
abbrev pub ff_gain_code : ℕ
ff_gain_code = 0x60

abbrev pub clamp_gain : ℤ → ℕ
clamp_gain gain =
    if ltb_ℤ gain (pos 0) then 0 else if ltb_ℤ (pos 0xffff) gain then 0xffff else pos_part gain

-- `(tg_u16)(((tg_u32)magnitude * ff_gain) / 0xffffU)`
unfoldable pub with_gain : ℕ → ℕ → ℕ
with_gain magnitude gain = magnitude * gain % u32_mod / 0xffff % u16_mod

unfoldable pub play_effect : ℤ → ℤ → EffectSlot → Shim → Bool × Shim
play_effect fd value e s =
    let duration = if e.duration_ms == 0 then 2500 else e.duration_ms in
    if not (ltb_ℤ (pos 0) value)
    then send_control fd control_stop_rumble 0 0 0 s
    else send_control fd control_rumble (with_gain e.low_frequency s.ff_gain)
        (with_gain e.high_frequency s.ff_gain) duration s

-- One event that is written.
unfoldable pub write_event : ℤ → InputEvent → Shim → Bool × Shim
write_event fd e s =
    if not (e.type == ev_ff)
    then (true, s)
    else if e.code == ff_gain_code
    then (true, record s { ff_gain = clamp_gain e.value })
    else elim (find_effect fd (pos e.code) s.effects) [
      | none ↦ (false, s)
      | some slot ↦ play_effect fd e.value (effect_at s.effects slot) s
    ]

unfoldable pub write_events : ℤ → List InputEvent → Shim → Bool × Shim
write_events fd [] s = (true, s)
write_events fd (e ∷ es) s =
    let (success, s') = write_event fd e s in
    let later = write_events fd es s' in if success then later else (false, s')

-- What a call of the C library that is stood in for comes to: it is passed on, or it is answered.
pub data Answer : Type 0 where
  passed_on : Answer
  answered : ℤ → Answer

-- The first `count` events of a buffer.
unfoldable pub decode_events : ℕ → List ℕ → List InputEvent
decode_events zero bytes = []
decode_events (suc count) bytes =
    decode_event bytes ∷ decode_events count (drop input_event_size bytes)

-- On an evdev descriptor: the bytes of the buffer.
unfoldable pub write_buffer : ℤ → List ℕ → Shim → Answer × Shim
write_buffer fd bytes s =
    let (success, s') = write_events fd (decode_events (length bytes / input_event_size) bytes) s in
    if not (length bytes % input_event_size == 0)
    then (answered (negsuc 0), s)
    else (answered (if success then pos (length bytes) else negsuc 0), s')

-- `none` is a buffer that is NULL.
abbrev pub write_given : ℤ → Option (List ℕ) → Shim → Answer × Shim
write_given fd none s = (answered (negsuc 0), s)
write_given fd (some bytes) s = write_buffer fd bytes s

unfoldable pub write : ℤ → Option (List ℕ) → Shim → Answer × Shim
write fd buffer s = elim (find_fake_fd fd s.fakes) [
  | none ↦ (passed_on, s)
  | some f ↦ if f.joydev then (answered (negsuc 0), s) else write_given fd buffer s
]

-- `close`, whose descriptor is then closed by the C library.
unfoldable pub close : ℤ → Shim → Shim
close fd s =
    let forgotten = λ (t : Shim). record t { fakes = del_fake_fd fd t.fakes } in
    elim (find_fake_fd fd s.fakes) [
      | none ↦ forgotten s
      | some f ↦
          let stopped = (send_control fd control_stop_rumble 0 0 0 s).1 in
          if f.joydev
          then forgotten s
          else forgotten (record stopped { effects = clear_effects fd stopped.effects })
    ]
