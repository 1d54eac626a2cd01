-- ===== src/Preload/Joydev.antt =====
-- Joystick events: `tg_convert_joy_event` of src/evdev_preload.c, and the loop of `read` that feeds
-- it.
pub mod Stream
pub mod Numbers
use termux_gamepad.Prelude.{
  ℕ, ◌+◌, ◌*◌, ◌-◌, ◌/◌, ◌%◌, Bool, true, false, ◌&&◌, ◌||◌, List, [], ◌∷◌, ◌++◌, Option, none,
  some, ℤ, pos, negsuc, ◌-ℤ◌, pos_part, ltb, ltb_ℤ, ◌==◌, eq_ℤ, if◌then◌else◌, length, take,
  u32_mod, u64_mod, cast_s16, not,
}
use termux_gamepad.Wire.{
  InputEvent, decode_event, input_event_size, ev_syn, ev_key, ev_abs, syn_report,
}
use termux_gamepad.Preload.Fds.{FakeFd}

-- `struct tg_js_event`
pub record JsEvent : Type 0 where
  pub time : ℕ
  pub value : ℤ
  pub type : ℕ
  pub number : ℕ

-- `none` for -1. ABS_X, ABS_Y, ABS_Z, ABS_RX, ABS_RY, ABS_RZ, ABS_HAT0X, ABS_HAT0Y
unfoldable pub joy_axis_number : ℕ → Option ℕ
joy_axis_number code =
    if code == 0x00
    then some 0
    else if code == 0x01
    then some 1
    else if code == 0x02
    then some 2
    else if code == 0x03
    then some 3
    else if code == 0x04
    then some 4
    else if code == 0x05
    then some 5
    else if code == 0x10
    then some 6
    else if code == 0x11
    then some 7
    else none

-- BTN_SOUTH, BTN_EAST, BTN_NORTH, BTN_WEST, BTN_TL, BTN_TR, BTN_SELECT, BTN_START, BTN_MODE,
-- BTN_THUMBL, BTN_THUMBR, BTN_C
unfoldable pub joy_button_number : ℕ → Option ℕ
joy_button_number code =
    if code == 0x130
    then some 0
    else if code == 0x131
    then some 1
    else if code == 0x133
    then some 2
    else if code == 0x134
    then some 3
    else if code == 0x136
    then some 4
    else if code == 0x137
    then some 5
    else if code == 0x13a
    then some 6
    else if code == 0x13b
    then some 7
    else if code == 0x13c
    then some 8
    else if code == 0x13d
    then some 9
    else if code == 0x13e
    then some 10
    else if code == 0x132
    then some 11
    else none

abbrev pub clamp_to : ℤ → ℤ → ℤ → ℤ
clamp_to low high value = if ltb_ℤ value low then low else if ltb_ℤ high value then high else value

abbrev pub hat_to_stick : ℤ → ℤ
hat_to_stick value =
    if ltb_ℤ value (pos 0) then negsuc 32766 else if ltb_ℤ (pos 0) value then pos 32767 else pos 0

-- The cast to `tg_s16` is written out where it matters: the other values fit.
unfoldable pub joy_axis_value : ℕ → ℤ → ℤ
unfolding ◌-ℤ◌
joy_axis_value code value =
    if (code == 0x02) || (code == 0x05)
    then cast_s16 (pos (pos_part (clamp_to (pos 0) (pos 255) value) * 257) -ℤ pos 32767)
    else if (code == 0x10) || (code == 0x11)
    then hat_to_stick value
    else clamp_to (negsuc 32766) (pos 32767) value

-- The bit pattern of `usec / 1000L` for that of a signed `usec`: a division rounds toward zero.
abbrev pub milliseconds : ℕ → ℕ
milliseconds usec =
    if ltb usec (u64_mod / 2) then usec / 1000 else u64_mod - (u64_mod - usec) / 1000

-- `tv_sec * 1000L + tv_usec / 1000L` in 32 bits
abbrev pub js_time : InputEvent → ℕ
js_time e = (e.sec * 1000 + milliseconds e.usec) % u32_mod

abbrev pub js_init : Bool → ℕ → ℕ
js_init true type = type + 0x80
js_init false type = type

abbrev pub js_event : InputEvent → Bool → ℕ → Option ℕ → ℤ → Option JsEvent
js_event e initializing type none value = none
js_event e initializing type (some number) value =
    some (record {
      time = js_time e;
      value = value;
      type = js_init initializing type;
      number = number;
    })

abbrev pub js_pressed : ℤ → ℤ
js_pressed value = if eq_ℤ value (pos 0) then pos 0 else pos 1

-- The new `initializing`, and the event that is put out, if one is.
unfoldable pub convert_joy_event : Bool → InputEvent → Bool × Option JsEvent
convert_joy_event initializing e =
    if (e.type == ev_syn) && (e.code == syn_report)
    then (false, none)
    else if e.type == ev_abs
    then (
      initializing,
      js_event e initializing 0x02 (joy_axis_number e.code) (joy_axis_value e.code e.value),
    )
    else if e.type == ev_key
    then (
      initializing,
      js_event e initializing 0x01 (joy_button_number e.code) (js_pressed e.value),
    )
    else (initializing, none)

-- What the C library's `read` gives: bytes (none at the end), or an error.
pub data ReadAnswer : Type 0 where
  got : List ℕ → ReadAnswer
  failed : ReadAnswer

-- The loop's variables: the descriptor's state and the events put out.
pub record JoyRead : Type 0 where
  pub initializing : Bool
  pub raw : List ℕ
  pub events : List JsEvent

-- Bytes that arrive; a whole event is converted.
unfoldable pub joy_bytes : List ℕ → JoyRead → JoyRead
joy_bytes bytes q =
    let raw = q.raw ++ take (input_event_size - length q.raw) bytes in
    let (initializing, out) = convert_joy_event q.initializing (decode_event raw) in
    if length raw == input_event_size
    then record {
      initializing = initializing;
      raw = [];
      events = elim out [ none ↦ q.events | some event ↦ q.events ++ (event ∷ []) ];
    }
    else record q { raw = raw }

-- The loop, until `capacity` events are put out or a `read` gives none; the number is the last
-- result of `read`. After the last answer `read` fails.
unfoldable pub joy_loop : ℕ → List ReadAnswer → JoyRead → ℤ × JoyRead
joy_loop capacity [] q = (negsuc 0, q)
joy_loop capacity (got [] ∷ rest) q = (pos 0, q)
joy_loop capacity (failed ∷ rest) q = (negsuc 0, q)
joy_loop capacity (got (x ∷ bytes) ∷ rest) q =
    let later = joy_loop capacity rest (joy_bytes (x ∷ bytes) q) in
    if length q.events == capacity then (pos (length bytes), q) else later

-- `read` of `size` bytes on a joystick descriptor: what it returns, the descriptor and the events.
-- `given` is whether the buffer is one, not NULL.
unfoldable pub joy_read : Bool → ℕ → List ReadAnswer → FakeFd → ℤ × FakeFd × List JsEvent
joy_read given size answers f =
    let start : JoyRead = record { initializing = f.initializing; raw = f.raw; events = [] } in
    let (result, q) = joy_loop (size / 8) answers start in
    if not given || ltb size 8 then (negsuc 0, f, []) else (
      if length q.events == 0 then result else pos (length q.events * 8),
      record f { initializing = q.initializing; raw = q.raw },
      q.events,
    )
