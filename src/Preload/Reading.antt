-- ===== src/Preload/Reading.antt =====
-- `read` of src/evdev_preload.c on the descriptors that it serves.
pub mod Remap
use termux_gamepad.Prelude.{
  ℕ, zero, suc, ◌-◌, Bool, true, false, not, List, [], ◌∷◌, ◌++◌, Option, none, some, ℤ, pos,
  negsuc, ltb, ◌==◌, eq_ℤ, if◌then◌else◌, length, take, drop, le_bytes, read_le, to_unsigned,
  u16_mod,
}
use termux_gamepad.Wire.{input_event_size, ev_key}
use termux_gamepad.Preload.Fds.{FakeFd, find_fake_fd}
use termux_gamepad.Preload.Calls.{Shim, Answer, passed_on, answered}
use termux_gamepad.Preload.Setup.{Environment, is_dinput, dinput_button_code}
use termux_gamepad.Preload.Joydev.{JsEvent, ReadAnswer, got, failed, joy_read}

-- One event in the buffer: the type lies at byte 16, the code at byte 18.
unfoldable pub remap_event : List ℕ → List ℕ
remap_event bytes =
    let type = (read_le 2 (drop 16 bytes)).0 in
    let code = (read_le 2 (drop 18 bytes)).0 in
    if type == ev_key
    then take 18 bytes ++ (le_bytes 2 (dinput_button_code code) ++ drop 20 bytes)
    else bytes

-- The loop over the whole events of a buffer; each round has at least 24 bytes to go on, so as much
-- fuel as there are bytes is enough.
unfoldable pub remap_loop : ℕ → List ℕ → List ℕ
remap_loop zero bytes = bytes
remap_loop (suc fuel) bytes =
    let rest = remap_loop fuel (drop input_event_size bytes) in
    if ltb (length bytes) input_event_size
    then bytes
    else remap_event (take input_event_size bytes) ++ rest

unfoldable pub remap_buffer : List ℕ → List ℕ
remap_buffer bytes = remap_loop (length bytes) bytes

-- What `read` on an evdev descriptor returns, and the bytes in the caller's buffer, which holds
-- `size`; `given` is whether it is one, not NULL.
unfoldable pub evdev_read : Bool → Bool → ℕ → ReadAnswer → ℤ × List ℕ
evdev_read dinput given size failed = (negsuc 0, [])
evdev_read dinput given size (got bytes) =
    let received = take size bytes in
    (
      pos (length received),
      if not given then [] else if dinput then remap_buffer received else received,
    )

-- `struct tg_js_event`
unfoldable pub encode_js_event : JsEvent → List ℕ
encode_js_event e =
    le_bytes 4 e.time
    ++ (le_bytes 2 (to_unsigned u16_mod e.value) ++ (le_bytes 1 e.type ++ le_bytes 1 e.number))

unfoldable pub encode_js_events : List JsEvent → List ℕ
encode_js_events [] = []
encode_js_events (e ∷ es) = encode_js_event e ++ encode_js_events es

abbrev pub next_answer : List ReadAnswer → ReadAnswer
next_answer [] = failed
next_answer (a ∷ rest) = a

-- The entry of the descriptor is changed in place.
unfoldable pub replace_fake : ℤ → FakeFd → List FakeFd → List FakeFd
replace_fake fd f' [] = []
replace_fake fd f' (f ∷ fs) =
    let later = f ∷ replace_fake fd f' fs in if eq_ℤ f.fd fd then f' ∷ fs else later

-- The answers are those of the C library's `read`.
unfoldable pub read : Environment → ℤ → Bool → ℕ → List ReadAnswer → Shim → Answer × List ℕ × Shim
read env fd given size answers s = elim (find_fake_fd fd s.fakes) [
  | none ↦ (passed_on, [], s)
  | some f ↦
      let (joy_status, f', events) = joy_read given size answers f in
      let (status, bytes) = evdev_read (is_dinput env f) given size (next_answer answers) in
      if f.joydev
      then (
        answered joy_status,
        encode_js_events events,
        record s { fakes = replace_fake fd f' s.fakes },
      )
      else (answered status, bytes, s)
]
