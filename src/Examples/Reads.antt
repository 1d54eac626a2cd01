-- ===== src/Examples/Reads.antt =====
-- Reads on the descriptors of src/evdev_preload.c.
use termux_gamepad.Prelude.{
  ℕ, ◌*◌, ◌/◌, ◌≤◌, ◌<◌, le_bytes, ◌≡◌, refl, arith, true, false, List, [], ◌∷◌, ◌++◌, map, pos,
  negsuc, ◌==◌, length, take, drop, if◌then◌else◌,
}
use termux_gamepad.Wire.{encode_event, encode_events}
use termux_gamepad.Wire.Pieces.{IsCut, joined}
use termux_gamepad.Wire.RoundTrip.{IsEvent}
use termux_gamepad.Preload.Fds.{FakeFd}
use termux_gamepad.Preload.Joydev.{got, joy_read, convert_joy_event, joy_button_number}
use termux_gamepad.Preload.Joydev.Stream.{joy_events, joy_read_events}
use termux_gamepad.Preload.Reading.{evdev_read}
use termux_gamepad.Preload.Reading.Remap.{remapped, evdev_read_remaps}
use termux_gamepad.Examples.Samples.{key_event, shown_descriptor}

key_event-IsEvent : IsEvent key_event
key_event-IsEvent = record {
  sec_fits = omega arith;
  usec_fits = omega arith;
  type_fits = omega arith;
  code_fits = omega arith;
  value_fits = omega arith;
}

two_fit : length (encode_events (key_event ∷ key_event ∷ []) ++ (5 ∷ 0 ∷ [])) ≤ 96
unfolding encode_events encode_event le_bytes
two_fit = omega arith

evdev_read_remaps_example :
    evdev_read true true 96 (got (encode_events (key_event ∷ key_event ∷ []) ++ (5 ∷ 0 ∷ []))) ≡ (
      pos (length (encode_events (key_event ∷ key_event ∷ []) ++ (5 ∷ 0 ∷ []))),
      encode_events
            (if true then map remapped (key_event ∷ key_event ∷ []) else key_event ∷ key_event ∷ [])
          ++ (5 ∷ 0 ∷ []),
    )
evdev_read_remaps_example =
    evdev_read_remaps (key_event ∷ key_event ∷ []) (5 ∷ 0 ∷ []) 96 true
      (key_event-IsEvent, (key_event-IsEvent, tt)) (omega arith) two_fit

abbrev joystick : FakeFd
joystick = record {
  fd = pos 5;
  joydev = true;
  initializing = false;
  raw = [];
  descriptor = shown_descriptor;
}

-- The event, and the first byte of another, in pieces of 10, 14 and 1 bytes.
abbrev arrivals : List (List ℕ)
arrivals = take 10 (encode_event key_event) ∷ drop 10 (encode_event key_event) ∷ (5 ∷ []) ∷ []

arrivals-IsCut : IsCut 0 arrivals
unfolding encode_event le_bytes
arrivals-IsCut = (omega arith, (omega arith, (omega arith, tt)))

arrivals_join : joined arrivals ≡ encode_events (key_event ∷ []) ++ (5 ∷ [])
unfolding encode_events encode_event le_bytes
arrivals_join = refl

one_event : length (joy_events joystick.initializing (key_event ∷ [])).1 < 64 / 8
unfolding joy_events convert_joy_event joy_button_number
one_event = omega arith

joy_read_events_example :
    let (initializing, events) = joy_events joystick.initializing (key_event ∷ []) in
    joy_read true 64 (map got arrivals) joystick ≡ (
      if length events == 0 then negsuc 0 else pos (length events * 8),
      record joystick { initializing = initializing; raw = 5 ∷ [] },
      events,
    )
joy_read_events_example =
    joy_read_events (key_event ∷ []) (5 ∷ []) arrivals 64 joystick (key_event-IsEvent, tt)
      (omega arith) arrivals-IsCut arrivals_join refl one_event
