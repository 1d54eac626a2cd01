-- ===== src/Preload/Joydev/Stream.antt =====
-- The joystick `read` of src/evdev_preload.c on a byte stream cut into pieces.
use termux_gamepad.Prelude.{
  ℕ, ◌-◌, ◌*◌, ◌/◌, ◌≤◌, ◌<◌, ◌≡◌, refl, sym, ap, subst, ◌∙◌, arith, Bool, true, false, List, [],
  ◌∷◌, ◌++◌, map, Option, none, some, pos, negsuc, ltb, ◌==◌, length, length-append, take, All,
  append_assoc, append-nil, if◌then◌else◌, if_false, if_cases, Bool-cases, inl, inr,
}
use termux_gamepad.Wire.{InputEvent, decode_event, input_event_size, encode_events}
use termux_gamepad.Wire.Pieces.{IsCut, joined, take_piece, take_pieces, take_pieces_events}
use termux_gamepad.Wire.Pieces
use termux_gamepad.Wire.RoundTrip.{IsEvent}
use termux_gamepad.Preload.Fds.{FakeFd}
use termux_gamepad.Preload.Joydev.{
  JsEvent, got, JoyRead, convert_joy_event, joy_bytes, joy_loop, joy_read,
}

abbrev pub listed : Option JsEvent → List JsEvent
listed none = []
listed (some e) = e ∷ []

-- The joystick events that input events give, one after the other, from a given `initializing`, and
-- the `initializing` behind them.
unfoldable pub joy_events : Bool → List InputEvent → Bool × List JsEvent
joy_events initializing [] = (initializing, [])
joy_events initializing (e ∷ es) =
    let (initializing', out) = convert_joy_event initializing e in
    let (last, later) = joy_events initializing' es in (last, listed out ++ later)

abbrev Shown : Type 0
Shown = Bool × List JsEvent

-- A whole event.
abbrev shown : InputEvent → Shown → Shown
shown e (initializing, events) =
    let (initializing', out) = convert_joy_event initializing e in
    (initializing', events ++ listed out)

abbrev reading : List ℕ × Shown → JoyRead
reading (raw, (initializing, events)) = record {
  initializing = initializing;
  raw = raw;
  events = events;
}

keep_listed :
    (events : List JsEvent) (out : Option JsEvent)
    → (elim out [ none ↦ events | some event ↦ events ++ (event ∷ []) ]) ≡ events ++ listed out
keep_listed events none = sym (append-nil events)
keep_listed events (some e) = refl

joy_bytes-take_piece :
    (bytes : List ℕ) (q : List ℕ × Shown)
    → joy_bytes bytes (reading q) ≡ reading (take_piece shown bytes q)
unfolding joy_bytes take_piece
joy_bytes-take_piece bytes (raw, (initializing, events)) =
    let full_raw = raw ++ take (input_event_size - length raw) bytes in
    let (initializing', out) = convert_joy_event initializing (decode_event full_raw) in
    elim (Bool-cases (length full_raw == input_event_size)) [
      | inl full ↦
          rw full
            (ap (λ (l : List JsEvent). reading ([], (initializing', l))) (keep_listed events out))
      | inr short ↦ rw short
    ]

-- Events are only added.
take_piece-grows :
    (bytes raw : List ℕ) (initializing : Bool) (events : List JsEvent)
    → length events ≤ length (take_piece shown bytes (raw, (initializing, events))).1.1
unfolding take_piece
take_piece-grows bytes raw initializing events =
    let full_raw = raw ++ take (input_event_size - length raw) bytes in
    if_cases (λ (q : List ℕ × Shown). length events ≤ length q.1.1)
      (length full_raw == input_event_size) _ _
      (λ _.
        let out = (convert_joy_event initializing (decode_event full_raw)).1 in
        omega (arith, length-append events (listed out)))
      (λ _. omega arith)

take_pieces-grows :
    (pieces : List (List ℕ)) (q : List ℕ × Shown)
    → length q.1.1 ≤ length (take_pieces shown pieces q).1.1
unfolding take_pieces
take_pieces-grows [] q = omega arith
take_pieces-grows (bytes ∷ rest) (raw, (initializing, events)) = omega (
  arith,
  take_piece-grows bytes raw initializing events,
  take_pieces-grows rest (take_piece shown bytes (raw, (initializing, events))),
)

joy_loop-take_pieces :
    (capacity : ℕ) (pieces : List (List ℕ)) (used : ℕ) (q : List ℕ × Shown)
    → IsCut used pieces
    → length (take_pieces shown pieces q).1.1 < capacity
    → joy_loop capacity (map got pieces) (reading q)
      ≡ (negsuc 0, reading (take_pieces shown pieces q))
unfolding joy_loop take_pieces
joy_loop-take_pieces capacity [] used q cut room = refl
joy_loop-take_pieces capacity ([] ∷ rest) used q cut room = absurd cut
joy_loop-take_pieces capacity ((x ∷ bytes) ∷ rest) used q (fits, later) room =
    let grows = take_pieces-grows ((x ∷ bytes) ∷ rest) q in
    let open_room : (length q.1.1 == capacity) ≡ false = ground (arith, grows) in
    if_false (length q.1.1 == capacity) _ _ open_room
    ∙ ap (joy_loop capacity (map got rest)) (joy_bytes-take_piece (x ∷ bytes) q)
    ∙ joy_loop-take_pieces capacity rest _ (take_piece shown (x ∷ bytes) q) later room

after_events-joy_events :
    (es : List InputEvent) (initializing : Bool) (events : List JsEvent)
    → Pieces.after_events shown es (initializing, events)
      ≡ (let (last, later) = joy_events initializing es in (last, events ++ later))
unfolding Pieces.after_events joy_events
after_events-joy_events [] initializing events = rw (append-nil events)
after_events-joy_events (e ∷ es) initializing events =
    let (initializing', out) = convert_joy_event initializing e in
    after_events-joy_events es initializing' (events ++ listed out)
    ∙ ap (λ (l : List JsEvent). ((joy_events initializing' es).0, l))
        (append_assoc events (listed out) (joy_events initializing' es).1)

-- A joystick `read` gives the events that its input events stand for, whatever pieces they come in:
-- if the bytes that come are those of some input events and the beginning of another, and the
-- caller's buffer has room for more, then it returns the size of the joystick events that the input
-- events give one after the other (-1 if there are none), it puts out these events, and the
-- beginning is kept for the next call. No part of an event had come before.
pub joy_read_events :
    (es : List InputEvent) (partial : List ℕ) (pieces : List (List ℕ)) (size : ℕ) (f : FakeFd)
    → All IsEvent es
    → length partial < input_event_size
    → IsCut 0 pieces
    → joined pieces ≡ encode_events es ++ partial
    → f.raw ≡ []
    → length (joy_events f.initializing es).1 < size / 8
    → let (initializing, events) = joy_events f.initializing es in
      joy_read true size (map got pieces) f ≡ (
        if length events == 0 then negsuc 0 else pos (length events * 8),
        record f { initializing = initializing; raw = partial },
        events,
      )
unfolding joy_read
joy_read_events es partial pieces size f v short cut bytes fresh room =
    let whole : take_pieces shown pieces ([], (f.initializing, []))
        ≡ (partial, joy_events f.initializing es) =
      take_pieces_events shown es partial pieces (f.initializing, []) v short cut bytes
      ∙ ap (λ (s : Shown). (partial, s)) (after_events-joy_events es f.initializing []) in
    let loop : joy_loop (size / 8) (map got pieces) (reading ([], (f.initializing, [])))
        ≡ (negsuc 0, reading (partial, joy_events f.initializing es)) =
      joy_loop-take_pieces (size / 8) pieces 0 ([], (f.initializing, [])) cut
        (subst (λ (q : List ℕ × Shown). length q.1.1 < size / 8) (sym whole) room)
      ∙ ap (λ (q : List ℕ × Shown). (negsuc 0, reading q)) whole in
    let begun : joy_loop (size / 8) (map got pieces)
          (record { initializing = f.initializing; raw = f.raw; events = [] })
        ≡ (negsuc 0, reading (partial, joy_events f.initializing es)) =
      ap
        (λ (raw : List ℕ).
          joy_loop (size / 8) (map got pieces) (reading (raw, (f.initializing, []))))
        fresh
      ∙ loop in
    let enough : ltb size 8 ≡ false = ground (arith, room) in rw (begun, enough, joy_read) refl
