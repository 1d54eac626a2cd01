-- ===== src/Preload/Reading/Remap.antt =====
-- The DInput order of buttons in the events that src/evdev_preload.c passes on.
use termux_gamepad.Prelude.{
  ℕ, zero, suc, ◌≤◌, ◌<◌, ◌≡◌, refl, ap, ◌∙◌, sym, arith, Bool, true, false, List, [], ◌∷◌, ◌++◌,
  ltb, ◌==◌, if◌then◌else◌, if_true, if_false, length, length-append, take_all, take-append_exact,
  drop-append_exact, append_assoc, le_bytes, read_le, word_read, All, map, Bool-cases, inl, inr,
  pos,
}
use termux_gamepad.Wire.{InputEvent, encode_event, input_event_size, ev_key, encode_events}
use termux_gamepad.Wire.RoundTrip.{IsEvent, length-encode_event}
use termux_gamepad.Preload.Setup.{dinput_button_code}
use termux_gamepad.Preload.Joydev.{got}
use termux_gamepad.Preload.Reading.{remap_event, remap_loop, remap_buffer, evdev_read}

-- The order of the buttons that DirectInput expects: BTN_SOUTH, BTN_EAST, BTN_WEST, BTN_NORTH,
-- BTN_TL, BTN_TR, BTN_SELECT, BTN_START, BTN_MODE, BTN_THUMBL, BTN_THUMBR and BTN_C are the buttons
-- from 0x120 on, one after the other.
abbrev pub dinput_order : List ℕ
dinput_order =
    0x130 ∷ 0x131 ∷ 0x134 ∷ 0x133 ∷ 0x136 ∷ 0x137 ∷ 0x13a ∷ 0x13b ∷ 0x13c ∷ 0x13d ∷ 0x13e ∷ 0x132
    ∷ []

-- The number from `n` on of the code in a list, or the code itself.
unfoldable pub numbered : ℕ → ℕ → List ℕ → ℕ
numbered code n [] = code
numbered code n (c ∷ cs) = let later = numbered code (suc n) cs in if code == c then n else later

-- The independent description, on events.
unfoldable pub remapped : InputEvent → InputEvent
remapped e = record e {
  code = if e.type == ev_key then numbered e.code 0x120 dinput_order else e.code;
}

dinput_button_code-numbered :
    (code : ℕ) → dinput_button_code code ≡ numbered code 0x120 dinput_order
unfolding dinput_button_code numbered
dinput_button_code-numbered code = refl

remap_event-encode_event :
    (e : InputEvent) → IsEvent e → remap_event (encode_event e) ≡ encode_event (remapped e)
unfolding remap_event encode_event remapped le_bytes read_le
remap_event-encode_event e v =
    rw (word_read e.type v.type_fits, word_read e.code v.code_fits)
      (elim (Bool-cases (e.type == ev_key)) [
        | inl key ↦ rw (key, dinput_button_code-numbered e.code)
        | inr other ↦ rw other
      ])

remap_loop-encode_event :
    (e : InputEvent) (rest : List ℕ) (fuel : ℕ)
    → IsEvent e
    → remap_loop (suc fuel) (encode_event e ++ rest)
      ≡ encode_event (remapped e) ++ remap_loop fuel rest
unfolding remap_loop
remap_loop-encode_event e rest fuel v =
    let size = length-encode_event e in
    let total = length-append (encode_event e) rest in
    if_false (ltb (length (encode_event e ++ rest)) input_event_size) _ _
      (ground (arith, size, total))
    ∙ rw
        (
          take-append_exact input_event_size (encode_event e) rest size,
          drop-append_exact input_event_size (encode_event e) rest size,
        )
        (ap (λ bytes. bytes ++ remap_loop fuel rest) (remap_event-encode_event e v))

remap_loop-encode_events :
    (es : List InputEvent) (partial : List ℕ) (fuel : ℕ)
    → All IsEvent es
    → length partial < input_event_size
    → length (encode_events es ++ partial) ≤ fuel
    → remap_loop fuel (encode_events es ++ partial) ≡ encode_events (map remapped es) ++ partial
unfolding remap_loop encode_events
remap_loop-encode_events [] partial zero v short enough = refl
remap_loop-encode_events [] partial (suc fuel) v short enough =
    if_true (ltb (length partial) input_event_size) _ _ (ground arith)
remap_loop-encode_events (e ∷ es) partial zero v short enough = absurd (
    omega (
      arith,
      length-append (encode_event e ++ encode_events es) partial,
      length-append (encode_event e) (encode_events es),
      length-encode_event e,
    ))
remap_loop-encode_events (e ∷ es) partial (suc fuel) v short enough =
    ap (remap_loop (suc fuel)) (append_assoc (encode_event e) (encode_events es) partial)
    ∙ remap_loop-encode_event e (encode_events es ++ partial) fuel v.0
    ∙ ap (◌++◌ (encode_event (remapped e))) (
        remap_loop-encode_events es partial fuel v.1 short (
          omega (
            arith,
            ap length (append_assoc (encode_event e) (encode_events es) partial),
            length-append (encode_event e) (encode_events es ++ partial),
            length-encode_event e,
          )))
    ∙ sym (append_assoc (encode_event (remapped e)) (encode_events (map remapped es)) partial)

-- A read whose bytes begin with a whole event: they are those of some events and the beginning of
-- another, and they fit the caller's buffer, which is not NULL. In DInput mode it gives these
-- events with each key's code replaced by its place in the DirectInput order (a code without a
-- place stays), and all else as it was: the type, the value and the time of each event, events of
-- other types, and the beginning of an event behind the last. In the other mode it gives the bytes
-- as they came.
pub evdev_read_remaps :
    (es : List InputEvent) (partial : List ℕ) (size : ℕ) (dinput : Bool)
    → All IsEvent es
    → length partial < input_event_size
    → length (encode_events es ++ partial) ≤ size
    → evdev_read dinput true size (got (encode_events es ++ partial)) ≡ (
      pos (length (encode_events es ++ partial)),
      encode_events (if dinput then map remapped es else es) ++ partial,
    )
unfolding evdev_read remap_buffer
evdev_read_remaps es partial size false v short enough =
    rw (take_all size (encode_events es ++ partial) enough)
evdev_read_remaps es partial size true v short enough =
    rw (take_all size (encode_events es ++ partial) enough) (
      ap (λ bytes. (pos (length (encode_events es ++ partial)), bytes))
        (remap_loop-encode_events es partial (length (encode_events es ++ partial)) v short
          (omega arith)))
