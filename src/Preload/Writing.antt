-- ===== src/Preload/Writing.antt =====
-- What `write` of src/evdev_preload.c leaves alone: a property of the globals that neither a
-- message to the bridge nor a new gain changes.
use termux_gamepad.Prelude.{
  ℕ, ◌/◌, ◌%◌, Bool, not, Option, none, some, length, List, [], ◌∷◌, ◌==◌, ℤ, pos, inl, inr,
  if_cases, Option-cases, ltb_ℤ,
}
use termux_gamepad.Wire.{InputEvent, input_event_size, ev_ff}
use termux_gamepad.Preload.Fds.{find_fake_fd}
use termux_gamepad.Preload.Effects.{EffectSlot, effect_at, find_effect}
use termux_gamepad.Preload.Calls.{
  Shim, Answer, send_control, play_effect, write_event, write_events, decode_events, write_buffer,
  write_given, write, ff_gain_code,
}

module _ (P : Shim → Type 0)
    (sent : (fd : ℤ) (command low high ms : ℕ) (s : Shim)
      → P s
      → P (send_control fd command low high ms s).1)
    (gained : (gain : ℕ) (s : Shim) → P s → P (record s { ff_gain = gain })) where
  play_effect-keeps :
      (fd value : ℤ) (e : EffectSlot) (s : Shim) → P s → P (play_effect fd value e s).1
  unfolding play_effect
  play_effect-keeps fd value e s h =
      if_cases (λ (r : Bool × Shim). P r.1) (not (ltb_ℤ (pos 0) value)) _ _
        (λ _. sent fd _ _ _ _ s h) (λ _. sent fd _ _ _ _ s h)

  write_event-keeps : (fd : ℤ) (e : InputEvent) (s : Shim) → P s → P (write_event fd e s).1
  unfolding write_event
  write_event-keeps fd e s h =
      if_cases (λ (r : Bool × Shim). P r.1) (not (e.type == ev_ff)) _ _ (λ _. h)
        λ _.
          if_cases (λ (r : Bool × Shim). P r.1) (e.code == ff_gain_code) _ _ (λ _. gained _ s h)
            λ _. elim (Option-cases (find_effect fd (pos e.code) s.effects)) [
              | inl missing ↦ rw missing h
              | inr (i, found) ↦ rw found (play_effect-keeps fd e.value (effect_at s.effects i) s h)
            ]

  write_events-keeps : (fd : ℤ) (es : List InputEvent) (s : Shim) → P s → P (write_events fd es s).1
  unfolding write_events
  write_events-keeps fd [] s h = h
  write_events-keeps fd (e ∷ es) s h =
      let (success, s') = write_event fd e s in
      if_cases (λ (r : Bool × Shim). P r.1) success _ _
        (λ _. write_events-keeps fd es s' (write_event-keeps fd e s h))
        (λ _. write_event-keeps fd e s h)

  write_given-keeps :
      (fd : ℤ) (buffer : Option (List ℕ)) (s : Shim) → P s → P (write_given fd buffer s).1
  unfolding write_buffer
  write_given-keeps fd none s h = h
  write_given-keeps fd (some bytes) s h =
      if_cases (λ (r : Answer × Shim). P r.1) (not (length bytes % input_event_size == 0)) _ _
        (λ _. h)
        (λ _. write_events-keeps fd (decode_events (length bytes / input_event_size) bytes) s h)

  pub write-keeps : (fd : ℤ) (buffer : Option (List ℕ)) (s : Shim) → P s → P (write fd buffer s).1
  unfolding write
  write-keeps fd buffer s h = elim (Option-cases (find_fake_fd fd s.fakes)) [
    | inl missing ↦ rw (missing, write) h
    | inr (f, found) ↦
        rw (found, write)
          (if_cases (λ (r : Answer × Shim). P r.1) f.joydev _ _ (λ _. h)
            (λ _. write_given-keeps fd buffer s h))
  ]
