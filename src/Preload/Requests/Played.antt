-- ===== src/Preload/Requests/Played.antt =====
-- From an effect in the caller's memory to the command that the bridge is sent.
use termux_gamepad.Prelude.{
  ℕ, ◌≤◌, ◌<◌, ◌^◌, ◌≡◌, ◌≢◌, refl, arith, true, false, not, ◌&&◌, List, [], ◌∷◌, ◌++◌, some, zero,
  suc, ℤ, pos, negsuc, leb, lt→ltb, ◌==◌, eq_ℤ_refl, length, if◌then◌else◌, set, get_or-set_self,
  ap, ◌∙◌, append-nil, take, take_all, le_bytes,
}
use termux_gamepad.Wire.{
  InputEvent, ControlMessage, encode_event, decode_event, encode_events, encode_control,
  control_rumble, control_message_size, ev_ff,
}
use termux_gamepad.Wire.RoundTrip.{decode_event-encode_event}
use termux_gamepad.Preload.Fds.{FakeFd, find_fake_fd}
use termux_gamepad.Preload.Effects.{
  EffectSlot, empty_slot, effect_at, stored, find_effect, magnitudes, choose_slot, unused_slot,
  upload_effect, max_effects,
}
use termux_gamepad.Preload.Calls.{
  Shim, answered, control, next_send, send_control, play_effect, write_event, write_events, write,
  write_buffer, decode_events, ff_gain_code,
}
use termux_gamepad.Preload.Isolation.{with_gain_bounds}
use termux_gamepad.Preload.Setup.{Environment}
use termux_gamepad.Preload.Reports.{request_nr, request_size}
use termux_gamepad.Preload.Requests.{effect_in, force_at, store_id, ioctl, ioctl_on}
use termux_gamepad.Preload.Requests.Layout.{
  UploadedEffect, IsUploaded, effect_bytes, asked, asked_fits, force_at-effect_bytes,
  length_in-effect_bytes, id_in-effect_bytes,
}

-- The event that plays the effect in slot `i`.
abbrev pub play : ℕ → InputEvent
play i = record { sec = 0; usec = 0; type = ev_ff; code = i; value = pos 1 }

-- Its bytes.
abbrev pub play_bytes : ℕ → List ℕ
play_bytes i = encode_events (play i ∷ [])

length-play_bytes : (i : ℕ) → length (play_bytes i) ≡ 24
unfolding encode_events encode_event le_bytes
length-play_bytes i = refl

decode_events-play_bytes : (i : ℕ) → i < max_effects → decode_events 1 (play_bytes i) ≡ play i ∷ []
unfolding decode_events encode_events
decode_events-play_bytes i small =
    ap (λ (e : InputEvent). e ∷ [])
      (ap decode_event (append-nil (encode_event (play i)))
        ∙ decode_event-encode_event (play i) (record {
          sec_fits = omega arith;
          usec_fits = omega arith;
          type_fits = omega arith;
          code_fits = omega arith;
          value_fits = omega arith;
        }))

abbrev pub played_ms : ℕ → ℕ
played_ms ms = if ms == 0 then 2500 else ms

find_stored :
    (fd : ℤ) (i ms : ℕ) (m : ℕ × ℕ) (slots : List EffectSlot)
    → i < max_effects
    → i < length slots
    → find_effect fd (pos i) (set slots i (stored fd ms m)) ≡ some i
unfolding find_effect
find_stored fd i ms m slots h room =
    rw (lt→ltb i 16 h, get_or-set_self slots i (stored fd ms m) empty_slot room, eq_ℤ_refl fd)

abbrev with_slot : Shim → ℕ → EffectSlot → Shim
with_slot s i slot = record s { effects = set s.effects i slot }

length-encode_control : (m : ControlMessage) → length (encode_control m) ≡ control_message_size
unfolding encode_control le_bytes
length-encode_control m = refl

ioctl_uploads :
    (env : Environment) (fd : ℤ) (f : FakeFd) (req arg i : ℕ) (m : ℕ × ℕ) (mem : List ℕ) (s : Shim)
    → find_fake_fd fd s.fakes ≡ some f
    → f.joydev ≡ false
    → request_nr req ≡ 0x80
    → 48 ≤ request_size req
    → arg ≢ 0
    → magnitudes (force_at mem) ≡ some m
    → choose_slot fd (effect_in mem).id s.effects ≡ some i
    → ioctl env fd req arg mem s ≡ (
      answered (pos 0),
      some (store_id i mem),
      with_slot s i (stored fd (effect_in mem).replay_length m),
    )
unfolding ioctl ioctl_on upload_effect effect_in
ioctl_uploads env fd f req arg i m mem s found evdev nr size given strength chosen =
    let upload : ((request_nr req == 0x80) && not (arg == 0) && leb 48 (request_size req)) ≡ true =
      ground arith in
    rw (found, ioctl) (rw (evdev, upload) (rw (strength, chosen, upload_effect)))

writes_play :
    (fd : ℤ) (f : FakeFd) (i ms low high : ℕ) (s : Shim)
    → find_fake_fd fd s.fakes ≡ some f
    → f.joydev ≡ false
    → i < max_effects
    → find_effect fd (pos i) s.effects ≡ some i
    → effect_at s.effects i ≡ stored fd ms (low, high)
    → low < 2 ^ 16
    → high < 2 ^ 16
    → s.ff_gain ≡ 0xffff
    → next_send s.sends ≡ control_message_size
    → let (written, s') = write fd (some (play_bytes i)) s in
      (written ≡ answered (pos 24))
      × (s'.wire
          ≡ s.wire ++ (fd, encode_control (control control_rumble low high (played_ms ms))) ∷ [])
unfolding write write_buffer write_events write_event play_effect send_control
writes_play fd f i ms low high s found evdev small mine slot low_fits high_fits full sends =
    let whole : take 16 (encode_control (control control_rumble low high (played_ms ms)))
        ≡ encode_control (control control_rumble low high (played_ms ms)) =
      take_all 16 _
        (omega (arith, length-encode_control (control control_rumble low high (played_ms ms)))) in
    let loud_low = (with_gain_bounds low 0xffff low_fits (omega arith)).1 in
    let loud_high = (with_gain_bounds high 0xffff high_fits (omega arith)).1 in
    let other : (i == ff_gain_code) ≡ false = ground arith in
    rw (found, write)
      (rw (evdev, length-play_bytes i, decode_events-play_bytes i small, other, mine)
        (rw (slot, full, loud_low, loud_high, sends, whole) (refl, refl)))

unused_slot-le : (slots : List EffectSlot) → unused_slot slots ≤ length slots
unfolding unused_slot
unused_slot-le [] = omega arith
unused_slot-le (s ∷ ss) = let ih = unused_slot-le ss in ground arith

choose_slot-lt :
    (fd id : ℤ) (slots : List EffectSlot) (i : ℕ)
    → length slots ≡ max_effects
    → choose_slot fd id slots ≡ some i
    → i < max_effects
unfolding choose_slot
choose_slot-lt fd (pos id) slots i sixteen e = ground arith
choose_slot-lt fd (negsuc zero) slots i sixteen e = let le = unused_slot-le slots in ground arith
choose_slot-lt fd (negsuc (suc n)) slots i sixteen e = cc

-- Any effect that takes a slot, with what the preload reads from the caller's memory.
effect_then_play :
    (env : Environment) (fd : ℤ) (f : FakeFd) (req arg i low high : ℕ) (mem : List ℕ) (s : Shim)
    → find_fake_fd fd s.fakes ≡ some f
    → f.joydev ≡ false
    → request_nr req ≡ 0x80
    → 48 ≤ request_size req
    → arg ≢ 0
    → magnitudes (force_at mem) ≡ some (low, high)
    → choose_slot fd (effect_in mem).id s.effects ≡ some i
    → length s.effects ≡ max_effects
    → low < 2 ^ 16
    → high < 2 ^ 16
    → s.ff_gain ≡ 0xffff
    → next_send s.sends ≡ control_message_size
    → let (uploaded, mem', s1) = ioctl env fd req arg mem s in
      let (written, s2) = write fd (some (play_bytes i)) s1 in
      (uploaded ≡ answered (pos 0))
      × (written ≡ answered (pos 24))
      × (s2.wire
          ≡ s.wire
            ++ (
              fd,
              encode_control
                  (control control_rumble low high (played_ms (effect_in mem).replay_length)),
            )
              ∷ [])
effect_then_play env fd f req arg i low high mem s found evdev nr size given strength chosen sixteen
      low_fits high_fits full sends =
    let e = effect_in mem in
    let slot = stored fd e.replay_length (low, high) in
    let done =
      ioctl_uploads env fd f req arg i (low, high) mem s found evdev nr size given strength
        chosen in
    let fits = choose_slot-lt fd e.id s.effects i sixteen chosen in
    let room : i < length s.effects = omega arith in
    let (written, wire) =
      writes_play fd f i e.replay_length low high (with_slot s i slot) found evdev fits
        (find_stored fd i e.replay_length (low, high) s.effects fits room)
        (get_or-set_self s.effects i slot empty_slot room) low_fits high_fits full sends in
    rw done (refl, written, wire)

-- An effect that a program uploads is played as it asked, whatever its kind (rumble, constant,
-- periodic, ramp, or a condition): the program's memory holds the bytes of the effect as the kernel
-- lays them out, the fields that are read fit their C types, and the upload finds a slot for the
-- effect's identifier. Then the upload succeeds, a write of the bytes of the event that plays this
-- slot succeeds as a whole, and what the bridge is sent is one command to rumble with the strengths
-- that the effect asks for, for the length of its replay (2500 ms where that is 0). The descriptor
-- is served as an evdev device, the request is an upload with room for the effect, the gain is the
-- highest, and `send` takes the command whole.
pub upload_then_play :
    (env : Environment) (fd : ℤ) (f : FakeFd) (req arg i : ℕ) (e : UploadedEffect) (rest : List ℕ)
    → (s : Shim) → IsUploaded e
    → find_fake_fd fd s.fakes ≡ some f
    → f.joydev ≡ false
    → request_nr req ≡ 0x80
    → 48 ≤ request_size req
    → arg ≢ 0
    → choose_slot fd e.id s.effects ≡ some i
    → length s.effects ≡ max_effects
    → s.ff_gain ≡ 0xffff
    → next_send s.sends ≡ control_message_size
    → let (uploaded, mem', s1) = ioctl env fd req arg (effect_bytes e rest) s in
      let (written, s2) = write fd (some (play_bytes i)) s1 in
      let command =
        control control_rumble
          (asked e.force).0
          (asked e.force).1
          (if e.replay_length == 0 then 2500 else e.replay_length) in
      (uploaded ≡ answered (pos 0))
      × (written ≡ answered (pos 24))
      × (s2.wire ≡ s.wire ++ ((fd, encode_control command) ∷ []))
upload_then_play env fd f req arg i e rest s v found evdev nr size given chosen sixteen full sends =
    let mem = effect_bytes e rest in
    let (low, high) = asked e.force in
    let fits = asked_fits e.force v.force_fits in
    let slot : choose_slot fd (effect_in mem).id s.effects ≡ some i =
      ap (λ (id : ℤ). choose_slot fd id s.effects) (id_in-effect_bytes e rest v) ∙ chosen in
    let (uploaded, written, wire) =
      effect_then_play env fd f req arg i low high mem s found evdev nr size given
        (force_at-effect_bytes e rest v.force_fits) slot sixteen fits.0 fits.1 full sends in
    let whole = λ (ms : ℕ).
      s.wire ++ ((fd, encode_control (control control_rumble low high (played_ms ms))) ∷ []) in
    (uploaded, written, wire ∙ ap whole (length_in-effect_bytes e rest v))
