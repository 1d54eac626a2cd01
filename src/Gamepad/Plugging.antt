-- ===== src/Gamepad/Plugging.antt =====
-- A hotplug message on the monitor of src/termux_gamepad.c, in whatever pieces it comes.
use termux_gamepad.Prelude.{
  test_bit, eq_ℤ→eq, if◌then◌else◌, ℕ, zero, suc, ◌+◌, ◌-◌, ◌<◌, ◌≡◌, refl, sym, ap, ◌∙◌, subst,
  arith, Bool, true, false, not, ◌&&◌, ◌||◌, List, [], ◌∷◌, ◌++◌, append_assoc, append-nil, map, ℤ,
  pos, ◌==◌, eq_ℤ, is_nonneg, if_cases, if_true, if_false, length, length-append, take_all, All,
}
use termux_gamepad.Wire.{
  fill_name, DeviceDescriptor, HotplugMessage, hotplug_magic, control_version, hotplug_message_size,
  encode_hotplug, decode_hotplug,
}
use termux_gamepad.Wire.Text.{strncmp_eq, head_or_nul, tail_of}
use termux_gamepad.Wire.Pieces.{joined}
use termux_gamepad.Wire.RoundTrip.{IsHotplug, length-encode_hotplug, decode_hotplug-encode_hotplug}
use termux_gamepad.Gamepad.Net.{RecvAnswer, got}
use termux_gamepad.Gamepad.State.{Gamepad, Descriptor}
use termux_gamepad.Gamepad.Handle.{close_event_stream_rest, open_event_stream_descriptor}
use termux_gamepad.Gamepad.Hotplug.{
  copy_descriptor, descriptor_equal, close_event_stream, open_event_stream, apply_hotplug,
  changed_to_int, monitor_bytes, monitor_loop, refresh,
}

-- The handle shows the bridge's descriptor: it has its numbers and its mode, offers both kinds of
-- rumble if the bridge offers rumble and none otherwise, and its name is the bridge's to the
-- terminator.
pub record IsShown (d : DeviceDescriptor) (shown : Descriptor) : Type 0 where
  pub present_same : shown.present ≡ d.present
  pub rumble_same : shown.capabilities ≡ (if test_bit d.capabilities 0 then 3 else 0)
  pub mode_same : shown.input_mode ≡ d.input_mode
  pub vendor_same : shown.vendor_id ≡ d.vendor_id
  pub product_same : shown.product_id ≡ d.product_id
  pub device_same : shown.device_id ≡ d.device_id
  pub name_same : strncmp_eq 64 shown.name (fill_name d.name) ≡ true

abbrev pub Shows : DeviceDescriptor → Gamepad → Type 0
Shows d g = IsShown d g.descriptor

same : (n : ℕ) → (n == n) ≡ true
same n = ground arith

strncmp_eq_refl : (n : ℕ) (s : List ℕ) → strncmp_eq n s s ≡ true
unfolding strncmp_eq
strncmp_eq_refl zero s = refl
strncmp_eq_refl (suc n) s = rw (same (head_or_nul s)) (
    if_cases (λ r. r ≡ true) (head_or_nul s == 0) _ _ (λ _. refl)
      (λ _. strncmp_eq_refl n (tail_of s)))

copied-IsShown : (d : DeviceDescriptor) → IsShown d (copy_descriptor d)
unfolding copy_descriptor
copied-IsShown d = record {
  present_same = refl;
  rumble_same = refl;
  mode_same = refl;
  vendor_same = refl;
  product_same = refl;
  device_same = refl;
  name_same = strncmp_eq_refl 64 (fill_name d.name);
}

equal-IsShown :
    (d : DeviceDescriptor) (shown : Descriptor)
    → descriptor_equal shown (copy_descriptor d) ≡ true
    → IsShown d shown
unfolding descriptor_equal copy_descriptor
equal-IsShown d shown h =
    let device : eq_ℤ shown.device_id d.device_id ≡ true = ground (arith, h) in
    record {
      present_same = ground (arith, h);
      rumble_same = ground (arith, h);
      mode_same = ground (arith, h);
      vendor_same = ground (arith, h);
      product_same = ground (arith, h);
      device_same = eq_ℤ→eq shown.device_id d.device_id device;
      name_same = ground (arith, h);
    }

-- A message of this version is applied without an error, and its descriptor is shown then.
apply_hotplug-Shows :
    (m : HotplugMessage) (g : Gamepad)
    → (m.magic == hotplug_magic) && (m.version == control_version) ≡ true
    → let (status, g') = apply_hotplug m g in (is_nonneg status ≡ true) × Shows m.descriptor g'
unfolding apply_hotplug
apply_hotplug-Shows m g known = rw known (
    if_cases Fits (descriptor_equal g.descriptor d) _ _
      (λ old. (refl, equal-IsShown m.descriptor g.descriptor old))
      (λ _. (
        refl,
        if_cases (Shows m.descriptor) (d.present == 0) _ _ (λ _. shown closed (rest.0))
            (λ _.
              shown (open_event_stream closed).1 (open_event_stream_descriptor closed ∙ rest.0)),
      )))
  where
    d : Descriptor
    d = copy_descriptor m.descriptor

    closed : Gamepad
    closed = close_event_stream (record g { descriptor = d })

    Fits : ℤ × Gamepad → Type 0
    Fits r = (is_nonneg r.0 ≡ true) × Shows m.descriptor r.1

    rest : (closed.descriptor ≡ d) × (closed.monitor_buffer ≡ g.monitor_buffer)
    rest = close_event_stream_rest (record g { descriptor = d })

    shown : (g' : Gamepad) → g'.descriptor ≡ d → Shows m.descriptor g'
    shown g' e = subst (IsShown m.descriptor) (sym e) (copied-IsShown m.descriptor)

abbrev IsPiece : List ℕ → Type 0
IsPiece bytes = 0 < length bytes

monitor_bytes_kept :
    (bytes : List ℕ) (g : Gamepad)
    → length g.monitor_buffer + length bytes < hotplug_message_size
    → monitor_bytes bytes g ≡ (pos 0, record g { monitor_buffer = g.monitor_buffer ++ bytes })
unfolding monitor_bytes
monitor_bytes_kept bytes g short =
    let whole = take_all (hotplug_message_size - length g.monitor_buffer) bytes (omega arith) in
    let size = length-append g.monitor_buffer bytes in
    rw whole (
      if_false (length (g.monitor_buffer ++ bytes) == hotplug_message_size) _ _
        (ground (arith, size)))

abbrev applied : List ℕ → Gamepad → ℤ × Gamepad
applied bytes g =
    let (status, g') = apply_hotplug (decode_hotplug bytes) (record g { monitor_buffer = bytes }) in
    (status, record g' { monitor_buffer = [] })

monitor_bytes-applied :
    (bytes : List ℕ) (g : Gamepad)
    → length g.monitor_buffer + length bytes ≡ hotplug_message_size
    → monitor_bytes bytes g ≡ applied (g.monitor_buffer ++ bytes) g
unfolding monitor_bytes
monitor_bytes-applied bytes g full =
    let whole =
      take_all (hotplug_message_size - length g.monitor_buffer) bytes (omega (arith, full)) in
    let size = length-append g.monitor_buffer bytes in
    rw whole (
      if_true (length (g.monitor_buffer ++ bytes) == hotplug_message_size) _ _
        (ground (arith, size, full)))

monitor_loop_step :
    (x : ℕ) (bytes : List ℕ) (rest : List RecvAnswer) (changed : Bool) (g : Gamepad)
    (r : ℤ × Gamepad)
    → monitor_bytes (x ∷ bytes) g ≡ r
    → is_nonneg r.0 ≡ true
    → monitor_loop (got (x ∷ bytes) ∷ rest) changed g
      ≡ monitor_loop rest (changed || not (eq_ℤ r.0 (pos 0))) r.1
unfolding monitor_loop
monitor_loop_step x bytes rest changed g r e fine = rw (e, fine) refl

is_nonneg-changed : (changed : Bool) → is_nonneg (changed_to_int changed) ≡ true
is_nonneg-changed true = refl
is_nonneg-changed false = refl

-- What is returned when the message of some bytes has been taken in.
abbrev TookIn : DeviceDescriptor → ℤ × Gamepad → Type 0
TookIn d (status, g) = (is_nonneg status ≡ true) × (g.monitor_buffer ≡ []) × Shows d g

abbrev is_known : HotplugMessage → Bool
is_known m = (m.magic == hotplug_magic) && (m.version == control_version)

-- The message that is waited for comes in pieces, of which the first fill the buffer so far.
monitor_loop_takes :
    (bytes : List ℕ) (pieces : List (List ℕ)) (changed : Bool) (g : Gamepad)
    → length bytes ≡ hotplug_message_size
    → is_known (decode_hotplug bytes) ≡ true
    → g.monitor_buffer ++ joined pieces ≡ bytes
    → length g.monitor_buffer < hotplug_message_size
    → All IsPiece pieces
    → TookIn (decode_hotplug bytes).descriptor (monitor_loop (map got pieces) changed g)
unfolding monitor_loop
monitor_loop_takes bytes [] changed g size known whole short v =
    absurd (omega (arith, size, ap length whole, length-append g.monitor_buffer [], short))
monitor_loop_takes bytes ([] ∷ rest) changed g size known whole short v =
    absurd (omega (arith, v.0))
monitor_loop_takes bytes ((x ∷ piece) ∷ []) changed g size known whole short v =
    let all : g.monitor_buffer ++ (x ∷ piece) ≡ bytes =
      ap (◌++◌ g.monitor_buffer) (sym (append-nil (x ∷ piece))) ∙ whole in
    let full : length g.monitor_buffer + length (x ∷ piece) ≡ hotplug_message_size =
      omega (arith, size, ap length all, length-append g.monitor_buffer (x ∷ piece)) in
    let e = monitor_bytes-applied (x ∷ piece) g full ∙ ap (λ bs. applied bs g) all in
    let (fine, shown) =
      apply_hotplug-Shows (decode_hotplug bytes) (record g { monitor_buffer = bytes }) known in
    subst (TookIn (decode_hotplug bytes).descriptor)
      (sym (monitor_loop_step x piece [] changed g (applied bytes g) e fine))
      (is_nonneg-changed _, refl, shown)
monitor_loop_takes bytes ((x ∷ piece) ∷ next ∷ rest) changed g size known whole short v =
    let buffer = g.monitor_buffer ++ (x ∷ piece) in
    let g' : Gamepad = record g { monitor_buffer = buffer } in
    let cut : buffer ++ joined (next ∷ rest) ≡ bytes =
      append_assoc g.monitor_buffer (x ∷ piece) (joined (next ∷ rest)) ∙ whole in
    let grown = length-append g.monitor_buffer (x ∷ piece) in
    let room : length buffer < hotplug_message_size = omega (
      arith,
      size,
      ap length cut,
      length-append buffer (joined (next ∷ rest)),
      length-append next (joined rest),
      v.1.0,
    ) in
    let e = monitor_bytes_kept (x ∷ piece) g (omega (arith, grown, room)) in
    subst (TookIn (decode_hotplug bytes).descriptor)
      (sym (monitor_loop_step x piece (map got (next ∷ rest)) changed g (pos 0, g') e refl))
      (monitor_loop_takes bytes (next ∷ rest) _ g' size known cut room v.1)

-- `termux_gamepad_refresh` takes in a hotplug message of the bridge, in whatever pieces it comes:
-- it returns no error, nothing of the message is left in the buffer, and the handle has the
-- presence, the mode, the vendor, product and device numbers, the rumble capability and the name
-- (as a C string) that the bridge sent. The monitor is open and no part of an earlier message
-- waits; the message is of this version, its fields fit their C types, and no piece is empty.
pub refresh-Shows :
    (m : HotplugMessage) (pieces : List (List ℕ)) (g : Gamepad)
    → is_nonneg g.monitor_fd ≡ true
    → g.monitor_buffer ≡ []
    → IsHotplug m
    → is_known m ≡ true
    → All IsPiece pieces
    → joined pieces ≡ encode_hotplug m
    → let (status, g') = refresh (map got pieces) g in
      (is_nonneg status ≡ true) × (g'.monitor_buffer ≡ []) × Shows m.descriptor g'
unfolding refresh
refresh-Shows m pieces g listens empty v known cut bytes =
    let same = decode_hotplug-encode_hotplug m v in
    rw listens (
      subst (λ (m' : HotplugMessage). TookIn m'.descriptor (monitor_loop (map got pieces) false g))
        same
        (monitor_loop_takes (encode_hotplug m) pieces false g
          (length-encode_hotplug m v.descriptor_fits.name_size) (ap is_known same ∙ known)
          (ap (λ b. b ++ joined pieces) empty ∙ bytes) (omega (arith, ap length empty)) cut))
