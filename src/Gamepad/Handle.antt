-- ===== src/Gamepad/Handle.antt =====
-- The handle of src/termux_gamepad.c: what it means that its two streams, its descriptor and its
-- state fit together, and the opening of its streams.
use termux_gamepad.Prelude.{
  ℕ, ◌<◌, ◌≡◌, refl, sym, ap, ◌∙◌, subst, arith, true, false, not, ◌&&◌, List, [], ℤ, ◌==◌,
  is_nonneg, if_cases, length,
}
use termux_gamepad.Wire.{
  HotplugMessage, hotplug_magic, control_version, input_event_size, hotplug_message_size,
  decode_descriptor, decode_hotplug, control_query_descriptor, control_monitor,
  device_descriptor_size,
}
use termux_gamepad.Gamepad.Net.{Dial}
use termux_gamepad.Gamepad.State.{Gamepad, Descriptor, PadState, reset_state, next_dial}
use termux_gamepad.Gamepad.Hotplug.{
  Answered, close_event_stream, ask_bridge, dialled, is_served, open_event_stream, copy_descriptor,
  descriptor_equal, apply_hotplug, open_monitor,
}

-- What the calls that only log leave alone.
pub record Held : Type 0 where
  pub event_fd : ℤ
  pub descriptor : Descriptor
  pub state : PadState
  pub event_buffer : List ℕ
  pub monitor_buffer : List ℕ

abbrev pub held : Gamepad → Held
held g = record {
  event_fd = g.event_fd;
  descriptor = g.descriptor;
  state = g.state;
  event_buffer = g.event_buffer;
  monitor_buffer = g.monitor_buffer;
}

-- A stream is open only for a gamepad that is present; with no stream the state is at rest; no
-- whole event waits.
pub record IsCoherent (h : Held) : Type 0 where
  pub served : is_nonneg h.event_fd ≡ true → (h.descriptor.present == 0) ≡ false
  pub at_rest : is_nonneg h.event_fd ≡ false → h.state ≡ reset_state
  pub event_waits : length h.event_buffer < input_event_size

abbrev pub Coherent : Gamepad → Type 0
Coherent g = IsCoherent (held g)

abbrev pub Within : ℕ → Gamepad → Type 0
Within n g = Coherent g × (length g.monitor_buffer < n)

-- No whole hotplug message waits either, so that `recv` is never called with no room.
abbrev pub Ready : Gamepad → Type 0
Ready g = Within hotplug_message_size g

kept : (g g' : Gamepad) → held g' ≡ held g → Coherent g → Coherent g'
kept g g' e c = subst IsCoherent (sym e) c

pub close_event_stream-Coherent : (g : Gamepad) → Coherent (close_event_stream g)
unfolding close_event_stream
close_event_stream-Coherent g = record {
  served = λ e. cc;
  at_rest = λ e. refl;
  event_waits = omega arith;
}

pub close_event_stream_rest :
    (g : Gamepad)
    → let g' = close_event_stream g in
      (g'.descriptor ≡ g.descriptor) × (g'.monitor_buffer ≡ g.monitor_buffer)
unfolding close_event_stream
close_event_stream_rest g =
    if_cases
      (λ (g' : Gamepad). (g'.descriptor ≡ g.descriptor) × (g'.monitor_buffer ≡ g.monitor_buffer))
      (is_nonneg g.event_fd) _ _ (λ _. (refl, refl)) (λ _. (refl, refl))

close_event_stream_state : (g : Gamepad) → (close_event_stream g).state ≡ reset_state
unfolding close_event_stream
close_event_stream_state g = refl

held-ask_bridge :
    (command size : ℕ) (dial : Dial) (g : Gamepad)
    → held (ask_bridge command size dial g).gamepad ≡ held g
unfolding ask_bridge
held-ask_bridge command size dial g = ground arith

pub open_event_stream_descriptor : (g : Gamepad) → (open_event_stream g).1.descriptor ≡ g.descriptor
unfolding open_event_stream
open_event_stream_descriptor g =
    let same = λ (r : ℤ × Gamepad). r.1.descriptor ≡ g.descriptor in
    if_cases same (not (is_nonneg a.fd)) _ _ (λ _. asked)
      λ _.
        if_cases same (not (is_nonneg a.status)) _ _ (λ _. asked)
          λ _.
            if_cases same (not (is_served (decode_descriptor a.reply))) _ _ (λ _. asked)
              λ _.
                if_cases same (not (is_nonneg dial.nonblocking)) _ _ (λ _. asked)
                  λ _. (close_event_stream_rest a.gamepad).0 ∙ asked
  where
    dial : Dial
    dial = next_dial g.dials

    a : Answered
    a = ask_bridge control_query_descriptor device_descriptor_size dial (dialled g)

    asked : a.gamepad.descriptor ≡ g.descriptor
    asked =
        ap (λ (h : Held). h.descriptor)
          (held-ask_bridge control_query_descriptor device_descriptor_size dial (dialled g))

-- Whatever comes of the attempt, the handle stays coherent, if the gamepad is present.
pub open_event_stream-Within :
    (n : ℕ) (g : Gamepad)
    → (g.descriptor.present == 0) ≡ false
    → Within n g
    → Within n (open_event_stream g).1
unfolding open_event_stream
open_event_stream-Within n g present (c, m) =
    let good = λ (r : ℤ × Gamepad). Within n r.1 in
    if_cases good (not (is_nonneg a.fd)) _ _ (λ _. asked)
      λ _.
        if_cases good (not (is_nonneg a.status)) _ _ (λ _. asked)
          λ _.
            if_cases good (not (is_served (decode_descriptor a.reply))) _ _ (λ _. asked)
              λ _. if_cases good (not (is_nonneg dial.nonblocking)) _ _ (λ _. asked) λ _. opened
  where
    dial : Dial
    dial = next_dial g.dials

    a : Answered
    a = ask_bridge control_query_descriptor device_descriptor_size dial (dialled g)

    same : held a.gamepad ≡ held g
    same = held-ask_bridge control_query_descriptor device_descriptor_size dial (dialled g)

    asked : Within n a.gamepad
    asked = (kept g a.gamepad same c, rw (ap (λ (h : Held). length h.monitor_buffer) same) m)

    opened : Within n (record (close_event_stream a.gamepad) { event_fd = a.fd })
    opened =
        let (descriptor, monitor) = close_event_stream_rest a.gamepad in
        let closed = close_event_stream-Coherent a.gamepad in
        (
          record {
            served = λ e.
                rw
                  (ap (λ (d : Descriptor). d.present == 0)
                    (descriptor ∙ ap (λ (h : Held). h.descriptor) same))
                  present;
            at_rest = λ e. close_event_stream_state a.gamepad;
            event_waits = closed.event_waits;
          },
          rw (ap length monitor) asked.1,
        )

-- A message with the monitor's buffer at any filling; the buffer is left as it is.
pub apply_hotplug-Within :
    (n : ℕ) (m : HotplugMessage) (g : Gamepad) → Within n g → Within n (apply_hotplug m g).1
unfolding apply_hotplug
apply_hotplug-Within n m g (c, short) =
    let good = λ (r : ℤ × Gamepad). Within n r.1 in
    if_cases good (not ((m.magic == hotplug_magic) && (m.version == control_version))) _ _
      (λ _. (c, short))
      λ _.
        if_cases good (descriptor_equal g.descriptor (copy_descriptor m.descriptor)) _ _
          (λ _. (c, short))
          λ _.
            if_cases (Within n) ((copy_descriptor m.descriptor).present == 0) _ _ (λ _. closed)
              λ present.
                open_event_stream-Within n g'
                  (rw (ap (λ (d : Descriptor). d.present == 0) (close_event_stream_rest changed).0)
                    present)
                  closed
  where
    changed : Gamepad
    changed = record g { descriptor = copy_descriptor m.descriptor }

    g' : Gamepad
    g' = close_event_stream changed

    closed : Within n g'
    closed = (
      close_event_stream-Coherent changed,
      rw (ap length (close_event_stream_rest changed).1) short,
    )

pub open_monitor-Ready : (g : Gamepad) → Ready g → Ready (open_monitor g).1
unfolding open_monitor
open_monitor-Ready g (c, short) =
    let good = λ (r : ℤ × Gamepad). Ready r.1 in
    if_cases good (not (is_nonneg a.fd)) _ _ (λ _. asked)
      λ _.
        if_cases good (not (is_nonneg a.status)) _ _ (λ _. asked)
          λ _.
            if_cases good (not (is_nonneg dial.nonblocking)) _ _ (λ _. asked)
              λ _.
                apply_hotplug-Within hotplug_message_size (decode_hotplug a.reply) joined
                  (fresh_monitor asked.0)
  where
    dial : Dial
    dial = next_dial g.dials

    a : Answered
    a = ask_bridge control_monitor hotplug_message_size dial (dialled g)

    same : held a.gamepad ≡ held g
    same = held-ask_bridge control_monitor hotplug_message_size dial (dialled g)

    joined : Gamepad
    joined = record a.gamepad { monitor_fd = a.fd; monitor_buffer = [] }

    asked : Ready a.gamepad
    asked = (kept g a.gamepad same c, rw (ap (λ (h : Held). length h.monitor_buffer) same) short)

    fresh_monitor : Coherent a.gamepad → Ready joined
    fresh_monitor c' = (
      record { served = c'.served; at_rest = c'.at_rest; event_waits = c'.event_waits },
      omega arith,
    )
