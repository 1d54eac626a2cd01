-- ===== src/Gamepad/Coherence.antt =====
-- `termux_gamepad_refresh` of src/termux_gamepad.c on coherent handles.
use termux_gamepad.Prelude.{
  ℕ, suc, ◌-◌, ◌≤◌, ◌≡◌, ap, arith, Bool, true, false, not, ◌||◌, List, [], ◌∷◌, ◌++◌, ℤ, pos,
  negsuc, ◌==◌, eq_ℤ, is_nonneg, if_cases, length, length-append, length-take, take,
}
use termux_gamepad.Wire.{hotplug_message_size, decode_hotplug}
use termux_gamepad.Gamepad.Net.{RecvAnswer, got, recv_interrupted, recv_again, recv_fault, minus}
use termux_gamepad.Gamepad.State.{Gamepad}
use termux_gamepad.Gamepad.Hotplug.{
  log_closed, apply_hotplug, lose_monitor, monitor_bytes, monitor_loop, refresh, changed_to_int,
}
use termux_gamepad.Gamepad.Handle.{
  Coherent, Ready, close_event_stream-Coherent, close_event_stream_rest, apply_hotplug-Within,
  open_monitor-Ready,
}

-- Bytes that arrive, be they a whole message or not, leave less than a message.
monitor_bytes-Ready : (bytes : List ℕ) (g : Gamepad) → Ready g → Ready (monitor_bytes bytes g).1
unfolding monitor_bytes
monitor_bytes-Ready bytes g (c, short) =
    if_cases (λ (r : ℤ × Gamepad). Ready r.1) (length buffer == hotplug_message_size) _ _
      (λ full.
        (cleared (apply_hotplug (decode_hotplug buffer) grown).1 (applied full), omega arith))
      (λ waits. (regrown, ground (arith, fits)))
  where
    buffer : List ℕ
    buffer = g.monitor_buffer ++ take (hotplug_message_size - length g.monitor_buffer) bytes

    grown : Gamepad
    grown = record g { monitor_buffer = buffer }

    fits : length buffer ≤ hotplug_message_size
    fits = omega (
      arith,
      short,
      length-append g.monitor_buffer (take (hotplug_message_size - length g.monitor_buffer) bytes),
      length-take (hotplug_message_size - length g.monitor_buffer) bytes,
    )

    regrown : Coherent grown
    regrown = record { served = c.served; at_rest = c.at_rest; event_waits = c.event_waits }

    applied :
        (length buffer == hotplug_message_size) ≡ true
        → Coherent (apply_hotplug (decode_hotplug buffer) grown).1
    applied full =
        (apply_hotplug-Within (suc hotplug_message_size) (decode_hotplug buffer) grown
          (regrown, omega (arith, fits))).0

    cleared : (g' : Gamepad) → Coherent g' → Coherent (record g' { monitor_buffer = [] })
    cleared g' c' = record {
      served = c'.served;
      at_rest = c'.at_rest;
      event_waits = c'.event_waits;
    }

lose_monitor-Ready : (status : ℤ) (g : Gamepad) → Ready g → Ready (lose_monitor status g).1
unfolding lose_monitor
lose_monitor-Ready status g (c, short) =
    if_cases (λ (r : ℤ × Gamepad). Ready r.1) (g.descriptor.present == 0) _ _
      (λ _. (
        record { served = c.served; at_rest = c.at_rest; event_waits = c.event_waits },
        omega arith,
      ))
      (λ _. (
        close_event_stream-Coherent gone,
        rw (ap length (close_event_stream_rest gone).1) (omega arith),
      ))
  where
    lost : Gamepad
    lost = record (log_closed (g.monitor_fd ∷ []) g) { monitor_fd = negsuc 0; monitor_buffer = [] }

    gone : Gamepad
    gone = record lost { descriptor = record lost.descriptor { present = 0; device_id = negsuc 0 } }

monitor_loop-Ready :
    (answers : List RecvAnswer) (changed : Bool) (g : Gamepad)
    → Ready g
    → Ready (monitor_loop answers changed g).1
unfolding monitor_loop
monitor_loop-Ready [] changed g v = v
monitor_loop-Ready (got [] ∷ rest) changed g v = lose_monitor-Ready (changed_to_int changed) g v
monitor_loop-Ready (got (x ∷ bytes) ∷ rest) changed g v =
    let (applied, g') = monitor_bytes (x ∷ bytes) g in
    let v' = monitor_bytes-Ready (x ∷ bytes) g v in
    if_cases (λ (r : ℤ × Gamepad). Ready r.1) (is_nonneg applied) _ _
      (λ _. monitor_loop-Ready rest (changed || not (eq_ℤ applied (pos 0))) g' v') (λ _. v')
monitor_loop-Ready (recv_interrupted ∷ rest) changed g v = monitor_loop-Ready rest changed g v
monitor_loop-Ready (recv_again ∷ rest) changed g v = v
monitor_loop-Ready (recv_fault e ∷ rest) changed g v = lose_monitor-Ready (minus e) g v

pub refresh-Ready :
    (answers : List RecvAnswer) (g : Gamepad) → Ready g → Ready (refresh answers g).1
unfolding refresh
refresh-Ready answers g v =
    if_cases (λ (r : ℤ × Gamepad). Ready r.1) (is_nonneg g.monitor_fd) _ _
      (λ _. monitor_loop-Ready answers false g v) (λ _. open_monitor-Ready g v)
