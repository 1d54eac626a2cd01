-- ===== src/Bridge/Invariant/Messages.antt =====
-- The table and the mix over control messages in src/lorie_evdev_bridge.c.
use termux_gamepad.Prelude.{
  ℕ, zero, suc, ◌-◌, ◌≤◌, ◌<◌, ◌≡◌, refl, ◌∙◌, arith, Bool, true, false, not, List, [], ◌∷◌, ◌++◌,
  length, length-append, length-drop, length-take, take, drop, ltb, ◌==◌, if_cases, Bool-cases, inl,
  inr, is_nonneg,
}
use termux_gamepad.Wire.{
  ControlMessage, encode_descriptor, decode_control, control_rumble, control_stop_rumble,
  control_query_descriptor, control_monitor, control_message_size,
}
use termux_gamepad.Bridge.State.{
  Bridge, RecvResult, got, recv_again, recv_interrupted, recv_failed, client_at, with_client,
  control_buffer_size, events, monitor, ClientKind,
}
use termux_gamepad.Bridge.Os.{in_world}
use termux_gamepad.Bridge.Queue.{queue_bytes}
use termux_gamepad.Bridge.Control.{
  start_rumble, stop_rumble, query_descriptor, start_monitor, handle_message, take_message,
  control_loop, control_fuel, recv, receive_answer, receive_control_messages, is_valid_control,
}
use termux_gamepad.Bridge.Invariant.{IsServing, core, IsOpen, with_client-IsOpen}
use termux_gamepad.Bridge.Invariant.Mixing.{
  with_client-IsServing, with_client-IsTable, in_world-IsServing, client_at-IsSlot,
  IsTable-of_serving, update_rumble-IsServing, core-update_rumble,
}
use termux_gamepad.Bridge.Invariant.Queues.{queue_bytes-IsServing, core-queue_bytes}
use termux_gamepad.Bridge.Invariant.Serving.{send_snapshot-IsServing, core-send_snapshot}

-- A handler's result keeps what `P` says of the bridge it returns.
abbrev pub Leaves : Bridge → Bool × Bridge → Type 0
Leaves b r = IsServing r.1 × (core r.1 ≡ core b)

start_rumble-Leaves :
    (i : ℕ) (m : ControlMessage) (b : Bridge)
    → IsOpen b i
    → IsServing b
    → Leaves b (start_rumble i m b)
unfolding start_rumble
start_rumble-Leaves i m b held v =
    let slot = client_at-IsSlot b i v.slots in
    (
      update_rumble-IsServing true _ (
          with_client-IsTable (in_world b _) i _
            (IsTable-of_serving (in_world b _) (in_world-IsServing b _ v))
            (record {
              output_fits = slot.output_fits;
              control_fits = slot.control_fits;
              free_silent = λ e. cc;
            })),
      core-update_rumble true _,
    )

stop_rumble-Leaves : (i : ℕ) (b : Bridge) → IsServing b → Leaves b (stop_rumble i b)
unfolding stop_rumble
stop_rumble-Leaves i b v =
    let slot = client_at-IsSlot b i v.slots in
    (
      update_rumble-IsServing true _ (
          with_client-IsTable b i _ (IsTable-of_serving b v) (record {
            output_fits = slot.output_fits;
            control_fits = slot.control_fits;
            free_silent = λ e. (refl, refl, (slot.free_silent e).2);
          })),
      core-update_rumble true _,
    )

with_kind-IsServing :
    (i : ℕ) (k : ClientKind) (b : Bridge)
    → IsServing b
    → IsServing (with_client b i (record (client_at b i) { kind = k }))
with_kind-IsServing i k b v =
    let slot = client_at-IsSlot b i v.slots in
    with_client-IsServing b i _ v
      (record {
        output_fits = slot.output_fits;
        control_fits = slot.control_fits;
        free_silent = slot.free_silent;
      })
      refl refl

query_descriptor-Leaves : (i : ℕ) (b : Bridge) → IsServing b → Leaves b (query_descriptor i b)
unfolding query_descriptor
query_descriptor-Leaves i b v =
    if_cases (Leaves b) (not sent.0) _ _ (λ _. after)
      λ _.
        if_cases (Leaves b) (sent.1.descriptor.present == 0) _ _ (λ _. after)
          λ _. (send_snapshot-IsServing i sent.1 after.0, core-send_snapshot i sent.1 ∙ after.1)
  where
    marked : Bridge
    marked = with_client b i (record (client_at b i) { kind = events })

    sent : Bool × Bridge
    sent = queue_bytes i (encode_descriptor b.descriptor) marked

    after : Leaves b sent
    after = (
      queue_bytes-IsServing i _ marked (with_kind-IsServing i events b v),
      core-queue_bytes i (encode_descriptor b.descriptor) marked,
    )

start_monitor-Leaves : (i : ℕ) (b : Bridge) → IsServing b → Leaves b (start_monitor i b)
unfolding start_monitor
start_monitor-Leaves i b v =
    (queue_bytes-IsServing i _ _ (with_kind-IsServing i monitor b v), core-queue_bytes i _ _)

handle_message-Leaves :
    (i : ℕ) (m : ControlMessage) (b : Bridge)
    → IsOpen b i
    → IsServing b
    → Leaves b (handle_message i m b)
unfolding handle_message
handle_message-Leaves i m b held v =
    if_cases (Leaves b) (m.command == control_rumble) _ _ (λ _. start_rumble-Leaves i m b held v)
      λ _.
        if_cases (Leaves b) (m.command == control_stop_rumble) _ _ (λ _. stop_rumble-Leaves i b v)
          λ _.
            if_cases (Leaves b) (m.command == control_query_descriptor) _ _
              (λ _. query_descriptor-Leaves i b v)
              λ _.
                if_cases (Leaves b) (m.command == control_monitor) _ _
                  (λ _. start_monitor-Leaves i b v) (λ _. (v, refl))

with_control-IsServing :
    (i : ℕ) (bytes : List ℕ) (b : Bridge)
    → IsOpen b i
    → length bytes ≤ control_buffer_size
    → IsServing b
    → IsServing (with_client b i (record (client_at b i) { control = bytes }))
with_control-IsServing i bytes b held fits v =
    let slot = client_at-IsSlot b i v.slots in
    with_client-IsServing b i _ v
      (record { output_fits = slot.output_fits; control_fits = fits; free_silent = λ e. cc }) refl
      refl

take_message-Leaves : (i : ℕ) (b : Bridge) → IsOpen b i → IsServing b → Leaves b (take_message i b)
unfolding take_message
take_message-Leaves i b held v =
    let c = client_at b i in
    let rest = drop control_message_size c.control in
    let slot = client_at-IsSlot b i v.slots in
    let shorter : length rest ≤ control_buffer_size =
      omega (arith, length-drop control_message_size c.control, slot.control_fits) in
    if_cases (Leaves b) (is_valid_control (decode_control c.control)) _ _
      (λ _.
        handle_message-Leaves i (decode_control c.control) _
          (with_client-IsOpen b i (record c { control = rest }) held held)
          (with_control-IsServing i rest b held shorter v))
      (λ _. (v, refl))

-- A slot with bytes in its control buffer is held.
held_of_control :
    (i : ℕ) (b : Bridge) → IsServing b → 0 < length (client_at b i).control → IsOpen b i
held_of_control i b v h = elim (Bool-cases (is_nonneg (client_at b i).fd)) [
  | inl held ↦ held
  | inr free ↦ absurd (omega (arith, ((client_at-IsSlot b i v.slots).free_silent free).2, h))
]

after_message-Leaves :
    (continue : Bridge → Bool × Bridge) (b : Bridge) (r : Bool × Bridge)
    → ((b' : Bridge) → IsServing b' → Leaves b' (continue b'))
    → Leaves b r
    → Leaves b (elim r.0 [ true ↦ continue r.1 | false ↦ (false, r.1) ])
after_message-Leaves continue b (true, b') go (v, e) = let (v', e') = go b' v in (v', e' ∙ e)
after_message-Leaves continue b (false, b') go h = h

control_loop-Leaves : (fuel i : ℕ) (b : Bridge) → IsServing b → Leaves b (control_loop fuel i b)
unfolding control_loop
control_loop-Leaves zero i b v = (v, refl)
control_loop-Leaves (suc fuel) i b v =
    if_cases (Leaves b) (ltb (length (client_at b i).control) control_message_size) _ _
      (λ _. (v, refl))
      (λ h.
        after_message-Leaves (control_loop fuel i) b (take_message i b) (control_loop-Leaves fuel i)
          (take_message-Leaves i b (held_of_control i b v (ground arith)) v))

receive_answer-Leaves :
    (answer : RecvResult) (i : ℕ) (b : Bridge)
    → IsOpen b i
    → IsServing b
    → Leaves b (receive_answer answer i b)
unfolding receive_answer
receive_answer-Leaves recv_again i b held v = (v, refl)
receive_answer-Leaves recv_interrupted i b held v = (v, refl)
receive_answer-Leaves recv_failed i b held v = (v, refl)
receive_answer-Leaves (got []) i b held v = (v, refl)
receive_answer-Leaves (got (x ∷ bytes)) i b held v =
    control_loop-Leaves control_fuel i _ (with_control-IsServing i _ b held fits v)
  where
    old : List ℕ
    old = (client_at b i).control

    fits : length (old ++ take (control_buffer_size - length old) (x ∷ bytes)) ≤ control_buffer_size
    fits = omega (
      arith,
      length-append old (take (control_buffer_size - length old) (x ∷ bytes)),
      length-take (control_buffer_size - length old) (x ∷ bytes),
      (client_at-IsSlot b i v.slots).control_fits,
    )

pub receive_control_messages-Leaves :
    (i : ℕ) (b : Bridge) → IsOpen b i → IsServing b → Leaves b (receive_control_messages i b)
unfolding receive_control_messages
receive_control_messages-Leaves i b held v =
    if_cases (Leaves b) (length (client_at b i).control == control_buffer_size) _ _ (λ _. (v, refl))
      (λ _.
        receive_answer-Leaves (recv b.world).0 i (in_world b (recv b.world).1) held
          (in_world-IsServing b _ v))
