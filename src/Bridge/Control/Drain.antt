-- ===== src/Bridge/Control/Drain.antt =====
-- The loop of `receive_control_messages` in src/lorie_evdev_bridge.c, and the fuel it is given.
use termux_gamepad.Prelude.{
  ℕ, zero, suc, ◌+◌, ◌-◌, ◌*◌, ◌≤◌, ◌<◌, ◌≡◌, refl, arith, Bool, true, false, List, [], ◌∷◌, ◌++◌,
  length, length-append, length-drop, length-take, take, drop, ltb, ◌==◌, if_cases,
}
use termux_gamepad.Wire.{decode_control, control_message_size}
use termux_gamepad.Bridge.State.{
  Bridge, Client, RecvResult, got, recv_again, recv_interrupted, recv_failed, client_at,
  with_client, control_buffer_size,
}
use termux_gamepad.Bridge.Os.{in_world}
use termux_gamepad.Bridge.Control.{
  recv, take_message, is_valid_control, control_loop, control_fuel, receive_answer,
  receive_control_messages,
}
use termux_gamepad.Bridge.Control.Pending.{pending, at_set, pending-handle_message}

pending-take_message :
    (i : ℕ) (b : Bridge)
    → (take_message i b).0 ≡ true
    → control_message_size ≤ pending i b
    → pending i (take_message i b).1 + control_message_size ≤ pending i b
unfolding take_message
pending-take_message i b accepted enough =
    if_cases
      (λ (r : Bool × Bridge). r.0 ≡ true → pending i r.1 + control_message_size ≤ pending i b)
      (is_valid_control (decode_control c.control)) _ _
      (λ _ _. omega (
        arith,
        pending-handle_message i (decode_control c.control)
            (with_client b i (record c { control = rest })),
        at_set b.clients i (record c { control = rest }),
        length-drop control_message_size c.control,
      ))
      (λ _ h. cc) accepted
  where
    c : Client
    c = client_at b i

    rest : List ℕ
    rest = drop control_message_size c.control

Drained : ℕ → Bool × Bridge → Type 0
Drained i r = r.0 ≡ true → pending i r.1 < control_message_size

after_message-Drained :
    (continue : Bridge → Bool × Bridge) (i : ℕ) (r : Bool × Bridge)
    → (r.0 ≡ true → Drained i (continue r.1))
    → Drained i (elim r.0 [ true ↦ continue r.1 | false ↦ (false, r.1) ])
unfolding Drained
after_message-Drained continue i (true, b) h = h refl
after_message-Drained continue i (false, b) h = λ e. cc

control_loop-Drained :
    (fuel i : ℕ) (b : Bridge)
    → pending i b < control_message_size * fuel
    → Drained i (control_loop fuel i b)
unfolding control_loop
control_loop-Drained zero i b h = absurd (omega arith)
control_loop-Drained (suc fuel) i b h =
    if_cases (Drained i) (ltb (pending i b) control_message_size) _ _
      (λ small. unfold Drained in λ _. ground arith)
      (λ large. after_message-Drained (control_loop fuel i) i (take_message i b) λ accepted.
        control_loop-Drained fuel i _
          (omega (arith, pending-take_message i b accepted (ground arith))))

receive_answer-Drained :
    (answer : RecvResult) (i : ℕ) (b : Bridge)
    → pending i b < control_message_size
    → Drained i (receive_answer answer i b)
unfolding receive_answer Drained
receive_answer-Drained recv_again i b h = λ _. h
receive_answer-Drained recv_interrupted i b h = λ _. h
receive_answer-Drained recv_failed i b h = λ e. cc
receive_answer-Drained (got []) i b h = λ e. cc
receive_answer-Drained (got (x ∷ bytes)) i b h = control_loop-Drained control_fuel i _ few
  where
    c : Client
    c = client_at b i

    kept : List ℕ
    kept = take (control_buffer_size - length c.control) (x ∷ bytes)

    few :
        pending i (with_client b i (record c { control = c.control ++ kept }))
        < control_message_size * control_fuel
    few = omega (
      arith,
      at_set b.clients i (record c { control = c.control ++ kept }),
      length-append c.control kept,
      length-take (control_buffer_size - length c.control) (x ∷ bytes),
    )

-- If a call keeps the connection, less than a whole message is left in the client's buffer,
-- whatever the client sent, provided that this was so before: the loop's fuel never stops it.
pub receive_control_messages_drains :
    (i : ℕ) (b : Bridge)
    → pending i b < control_message_size
    → (receive_control_messages i b).0 ≡ true
    → pending i (receive_control_messages i b).1 < control_message_size
unfolding receive_control_messages Drained
receive_control_messages_drains i b h =
    if_cases (Drained i) (pending i b == control_buffer_size) _ _ (λ _ e. cc)
      (λ _. receive_answer-Drained (recv b.world).0 i (in_world b (recv b.world).1) h)
