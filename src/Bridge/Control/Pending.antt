-- ===== src/Bridge/Control/Pending.antt =====
-- How much of a client's control buffer in src/lorie_evdev_bridge.c each call leaves.
use termux_gamepad.Prelude.{
  ℕ, zero, suc, ◌-◌, ◌≤◌, ◌≡◌, refl, ap, ◌∙◌, arith, Bool, true, false, not, ◌&&◌, List, [], ◌∷◌,
  ◌++◌, length, ltb, ◌==◌, if_cases, get_or, set,
}
use termux_gamepad.Wire.{
  ControlMessage, encode_descriptor, control_rumble, control_stop_rumble, control_query_descriptor,
  control_monitor,
}
use termux_gamepad.Bridge.State.{
  Bridge, Client, client_at, with_client, free_client, client_buffer_size, events, monitor,
}
use termux_gamepad.Bridge.Os.{in_world, monotonic_ms}
use termux_gamepad.Bridge.Rumble.{
  Mix, mix_client, mix_clients, silence, update_rumble, release_slot, close_client,
  close_on_failure, is_rumbling,
}
use termux_gamepad.Bridge.Queue.{flush_client, queue_bytes, queue_events}
use termux_gamepad.Bridge.Input.{send_snapshot}
use termux_gamepad.Bridge.Control.{
  start_rumble, stop_rumble, query_descriptor, start_monitor, handle_message,
}
use termux_gamepad.Bridge.Invariant.Mixing.{apply_mix_clients}

abbrev pub pending : ℕ → Bridge → ℕ
pending i b = length (client_at b i).control

pub at_set :
    (cs : List Client) (i : ℕ) (c : Client)
    → length (get_or (set cs i c) i free_client).control ≤ length c.control
at_set [] i c = omega arith
at_set (x ∷ cs) zero c = omega arith
at_set (x ∷ cs) (suc i) c = at_set cs i c

mix_client_control : (now : ℕ) (c : Client) (m : Mix) → (mix_client now c m).1.control ≡ c.control
unfolding mix_client
mix_client_control now c m = ground arith

mix_clients_control :
    (now : ℕ) (cs : List Client) (m : Mix) (i : ℕ)
    → (get_or (mix_clients now cs m).1 i free_client).control ≡ (get_or cs i free_client).control
unfolding mix_clients
mix_clients_control now [] m i = refl
mix_clients_control now (c ∷ cs) m zero = mix_client_control now c m
mix_clients_control now (c ∷ cs) m (suc i) = mix_clients_control now cs (mix_client now c m).0 i

pub pending-update_rumble :
    (force : Bool) (i : ℕ) (b : Bridge) → pending i (update_rumble force b) ≡ pending i b
unfolding update_rumble
pending-update_rumble force i b =
    let (now, w) = monotonic_ms b.world in
    let (m, cs) = mix_clients now b.clients silence in
    ap (λ (l : List Client). length (get_or l i free_client).control)
      (apply_mix_clients force m (record b { clients = cs; world = w }))
    ∙ ap length (mix_clients_control now b.clients silence i)

pub pending-close_client : (i : ℕ) (b : Bridge) → pending i (close_client i b) ≡ 0
unfolding close_client
pending-close_client i b =
    let freed : pending i (release_slot i b) ≡ 0 = omega (arith, at_set b.clients i free_client) in
    if_cases (λ (b' : Bridge). pending i b' ≡ 0) (is_rumbling (client_at b i) && b.x_display) _ _
      (λ _. pending-update_rumble true i (release_slot i b) ∙ freed) (λ _. freed)

pending-flush_client : (i : ℕ) (b : Bridge) → pending i (flush_client i b).1 ≤ pending i b
unfolding flush_client
pending-flush_client i b = at_set b.clients i _

pending-queue_bytes :
    (i : ℕ) (bytes : List ℕ) (b : Bridge) → pending i (queue_bytes i bytes b).1 ≤ pending i b
unfolding queue_bytes
pending-queue_bytes i bytes b =
    let c = client_at b i in
    let queued : Client = record c { output = c.output ++ bytes } in
    if_cases (λ (r : Bool × Bridge). pending i r.1 ≤ pending i b)
      (ltb (client_buffer_size - length c.output) (length bytes)) _ _ (λ _. omega arith)
      (λ _.
        omega (arith, pending-flush_client i (with_client b i queued), at_set b.clients i queued))

pending-close_on_failure :
    (i : ℕ) (r : Bool × Bridge) → pending i (close_on_failure i r) ≤ pending i r.1
unfolding close_on_failure
pending-close_on_failure i (true, b) = omega arith
pending-close_on_failure i (false, b) = omega (arith, pending-close_client i b)

pending-send_snapshot : (i : ℕ) (b : Bridge) → pending i (send_snapshot i b) ≤ pending i b
unfolding send_snapshot queue_events
pending-send_snapshot i b = omega (
  arith,
  pending-close_on_failure i (queue_bytes i _ (in_world b _)),
  pending-queue_bytes i _ (in_world b _),
)

abbrev pub NoMore : ℕ → Bridge → Bool × Bridge → Type 0
NoMore i b r = pending i r.1 ≤ pending i b

pub pending-with_client :
    (i : ℕ) (b : Bridge) (c : Client)
    → length c.control ≤ pending i b
    → pending i (with_client b i c) ≤ pending i b
pending-with_client i b c h = omega (arith, at_set b.clients i c, h)

pending-start_rumble : (i : ℕ) (m : ControlMessage) (b : Bridge) → NoMore i b (start_rumble i m b)
unfolding start_rumble
pending-start_rumble i m b =
    rw (pending-update_rumble true i) (pending-with_client i b _ (omega arith))

pending-stop_rumble : (i : ℕ) (b : Bridge) → NoMore i b (stop_rumble i b)
unfolding stop_rumble
pending-stop_rumble i b =
    rw (pending-update_rumble true i) (pending-with_client i b _ (omega arith))

pending-query_descriptor : (i : ℕ) (b : Bridge) → NoMore i b (query_descriptor i b)
unfolding query_descriptor
pending-query_descriptor i b =
    if_cases (NoMore i b) (not sent.0) _ _ (λ _. after)
      λ _.
        if_cases (NoMore i b) (sent.1.descriptor.present == 0) _ _ (λ _. after)
          λ _. omega (arith, pending-send_snapshot i sent.1, after)
  where
    c : Client
    c = client_at b i

    marked : Bridge
    marked = with_client b i (record c { kind = events })

    sent : Bool × Bridge
    sent = queue_bytes i (encode_descriptor b.descriptor) marked

    after : NoMore i b sent
    after = omega (
      arith,
      pending-queue_bytes i (encode_descriptor b.descriptor) marked,
      at_set b.clients i (record c { kind = events }),
    )

pending-start_monitor : (i : ℕ) (b : Bridge) → NoMore i b (start_monitor i b)
unfolding start_monitor
pending-start_monitor i b =
    let c = client_at b i in
    omega (
      arith,
      pending-queue_bytes i _ (with_client b i (record c { kind = monitor })),
      at_set b.clients i (record c { kind = monitor }),
    )

pub pending-handle_message :
    (i : ℕ) (m : ControlMessage) (b : Bridge) → NoMore i b (handle_message i m b)
unfolding handle_message
pending-handle_message i m b =
    if_cases (NoMore i b) (m.command == control_rumble) _ _ (λ _. pending-start_rumble i m b)
      λ _.
        if_cases (NoMore i b) (m.command == control_stop_rumble) _ _ (λ _. pending-stop_rumble i b)
          λ _.
            if_cases (NoMore i b) (m.command == control_query_descriptor) _ _
              (λ _. pending-query_descriptor i b)
              λ _.
                if_cases (NoMore i b) (m.command == control_monitor) _ _
                  (λ _. pending-start_monitor i b) (λ _. omega arith)

-- A message that is accepted takes its sixteen bytes off the buffer.
