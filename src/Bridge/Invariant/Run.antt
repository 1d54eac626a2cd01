-- ===== src/Bridge/Invariant/Run.antt =====
-- The table and the mix from the start to the end of `main` of src/lorie_evdev_bridge.c.
use termux_gamepad.Prelude.{
  ℕ, ◌≡◌, refl, sym, arith, Bool, true, false, not, List, [], ◌∷◌, Option, ℤ, pos, ◌==◌, if_cases,
  Bool-cases, inl, inr, is_nonneg, if◌then◌else◌, All, get_or,
}
use termux_gamepad.Bridge.State.{Bridge, Client, World, client_at, max_clients, free_client}
use termux_gamepad.Bridge.Queue.{flush_client}
use termux_gamepad.Bridge.Device.{XiDevice}
use termux_gamepad.Bridge.Server.{
  AcceptResult, accepted, accept_interrupted, accept_failed, free_slot, close_fd, admit_client,
  accept_clients, XEvent, hierarchy_changed, device_event, foreign, handle_x_event, pump_x_events,
  Revents, no_revents, serve_input, serve_client, Round, PollResult, ready, poll_interrupted,
  poll_failed, serve_round, run, start, first_search,
}
use termux_gamepad.Bridge.Invariant.{IsSlot, IsServing, IsOpen, with_client-IsOpen}
use termux_gamepad.Bridge.Invariant.Mixing.{
  with_client-IsServing, in_world-IsServing, close_client-IsServing, IsTable-of_serving,
  update_rumble-IsServing,
}
use termux_gamepad.Bridge.Invariant.Queues.{flush_client-IsServing, close_on_failure-IsServing}
use termux_gamepad.Bridge.Invariant.Serving.{
  for_clients_keeps, process_xi_event-IsServing, refresh_lorie_device-IsServing,
}
use termux_gamepad.Bridge.Invariant.Messages.{receive_control_messages-Leaves}

pub close_fd-IsServing : (fd : ℕ) (b : Bridge) → IsServing b → IsServing (close_fd fd b)
unfolding close_fd
close_fd-IsServing fd b v = in_world-IsServing b _ v

-- The slot that is taken is free, so it is silent.
get_or-free_slot :
    (cs : List Client)
    → All IsSlot cs
    → let c = get_or cs (free_slot cs) free_client in (c.rumble_low ≡ 0) × (c.rumble_high ≡ 0)
unfolding free_slot
get_or-free_slot [] v = (refl, refl)
get_or-free_slot (c ∷ cs) v = elim (Bool-cases (is_nonneg c.fd)) [
  | inl held ↦ rw held (get_or-free_slot cs v.1)
  | inr free ↦ let (low, high, control) = v.0.free_silent free in rw free (low, high)
]

pub admit_client-IsServing : (fd : ℕ) (b : Bridge) → IsServing b → IsServing (admit_client fd b)
unfolding admit_client
admit_client-IsServing fd b v =
    let (low, high) = get_or-free_slot b.clients v.slots in
    if_cases IsServing (free_slot b.clients == max_clients) _ _ (λ _. close_fd-IsServing fd b v)
      (λ _.
        with_client-IsServing b (free_slot b.clients) (record free_client { fd = pos fd }) v
          (ground arith) (sym low) (sym high))

pub accept_clients-IsServing :
    (answers : List AcceptResult) (b : Bridge) → IsServing b → IsServing (accept_clients answers b)
unfolding accept_clients
accept_clients-IsServing [] b v = v
accept_clients-IsServing (accepted fd true ∷ rest) b v =
    accept_clients-IsServing rest _ (admit_client-IsServing fd b v)
accept_clients-IsServing (accepted fd false ∷ rest) b v =
    accept_clients-IsServing rest _ (close_fd-IsServing fd b v)
accept_clients-IsServing (accept_interrupted ∷ rest) b v = accept_clients-IsServing rest b v
accept_clients-IsServing (accept_failed ∷ rest) b v = v

handle_x_event-IsServing : (e : XEvent) (b : Bridge) → IsServing b → IsServing (handle_x_event e b)
unfolding handle_x_event
handle_x_event-IsServing (hierarchy_changed devices selected) b v =
    refresh_lorie_device-IsServing devices selected b v
handle_x_event-IsServing (device_event e) b v = process_xi_event-IsServing e b.device_id b v
handle_x_event-IsServing foreign b v = v

pub pump_x_events-IsServing :
    (es : List XEvent) (b : Bridge) → IsServing b → IsServing (pump_x_events es b)
unfolding pump_x_events
pump_x_events-IsServing [] b v = v
pump_x_events-IsServing (e ∷ es) b v = pump_x_events-IsServing es _ (handle_x_event-IsServing e b v)

serve_input-IsServing :
    (r : Revents) (i : ℕ) (b : Bridge) → IsOpen b i → IsServing b → IsServing (serve_input r i b)
unfolding serve_input
serve_input-IsServing r i b held v =
    if_cases IsServing r.hang_up _ _ (λ _. close_client-IsServing i b v)
      λ _.
        if_cases IsServing r.input _ _
          (λ _. close_on_failure-IsServing i _ (receive_control_messages-Leaves i b held v).0)
          (λ _. v)

pub flush_client-IsOpen : (i : ℕ) (b : Bridge) → IsOpen b i → IsOpen (flush_client i b).1 i
unfolding flush_client
flush_client-IsOpen i b held = with_client-IsOpen b i _ held held

pub serve_client-IsServing :
    (revents : List Revents) (i : ℕ) (b : Bridge)
    → IsServing b
    → IsServing (serve_client revents i b)
unfolding serve_client
serve_client-IsServing revents i b v =
    if_cases IsServing (not (is_nonneg (client_at b i).fd)) _ _ (λ _. v)
      λ h.
        let held : IsOpen b i = ground arith in
        let v' = flush_client-IsServing i b v in
        if_cases IsServing (get_or revents i no_revents).out _ _
          (λ _.
            if_cases IsServing (flush_client i b).0 _ _
              (λ _. serve_input-IsServing _ i _ (flush_client-IsOpen i b held) v')
              (λ _. close_client-IsServing i _ v'))
          (λ _. serve_input-IsServing _ i b held v)

-- One pass of the main loop, with whatever events, connections and messages it meets.
pub serve_round-IsServing : (r : Round) (b : Bridge) → IsServing b → IsServing (serve_round r b)
unfolding serve_round
serve_round-IsServing r b v = update_rumble-IsServing false _ (
    IsTable-of_serving _ (
      pump_x_events-IsServing r.late_x_events _ (
        for_clients_keeps IsServing (serve_client r.revents) (serve_client-IsServing r.revents)
          max_clients 0 _
          (if_cases IsServing r.server_ready _ _ (λ _. accept_clients-IsServing r.accepts _ pumped)
            (λ _. pumped)))))
  where
    pumped : IsServing (if r.x_ready then pump_x_events r.x_events b else b)
    pumped = if_cases IsServing r.x_ready _ _ (λ _. pump_x_events-IsServing r.x_events b v) (λ _. v)

pub run-IsServing : (polls : List PollResult) (b : Bridge) → IsServing b → IsServing (run polls b)
unfolding run
run-IsServing [] b v = v
run-IsServing (ready r ∷ rest) b v = run-IsServing rest _ (serve_round-IsServing r b v)
run-IsServing (poll_interrupted ∷ rest) b v = run-IsServing rest b v
run-IsServing (poll_failed ∷ rest) b v = v

pub start-IsServing : (opcode : ℤ) (w : World) → IsServing (start opcode w)
start-IsServing opcode w = ground arith

-- At every pass of `main`, whatever the world answers: the table has its sixteen slots, no buffer
-- holds more than its size, a free slot has no effect and no bytes of a command, and what the
-- bridge has noted as playing on each motor is the loudest effect of all clients.
pub run_from_start-IsServing :
    (opcode : ℤ) (devices : Option (List XiDevice)) (selected : Bool) (polls : List PollResult)
    (w : World)
    → IsServing (run polls (first_search devices selected (start opcode w)))
unfolding first_search
run_from_start-IsServing opcode devices selected polls w =
    let v = start-IsServing opcode w in
    run-IsServing polls _ (
      if_cases IsServing (is_nonneg opcode) _ _
        (λ _. refresh_lorie_device-IsServing devices selected _ v) (λ _. v))
