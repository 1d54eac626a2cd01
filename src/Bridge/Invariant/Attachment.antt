-- ===== src/Bridge/Invariant/Attachment.antt =====
-- The gamepad that src/lorie_evdev_bridge.c serves, from one pass of its main loop to the next.
use termux_gamepad.Prelude.{
  ℕ, ◌≡◌, refl, ◌∙◌, arith, Bool, true, false, not, List, [], ◌∷◌, Option, ℤ, ◌==◌, if_cases,
  is_nonneg, if◌then◌else◌, get_or,
}
use termux_gamepad.Bridge.State.{Bridge, World, client_at, max_clients}
use termux_gamepad.Bridge.Rumble.{update_rumble}
use termux_gamepad.Bridge.Queue.{flush_client}
use termux_gamepad.Bridge.Input.{for_clients}
use termux_gamepad.Bridge.Device.{XiDevice}
use termux_gamepad.Bridge.Server.{
  AcceptResult, accepted, accept_interrupted, accept_failed, free_slot, close_fd, admit_client,
  accept_clients, pump_x_events, Revents, no_revents, serve_input, serve_client, Round, PollResult,
  ready, poll_interrupted, poll_failed, serve_round, run, start, first_search,
}
use termux_gamepad.Bridge.Invariant.{IsServing, core, IsOpen}
use termux_gamepad.Bridge.Invariant.Mixing.{core-close_client, core-update_rumble}
use termux_gamepad.Bridge.Invariant.Queues.{
  flush_client-IsServing, core-flush_client, core-close_on_failure,
}
use termux_gamepad.Bridge.Invariant.Serving.{for_clients_keeps, refresh_lorie_device-IsServing}
use termux_gamepad.Bridge.Input.Pad.{zero_state-IsPad}
use termux_gamepad.Bridge.Invariant.Run.{
  accept_clients-IsServing, pump_x_events-IsServing, serve_client-IsServing, flush_client-IsOpen,
  serve_round-IsServing, start-IsServing,
}
use termux_gamepad.Bridge.Invariant.Messages.{receive_control_messages-Leaves}
use termux_gamepad.Bridge.Invariant.Attached.{
  Attached, kept, refresh_lorie_device-Attached, pump_x_events-Attached,
}

core-admit_client : (fd : ℕ) (b : Bridge) → core (admit_client fd b) ≡ core b
unfolding admit_client close_fd
core-admit_client fd b =
    if_cases (λ (b' : Bridge). core b' ≡ core b) (free_slot b.clients == max_clients) _ _
      (λ _. refl) (λ _. refl)

core-accept_clients :
    (answers : List AcceptResult) (b : Bridge) → core (accept_clients answers b) ≡ core b
unfolding accept_clients close_fd
core-accept_clients [] b = refl
core-accept_clients (accepted fd true ∷ rest) b =
    core-accept_clients rest (admit_client fd b) ∙ core-admit_client fd b
core-accept_clients (accepted fd false ∷ rest) b = core-accept_clients rest (close_fd fd b)
core-accept_clients (accept_interrupted ∷ rest) b = core-accept_clients rest b
core-accept_clients (accept_failed ∷ rest) b = refl

core-serve_input :
    (r : Revents) (i : ℕ) (b : Bridge)
    → IsOpen b i
    → IsServing b
    → core (serve_input r i b) ≡ core b
unfolding serve_input
core-serve_input r i b held v =
    let same = λ (b' : Bridge). core b' ≡ core b in
    if_cases same r.hang_up _ _ (λ _. core-close_client i b)
      λ _.
        if_cases same r.input _ _
          (λ _. core-close_on_failure i _ ∙ (receive_control_messages-Leaves i b held v).1)
          (λ _. refl)

core-serve_client :
    (revents : List Revents) (i : ℕ) (b : Bridge)
    → IsServing b
    → core (serve_client revents i b) ≡ core b
unfolding serve_client
core-serve_client revents i b v =
    let same = λ (b' : Bridge). core b' ≡ core b in
    if_cases same (not (is_nonneg (client_at b i).fd)) _ _ (λ _. refl)
      λ h.
        let held : IsOpen b i = ground arith in
        let v' = flush_client-IsServing i b v in
        let e = core-flush_client i b in
        if_cases same (get_or revents i no_revents).out _ _
          (λ _.
            if_cases same (flush_client i b).0 _ _
              (λ _. core-serve_input _ i _ (flush_client-IsOpen i b held) v' ∙ e)
              (λ _. core-close_client i _ ∙ e))
          (λ _. core-serve_input _ i b held v)

abbrev Sound : Bridge → Type 0
Sound b = IsServing b × Attached b

serve_round-Attached : (r : Round) (b : Bridge) → Sound b → Attached (serve_round r b)
unfolding serve_round
serve_round-Attached r b (v, a) =
    let b1 = if r.x_ready then pump_x_events r.x_events b else b in
    let b2 = if r.server_ready then accept_clients r.accepts b1 else b1 in
    let b3 = for_clients max_clients 0 (serve_client r.revents) b2 in
    let b4 = pump_x_events r.late_x_events b3 in
    kept b4 (update_rumble false b4) (core-update_rumble false b4)
      (pump_x_events-Attached r.late_x_events b3 served.1)
  where
    pumped : Sound (if r.x_ready then pump_x_events r.x_events b else b)
    pumped =
        if_cases Sound r.x_ready _ _
          (λ _. (pump_x_events-IsServing r.x_events b v, pump_x_events-Attached r.x_events b a))
          (λ _. (v, a))

    admitted :
        let b1 = if r.x_ready then pump_x_events r.x_events b else b in
        Sound (if r.server_ready then accept_clients r.accepts b1 else b1)
    admitted =
        let b1 = if r.x_ready then pump_x_events r.x_events b else b in
        if_cases Sound r.server_ready _ _
          (λ _. (
            accept_clients-IsServing r.accepts _ pumped.0,
            kept b1 (accept_clients r.accepts b1) (core-accept_clients r.accepts b1) pumped.1,
          ))
          (λ _. pumped)

    served :
        let b1 = if r.x_ready then pump_x_events r.x_events b else b in
        let b2 = if r.server_ready then accept_clients r.accepts b1 else b1 in
        Sound (for_clients max_clients 0 (serve_client r.revents) b2)
    served =
        for_clients_keeps Sound (serve_client r.revents)
          (λ i b' s. (
            serve_client-IsServing r.revents i b' s.0,
            kept b' (serve_client r.revents i b') (core-serve_client r.revents i b' s.0) s.1,
          ))
          max_clients 0 _ admitted

run-Attached : (polls : List PollResult) (b : Bridge) → Sound b → Attached (run polls b)
unfolding run
run-Attached [] b s = s.1
run-Attached (ready r ∷ rest) b s =
    run-Attached rest _ (serve_round-IsServing r b s.0, serve_round-Attached r b s)
run-Attached (poll_interrupted ∷ rest) b s = run-Attached rest b s
run-Attached (poll_failed ∷ rest) b s = s.1

start-Attached : (opcode : ℤ) (w : World) → Attached (start opcode w)
start-Attached opcode w = record {
  pad = zero_state-IsPad;
  magic = refl;
  version = refl;
  same_device = refl;
  attached = λ e. cc;
  detached = λ e. (refl, refl, refl);
}

-- At every pass of `main`, whatever the world answers: the sticks are signed 16-bit numbers, the
-- triggers lie in 0 to 255, the buttons are sixteen bits and the hat agrees with its four buttons;
-- the descriptor that clients get says present exactly while a device is attached, has that
-- device's number, and offers rumble exactly if the device does.
pub run_from_start-Attached :
    (opcode : ℤ) (devices : Option (List XiDevice)) (selected : Bool) (polls : List PollResult)
    (w : World)
    → Attached (run polls (first_search devices selected (start opcode w)))
unfolding first_search
run_from_start-Attached opcode devices selected polls w =
    let v = start-IsServing opcode w in
    let a = start-Attached opcode w in
    run-Attached polls _ (
      if_cases Sound (is_nonneg opcode) _ _
        (λ _. (
          refresh_lorie_device-IsServing devices selected _ v,
          refresh_lorie_device-Attached devices selected _ a,
        ))
        (λ _. (v, a)))
