-- ===== src/Bridge/Descriptors/Ended.antt =====
-- The descriptors that `accept` gives to src/lorie_evdev_bridge.c, up to the end of `main`.
use termux_gamepad.Prelude.{
  ℕ, suc, ◌+◌, ◌≡◌, ◌<◌, ◌≤◌, refl, ap, ◌∙◌, arith, Bool, true, false, not, List, [], ◌∷◌, ◌++◌,
  Option, ℤ, pos, ◌==◌, eq_ℤ, is_nonneg, if◌then◌else◌, if_cases, Bool-cases, inl, inr, length,
  get_or, set,
}
use termux_gamepad.Bridge.State.{Bridge, Client, World, client_at, free_client, max_clients}
use termux_gamepad.Bridge.Rumble.{close_client, send_lorie_rumble, is_unreachable}
use termux_gamepad.Bridge.Queue.{flush_client}
use termux_gamepad.Bridge.Queue.Links.{link}
use termux_gamepad.Bridge.Device.{XiDevice}
use termux_gamepad.Bridge.Server.{
  AcceptResult, accepted, accept_interrupted, accept_failed, free_slot, close_fd, admit_client,
  accept_clients, XEvent, hierarchy_changed, device_event, foreign, handle_x_event, pump_x_events,
  Revents, no_revents, serve_input, serve_client, Round, PollResult, ready, poll_interrupted,
  poll_failed, serve_round, run, start, first_search, shut_down, main,
}
use termux_gamepad.Bridge.Server.Shutdown.{main_ends, main-IsServing}
use termux_gamepad.Bridge.Invariant.{IsServing}
use termux_gamepad.Bridge.Invariant.Run.{
  pump_x_events-IsServing, serve_round-IsServing, close_fd-IsServing, admit_client-IsServing,
  run_from_start-IsServing,
}
use termux_gamepad.Bridge.Descriptors.{
  balance, copies, holders, one_if, copies-append, not_held, close_client-balance,
  close_on_failure-balance, flush_client-balance, update_rumble-balance,
}
use termux_gamepad.Bridge.Descriptors.Served.{
  for_clients-balance, process_xi_event-balance, refresh_lorie_device-balance,
  receive_control_messages-balance,
}

-- The descriptors that `accept` gives before the loop over it ends.
abbrev pub accepted_in : List AcceptResult → List ℤ
accepted_in [] = []
accepted_in (accepted fd usable ∷ rest) = pos fd ∷ accepted_in rest
accepted_in (accept_interrupted ∷ rest) = accepted_in rest
accepted_in (accept_failed ∷ rest) = []

-- And before the main loop ends.
abbrev pub accepted_over : List PollResult → List ℤ
accepted_over [] = []
accepted_over (ready r ∷ rest) =
    (if r.server_ready then accepted_in r.accepts else []) ++ accepted_over rest
accepted_over (poll_interrupted ∷ rest) = accepted_over rest
accepted_over (poll_failed ∷ rest) = []

free_slot-le : (cs : List Client) → free_slot cs ≤ length cs
unfolding free_slot
free_slot-le [] = omega arith
free_slot-le (c ∷ cs) =
    if_cases (λ n. n ≤ suc (length cs)) (is_nonneg c.fd) (suc (free_slot cs)) 0
      (λ _. omega (arith, free_slot-le cs)) (λ _. omega arith)

holders-set_slot :
    (k : ℕ) (cs : List Client) (c : Client)
    → free_slot cs < length cs
    → holders k (set cs (free_slot cs) c) ≡ one_if (eq_ℤ c.fd (pos k)) + holders k cs
unfolding free_slot
holders-set_slot k [] c h = absurd (omega arith)
holders-set_slot k (d ∷ cs) c h =
    let Sum : ℕ → Type 0 =
      λ n. holders k (set (d ∷ cs) n c) ≡ one_if (eq_ℤ c.fd (pos k)) + holders k (d ∷ cs) in
    if_cases (λ n. n < suc (length cs) → Sum n) (is_nonneg d.fd) (suc (free_slot cs)) 0
      (λ _ lt. omega (arith, holders-set_slot k cs c (omega (arith, lt))))
      (λ free _. omega (arith, ap one_if (not_held d.fd k free))) h

close_fd-balance :
    (k fd : ℕ) (b : Bridge) → balance k (close_fd fd b) ≡ one_if (fd == k) + balance k b
unfolding close_fd
close_fd-balance k fd b = omega (arith, copies-append k b.world.closed (pos fd ∷ []))

admit_client-balance :
    (k fd : ℕ) (b : Bridge)
    → IsServing b
    → balance k (admit_client fd b) ≡ one_if (fd == k) + balance k b
unfolding admit_client
admit_client-balance k fd b v =
    let c : Client = record free_client { fd = pos fd } in
    if_cases (λ b'. balance k b' ≡ one_if (fd == k) + balance k b)
      (free_slot b.clients == max_clients) _ _ (λ _. close_fd-balance k fd b)
      (λ other.
        let room : free_slot b.clients < length b.clients =
          ground (arith, free_slot-le b.clients, v.size, other) in
        omega (arith, holders-set_slot k b.clients c room))

accept_clients-balance :
    (k : ℕ) (answers : List AcceptResult) (b : Bridge)
    → IsServing b
    → balance k (accept_clients answers b) ≡ copies k (accepted_in answers) + balance k b
unfolding accept_clients
accept_clients-balance k [] b v = omega arith
accept_clients-balance k (accepted fd true ∷ rest) b v = omega (
  arith,
  accept_clients-balance k rest _ (admit_client-IsServing fd b v),
  admit_client-balance k fd b v,
)
accept_clients-balance k (accepted fd false ∷ rest) b v =
    omega
      (arith, accept_clients-balance k rest _ (close_fd-IsServing fd b v), close_fd-balance k fd b)
accept_clients-balance k (accept_interrupted ∷ rest) b v = accept_clients-balance k rest b v
accept_clients-balance k (accept_failed ∷ rest) b v = omega arith

handle_x_event-balance :
    (k : ℕ) (e : XEvent) (b : Bridge) → balance k (handle_x_event e b) ≡ balance k b
unfolding handle_x_event
handle_x_event-balance k (hierarchy_changed devices selected) b =
    refresh_lorie_device-balance k devices selected b
handle_x_event-balance k (device_event e) b = process_xi_event-balance k e b.device_id b
handle_x_event-balance k foreign b = refl

pump_x_events-balance :
    (k : ℕ) (es : List XEvent) (b : Bridge) → balance k (pump_x_events es b) ≡ balance k b
unfolding pump_x_events
pump_x_events-balance k [] b = refl
pump_x_events-balance k (e ∷ es) b = pump_x_events-balance k es _ ∙ handle_x_event-balance k e b

serve_input-balance :
    (k : ℕ) (r : Revents) (i : ℕ) (b : Bridge) → balance k (serve_input r i b) ≡ balance k b
unfolding serve_input
serve_input-balance k r i b =
    if_cases (λ b'. balance k b' ≡ balance k b) r.hang_up _ _ (λ _. close_client-balance k i b)
      λ _.
        if_cases (λ b'. balance k b' ≡ balance k b) r.input _ _
          (λ _. close_on_failure-balance k i _ ∙ receive_control_messages-balance k i b) (λ _. refl)

serve_client-balance :
    (k : ℕ) (revents : List Revents) (i : ℕ) (b : Bridge)
    → balance k (serve_client revents i b) ≡ balance k b
unfolding serve_client
serve_client-balance k revents i b =
    let r = get_or revents i no_revents in
    let flushed = flush_client-balance k i b in
    if_cases (λ b'. balance k b' ≡ balance k b) (not (is_nonneg (client_at b i).fd)) _ _ (λ _. refl)
      λ _.
        if_cases (λ b'. balance k b' ≡ balance k b) r.out _ _
          (λ _.
            if_cases (λ b'. balance k b' ≡ balance k b) (flush_client i b).0 _ _
              (λ _. serve_input-balance k r i _ ∙ flushed)
              (λ _. close_client-balance k i _ ∙ flushed))
          (λ _. serve_input-balance k r i b)

serve_round-balance :
    (k : ℕ) (r : Round) (b : Bridge)
    → IsServing b
    → balance k (serve_round r b)
      ≡ copies k (if r.server_ready then accepted_in r.accepts else []) + balance k b
unfolding serve_round
serve_round-balance k r b v =
    update_rumble-balance k false _
    ∙ pump_x_events-balance k r.late_x_events _
    ∙ for_clients-balance k max_clients 0 (serve_client r.revents) _
        (serve_client-balance k r.revents)
    ∙ accepting
    ∙ ap (◌+◌ (copies k given)) pumping
  where
    given : List ℤ
    given = if r.server_ready then accepted_in r.accepts else []

    pumped : Bridge
    pumped = if r.x_ready then pump_x_events r.x_events b else b

    pumping : balance k pumped ≡ balance k b
    pumping =
        if_cases (λ b'. balance k b' ≡ balance k b) r.x_ready _ _
          (λ _. pump_x_events-balance k r.x_events b) (λ _. refl)

    pumped-IsServing : IsServing pumped
    pumped-IsServing =
        if_cases IsServing r.x_ready _ _ (λ _. pump_x_events-IsServing r.x_events b v) (λ _. v)

    accepting :
        balance k (if r.server_ready then accept_clients r.accepts pumped else pumped)
        ≡ copies k given + balance k pumped
    accepting = elim (Bool-cases r.server_ready) [
      | inl asked ↦ rw asked (accept_clients-balance k r.accepts pumped pumped-IsServing)
      | inr idle ↦ rw idle (omega arith)
    ]

run-balance :
    (k : ℕ) (polls : List PollResult) (b : Bridge)
    → IsServing b
    → balance k (run polls b) ≡ copies k (accepted_over polls) + balance k b
unfolding run
run-balance k [] b v = omega arith
run-balance k (ready r ∷ rest) b v =
    let given = if r.server_ready then accepted_in r.accepts else [] in
    omega (
      arith,
      run-balance k rest _ (serve_round-IsServing r b v),
      serve_round-balance k r b v,
      copies-append k given (accepted_over rest),
    )
run-balance k (poll_interrupted ∷ rest) b v = run-balance k rest b v
run-balance k (poll_failed ∷ rest) b v = omega arith

-- Slots that are all free hold nothing.
holders-free :
    (k : ℕ) (cs : List Client)
    → ((i : ℕ) → i < length cs → link (get_or cs i free_client) ≡ link free_client)
    → holders k cs ≡ 0
holders-free k [] h = refl
holders-free k (c ∷ cs) h =
    let none : eq_ℤ c.fd (pos k) ≡ false = ap (λ l. eq_ℤ l.fd (pos k)) (h 0 (omega arith)) in
    let rest = holders-free k cs (λ i lt. h (suc i) (omega (arith, lt))) in
    omega (arith, ap one_if none, rest)

start-balance :
    (k : ℕ) (opcode : ℤ) (devices : Option (List XiDevice)) (selected : Bool) (w : World)
    → balance k (first_search devices selected (start opcode w)) ≡ copies k w.closed
unfolding first_search
start-balance k opcode devices selected w =
    let none : balance k (start opcode w) ≡ copies k w.closed = omega arith in
    if_cases (λ b'. balance k b' ≡ copies k w.closed) (is_nonneg opcode) _ _
      (λ _. refresh_lorie_device-balance k devices selected _ ∙ none) (λ _. none)

shut_down-balance : (k : ℕ) (b : Bridge) → balance k (shut_down b) ≡ balance k b
unfolding shut_down send_lorie_rumble
shut_down-balance k b =
    for_clients-balance k max_clients 0 close_client (send_lorie_rumble 0 0 0 b)
      (close_client-balance k)
    ∙ if_cases (λ b'. balance k b' ≡ balance k b) (is_unreachable b) _ _ (λ _. refl) (λ _. refl)

main-balance :
    (k : ℕ) (opcode : ℤ) (devices : Option (List XiDevice)) (selected : Bool)
    (polls : List PollResult) (w : World)
    → balance k (main opcode devices selected polls w)
      ≡ copies k (accepted_over polls) + copies k w.closed
unfolding main run
main-balance k opcode devices selected polls w =
    let b = first_search devices selected (start opcode w) in
    shut_down-balance k (run polls b)
    ∙ run-balance k polls b (run_from_start-IsServing opcode devices selected [] w)
    ∙ ap (◌+◌ (copies k (accepted_over polls))) (start-balance k opcode devices selected w)

-- Whatever happens while `main` runs, no connection is left open and none is closed twice: at its
-- end each descriptor has been closed exactly as often as `accept` has given it, on top of what was
-- closed before.
pub main_closes :
    (k : ℕ) (opcode : ℤ) (devices : Option (List XiDevice)) (selected : Bool)
    (polls : List PollResult) (w : World)
    → copies k (main opcode devices selected polls w).world.closed
      ≡ copies k (accepted_over polls) + copies k w.closed
main_closes k opcode devices selected polls w =
    let b = main opcode devices selected polls w in
    let v = main-IsServing opcode devices selected polls w in
    let (free, low, high) = main_ends opcode devices selected polls w in
    omega (
      arith,
      holders-free k b.clients (λ i h. free i (omega (arith, h, v.size))),
      main-balance k opcode devices selected polls w,
    )
