-- ===== src/Bridge/Server.antt =====
-- `accept_clients`, `pump_x_events` and the main loop of src/lorie_evdev_bridge.c.
pub mod Shutdown
use termux_gamepad.Prelude.{
  ℕ, suc, Bool, true, false, not, List, [], ◌∷◌, ◌++◌, Option, ℤ, pos, negsuc, ◌==◌, is_nonneg,
  if◌then◌else◌, get_or, replicate,
}
use termux_gamepad.Wire.{device_magic, control_version}
use termux_gamepad.Bridge.State.{
  Bridge, Client, World, max_clients, client_at, with_client, free_client, zero_state,
}
use termux_gamepad.Bridge.Os.{in_world}
use termux_gamepad.Bridge.Rumble.{update_rumble, close_client, close_on_failure, send_lorie_rumble}
use termux_gamepad.Bridge.Queue.{flush_client}
use termux_gamepad.Bridge.Input.{XiEvent, process_xi_event, for_clients}
use termux_gamepad.Bridge.Device.{XiDevice, refresh_lorie_device}
use termux_gamepad.Bridge.Control.{receive_control_messages}

-- What `accept` answers: a descriptor, with whether `set_nonblocking` succeeds on it, EINTR, or
-- another error (EAGAIN among these).
pub data AcceptResult : Type 0 where
  accepted : ℕ → Bool → AcceptResult
  accept_interrupted accept_failed : AcceptResult

-- The first slot whose `fd` is negative, or the length.
unfoldable pub free_slot : List Client → ℕ
free_slot [] = 0
free_slot (c ∷ cs) = let later = suc (free_slot cs) in if is_nonneg c.fd then later else 0

unfoldable pub close_fd : ℕ → Bridge → Bridge
close_fd fd b = in_world b (record b.world { closed = b.world.closed ++ (pos fd ∷ []) })

unfoldable pub admit_client : ℕ → Bridge → Bridge
admit_client fd b =
    let slot = free_slot b.clients in
    if slot == max_clients
    then close_fd fd b
    else with_client b slot (record free_client { fd = pos fd })

-- The loop ends at the first error; after the coming answers `accept` would block.
unfoldable pub accept_clients : List AcceptResult → Bridge → Bridge
accept_clients [] b = b
accept_clients (accepted fd true ∷ rest) b = accept_clients rest (admit_client fd b)
accept_clients (accepted fd false ∷ rest) b = accept_clients rest (close_fd fd b)
accept_clients (accept_interrupted ∷ rest) b = accept_clients rest b
accept_clients (accept_failed ∷ rest) b = b

-- An event of the XInput2 extension, with the answers of the server that it leads to. The event
-- types of `device_event` other than motion and buttons are not passed on.
pub data XEvent : Type 0 where
  hierarchy_changed : Option (List XiDevice) → Bool → XEvent
  device_event : XiEvent → XEvent
  foreign : XEvent

unfoldable pub handle_x_event : XEvent → Bridge → Bridge
handle_x_event (hierarchy_changed devices selected) b = (refresh_lorie_device devices selected b).1
handle_x_event (device_event e) b = process_xi_event e b.device_id b
handle_x_event foreign b = b

-- The events that are pending.
unfoldable pub pump_x_events : List XEvent → Bridge → Bridge
pump_x_events [] b = b
pump_x_events (e ∷ es) b = pump_x_events es (handle_x_event e b)

-- The `revents` of a client: POLLOUT, one of POLLERR, POLLHUP and POLLNVAL, and POLLIN.
pub record Revents : Type 0 where
  pub out : Bool
  pub hang_up : Bool
  pub input : Bool

abbrev pub no_revents : Revents
no_revents = record { out = false; hang_up = false; input = false }

-- The part behind the flush.
unfoldable pub serve_input : Revents → ℕ → Bridge → Bridge
serve_input r i b =
    if r.hang_up
    then close_client i b
    else if r.input
    then close_on_failure i (receive_control_messages i b)
    else b

unfoldable pub serve_client : List Revents → ℕ → Bridge → Bridge
serve_client revents i b =
    let r = get_or revents i no_revents in
    if not (is_nonneg (client_at b i).fd)
    then b
    else if r.out
    then (let (success, b') = flush_client i b in
        if success then serve_input r i b' else close_client i b')
    else serve_input r i b

-- What one pass of the loop meets: the events that are read if the display is ready, the coming
-- answers of `accept` if the server is, the clients' `revents`, and the events at the end.
pub record Round : Type 0 where
  pub x_ready : Bool
  pub x_events : List XEvent
  pub server_ready : Bool
  pub accepts : List AcceptResult
  pub revents : List Revents
  pub late_x_events : List XEvent

pub data PollResult : Type 0 where
  ready : Round → PollResult
  poll_interrupted poll_failed : PollResult

unfoldable pub serve_round : Round → Bridge → Bridge
serve_round r b =
    let b1 = if r.x_ready then pump_x_events r.x_events b else b in
    let b2 = if r.server_ready then accept_clients r.accepts b1 else b1 in
    let b3 = for_clients max_clients 0 (serve_client r.revents) b2 in
    update_rumble false (pump_x_events r.late_x_events b3)

-- The list ends where a signal has cleared `running`.
unfoldable pub run : List PollResult → Bridge → Bridge
run [] b = b
run (ready r ∷ rest) b = run rest (serve_round r b)
run (poll_interrupted ∷ rest) b = run rest b
run (poll_failed ∷ rest) b = b

unfoldable pub shut_down : Bridge → Bridge
shut_down b = for_clients max_clients 0 close_client (send_lorie_rumble 0 0 0 b)

-- The globals as they are when the display is open and the slots are marked free. `opcode` is what
-- the query of the extension and of its version leave.
abbrev pub start : ℤ → World → Bridge
start opcode w = record {
  clients = replicate max_clients free_client;
  state = zero_state;
  x_display = true;
  opcode = opcode;
  device_id = negsuc 0;
  capabilities = 0;
  active_rumble_low = 0;
  active_rumble_high = 0;
  descriptor = record {
    magic = device_magic;
    version = control_version;
    present = 0;
    capabilities = 0;
    input_mode = 0;
    vendor_id = 0;
    product_id = 0;
    device_id = negsuc 0;
    name = replicate 64 0;
  };
  world = w;
}

-- The search before the loop: `devices` and `selected` answer it.
unfoldable pub first_search : Option (List XiDevice) → Bool → Bridge → Bridge
first_search devices selected b =
    if is_nonneg b.opcode then (refresh_lorie_device devices selected b).1 else b

-- `main` from the open display to its end.
unfoldable pub main : ℤ → Option (List XiDevice) → Bool → List PollResult → World → Bridge
main opcode devices selected polls w =
    shut_down (run polls (first_search devices selected (start opcode w)))
