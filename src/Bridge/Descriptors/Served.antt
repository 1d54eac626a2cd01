-- ===== src/Bridge/Descriptors/Served.antt =====
-- Serving the clients of src/lorie_evdev_bridge.c: every descriptor that leaves its slot is closed.
use termux_gamepad.Prelude.{
  ℕ, zero, suc, ◌+◌, ◌≡◌, refl, ap, ◌∙◌, arith, Bool, true, false, not, ◌&&◌, List, [], ◌∷◌, Option,
  ℤ, ◌==◌, ltb, eq_ℤ, is_nonneg, if◌then◌else◌, if_cases, length,
}
use termux_gamepad.Wire.{
  DeviceDescriptor, ControlMessage, InputEvent, control_rumble, control_stop_rumble,
  control_query_descriptor, control_monitor, control_message_size, decode_control, encode_events,
  encode_descriptor, hotplug_add, hotplug_remove,
}
use termux_gamepad.Bridge.State.{
  Bridge, World, RecvResult, got, recv_again, recv_interrupted, recv_failed, client_at, with_client,
  max_clients, is_events, is_monitor, control_buffer_size, events,
}
use termux_gamepad.Bridge.Os.{monotonic_ms, in_world}
use termux_gamepad.Bridge.Queue.{queue_events, queue_bytes}
use termux_gamepad.Bridge.Input.{
  for_clients, Report, XiEvent, offer_events, broadcast_events, send_snapshot, snapshot, publish,
  process_xi_event, is_empty,
}
use termux_gamepad.Bridge.Device.{
  XiDevice, Found, offer_hotplug, broadcast_hotplug, remove_device, add_device, find_lorie_device,
  is_unchanged, refresh_lorie_device,
}
use termux_gamepad.Bridge.Control.{
  recv, start_rumble, stop_rumble, query_descriptor, start_monitor, handle_message,
  is_valid_control, take_message, control_loop, control_fuel, receive_answer,
  receive_control_messages,
}
use termux_gamepad.Bridge.Descriptors.{
  balance, close_on_failure-balance, queue_bytes-balance, with_client-balance,
  update_rumble-balance, monotonic_ms_closed, copies, holders,
}
use termux_gamepad.Bridge.Descriptors.Reports.{
  translate_closed, seal_report_closed, snapshot_closed,
}
use termux_gamepad.Bridge.Invariant.Serving.{for_clients_keeps}

-- A loop over the clients whose rounds keep the balance.
pub for_clients-balance :
    (k n first : ℕ) (body : ℕ → Bridge → Bridge) (b : Bridge)
    → ((i : ℕ) (b' : Bridge) → balance k (body i b') ≡ balance k b')
    → balance k (for_clients n first body b) ≡ balance k b
for_clients-balance k n first body b h =
    for_clients_keeps (λ b'. balance k b' ≡ balance k b) body (λ i b' e. h i b' ∙ e) n first b refl

offer_events-balance :
    (k : ℕ) (es : List InputEvent) (i : ℕ) (b : Bridge)
    → balance k (offer_events es i b) ≡ balance k b
unfolding offer_events queue_events
offer_events-balance k es i b =
    if_cases (λ b'. balance k b' ≡ balance k b)
      (is_nonneg (client_at b i).fd && is_events (client_at b i).kind) _ _
      (λ _. close_on_failure-balance k i _ ∙ queue_bytes-balance k i (encode_events es) b)
      (λ _. refl)

broadcast_events-balance :
    (k : ℕ) (es : List InputEvent) (b : Bridge) → balance k (broadcast_events es b) ≡ balance k b
unfolding broadcast_events
broadcast_events-balance k es b =
    for_clients-balance k max_clients 0 (offer_events es) b (offer_events-balance k es)

publish-balance :
    (k : ℕ) (r : Report) (b : Bridge)
    → r.world.closed ≡ b.world.closed
    → balance k (publish r b) ≡ balance k b
unfolding publish
publish-balance k r b e =
    let logged = ap (λ fds. copies k fds + holders k b.clients) (seal_report_closed r ∙ e) in
    if_cases (λ b'. balance k b' ≡ balance k b) (is_empty r.events) _ _ (λ _. logged)
      (λ _. broadcast_events-balance k _ _ ∙ logged)

pub process_xi_event-balance :
    (k : ℕ) (e : XiEvent) (d : ℤ) (b : Bridge) → balance k (process_xi_event e d b) ≡ balance k b
unfolding process_xi_event
process_xi_event-balance k e d b =
    if_cases (λ b'. balance k b' ≡ balance k b) (not (eq_ℤ e.deviceid d) && not (eq_ℤ e.sourceid d))
      _ _ (λ _. refl) (λ _. publish-balance k _ b (translate_closed e.evtype e _))

offer_hotplug-balance :
    (k action : ℕ) (d : DeviceDescriptor) (i : ℕ) (b : Bridge)
    → balance k (offer_hotplug action d i b) ≡ balance k b
unfolding offer_hotplug
offer_hotplug-balance k action d i b =
    if_cases (λ b'. balance k b' ≡ balance k b)
      (is_nonneg (client_at b i).fd && is_monitor (client_at b i).kind) _ _
      (λ _. close_on_failure-balance k i _ ∙ queue_bytes-balance k i _ b) (λ _. refl)

broadcast_hotplug-balance :
    (k action : ℕ) (b : Bridge) → balance k (broadcast_hotplug action b) ≡ balance k b
unfolding broadcast_hotplug
broadcast_hotplug-balance k action b =
    for_clients-balance k max_clients 0 (offer_hotplug action b.descriptor) b
      (offer_hotplug-balance k action b.descriptor)

pub refresh_lorie_device-balance :
    (k : ℕ) (devices : Option (List XiDevice)) (selected : Bool) (b : Bridge)
    → balance k (refresh_lorie_device devices selected b).1 ≡ balance k b
unfolding refresh_lorie_device remove_device add_device
refresh_lorie_device-balance k devices selected b =
    if_cases Keeps (is_unchanged f b) _ _ (λ _. refl)
      λ _.
        if_cases Keeps (not (is_nonneg f.device_id)) _ _ (λ _. removed)
          λ _.
            if_cases Keeps (not selected) _ _ (λ _. removed)
              λ _. broadcast_hotplug-balance k hotplug_add _ ∙ removed
  where
    Keeps : ℤ × Bridge → Type 0
    Keeps r = balance k r.1 ≡ balance k b

    f : Found
    f = find_lorie_device devices

    removed : balance k (if is_nonneg b.device_id then remove_device b else b) ≡ balance k b
    removed =
        if_cases (λ b'. balance k b' ≡ balance k b) (is_nonneg b.device_id) _ _
          (λ _. broadcast_hotplug-balance k hotplug_remove _) (λ _. refl)

start_rumble-balance :
    (k i : ℕ) (m : ControlMessage) (b : Bridge) → balance k (start_rumble i m b).1 ≡ balance k b
unfolding start_rumble
start_rumble-balance k i m b =
    update_rumble-balance k true _
    ∙ with_client-balance k i (in_world b (monotonic_ms b.world).1) _ refl
    ∙ ap (λ fds. copies k fds + holders k b.clients) (monotonic_ms_closed b.world)

stop_rumble-balance : (k i : ℕ) (b : Bridge) → balance k (stop_rumble i b).1 ≡ balance k b
unfolding stop_rumble
stop_rumble-balance k i b = update_rumble-balance k true _ ∙ with_client-balance k i b _ refl

abbrev Keeps : ℕ → Bridge → Bool × Bridge → Type 0
Keeps k b r = balance k r.1 ≡ balance k b

send_snapshot-balance : (k i : ℕ) (b : Bridge) → balance k (send_snapshot i b) ≡ balance k b
unfolding send_snapshot queue_events
send_snapshot-balance k i b =
    let r = snapshot (record { state = b.state; events = []; world = b.world }) in
    close_on_failure-balance k i _
    ∙ queue_bytes-balance k i _ (in_world b r.world)
    ∙ ap (λ fds. copies k fds + holders k b.clients) (snapshot_closed _)

abbrev query_queued : ℕ → Bridge → Bool × Bridge
query_queued i b =
    let b1 = with_client b i (record (client_at b i) { kind = events }) in
    queue_bytes i (encode_descriptor b1.descriptor) b1

query_descriptor-balance : (k i : ℕ) (b : Bridge) → balance k (query_descriptor i b).1 ≡ balance k b
unfolding query_descriptor
query_descriptor-balance k i b =
    let sent : balance k (query_queued i b).1 ≡ balance k b =
      queue_bytes-balance k i _ _ ∙ with_client-balance k i b _ refl in
    if_cases (Keeps k b) (not (query_queued i b).0) _ _ (λ _. sent)
      λ _.
        if_cases (Keeps k b) ((query_queued i b).1.descriptor.present == 0) _ _ (λ _. sent)
          (λ _. send_snapshot-balance k i (query_queued i b).1 ∙ sent)

start_monitor-balance : (k i : ℕ) (b : Bridge) → balance k (start_monitor i b).1 ≡ balance k b
unfolding start_monitor
start_monitor-balance k i b = queue_bytes-balance k i _ _ ∙ with_client-balance k i b _ refl

handle_message-balance :
    (k i : ℕ) (m : ControlMessage) (b : Bridge) → balance k (handle_message i m b).1 ≡ balance k b
unfolding handle_message
handle_message-balance k i m b =
    if_cases (Keeps k b) (m.command == control_rumble) _ _ (λ _. start_rumble-balance k i m b)
      λ _.
        if_cases (Keeps k b) (m.command == control_stop_rumble) _ _ (λ _. stop_rumble-balance k i b)
          λ _.
            if_cases (Keeps k b) (m.command == control_query_descriptor) _ _
              (λ _. query_descriptor-balance k i b)
              λ _.
                if_cases (Keeps k b) (m.command == control_monitor) _ _
                  (λ _. start_monitor-balance k i b) (λ _. refl)

take_message-balance : (k i : ℕ) (b : Bridge) → balance k (take_message i b).1 ≡ balance k b
unfolding take_message
take_message-balance k i b =
    let m = decode_control (client_at b i).control in
    if_cases (Keeps k b) (is_valid_control m) _ _
      (λ _. handle_message-balance k i m _ ∙ with_client-balance k i b _ refl) (λ _. refl)

after_message-balance :
    (k : ℕ) (continue : Bridge → Bool × Bridge) (b : Bridge) (r : Bool × Bridge)
    → ((b' : Bridge) → balance k (continue b').1 ≡ balance k b')
    → balance k r.1 ≡ balance k b
    → Keeps k b (elim r.0 [ true ↦ continue r.1 | false ↦ (false, r.1) ])
after_message-balance k continue b (true, b') go h = go b' ∙ h
after_message-balance k continue b (false, b') go h = h

control_loop-balance :
    (k fuel i : ℕ) (b : Bridge) → balance k (control_loop fuel i b).1 ≡ balance k b
unfolding control_loop
control_loop-balance k zero i b = refl
control_loop-balance k (suc fuel) i b =
    if_cases (Keeps k b) (ltb (length (client_at b i).control) control_message_size) _ _ (λ _. refl)
      (λ _.
        after_message-balance k (control_loop fuel i) b (take_message i b)
          (control_loop-balance k fuel i) (take_message-balance k i b))

receive_answer-balance :
    (k : ℕ) (answer : RecvResult) (i : ℕ) (b : Bridge)
    → balance k (receive_answer answer i b).1 ≡ balance k b
unfolding receive_answer
receive_answer-balance k recv_again i b = refl
receive_answer-balance k recv_interrupted i b = refl
receive_answer-balance k recv_failed i b = refl
receive_answer-balance k (got []) i b = refl
receive_answer-balance k (got (x ∷ bytes)) i b =
    control_loop-balance k control_fuel i _ ∙ with_client-balance k i b _ refl

recv_closed : (w : World) → (recv w).1.closed ≡ w.closed
unfolding recv
recv_closed w = ground arith

pub receive_control_messages-balance :
    (k i : ℕ) (b : Bridge) → balance k (receive_control_messages i b).1 ≡ balance k b
unfolding receive_control_messages
receive_control_messages-balance k i b =
    if_cases (Keeps k b) (length (client_at b i).control == control_buffer_size) _ _ (λ _. refl)
      (λ _.
        receive_answer-balance k (recv b.world).0 i _
        ∙ ap (λ fds. copies k fds + holders k b.clients) (recv_closed b.world))
