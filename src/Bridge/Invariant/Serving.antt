-- ===== src/Bridge/Invariant/Serving.antt =====
-- The table and the mix over input and hotplug events in src/lorie_evdev_bridge.c.
use termux_gamepad.Prelude.{
  ℕ, zero, suc, ◌≡◌, refl, ◌∙◌, Bool, not, ◌&&◌, List, Option, ℤ, if_cases, is_nonneg, eq_ℤ,
  if◌then◌else◌,
}
use termux_gamepad.Wire.{DeviceDescriptor, InputEvent, hotplug_add, hotplug_remove, encode_events}
use termux_gamepad.Bridge.State.{Bridge, client_at, max_clients, is_events, is_monitor}
use termux_gamepad.Bridge.Os.{in_world}
use termux_gamepad.Bridge.Queue.{queue_events}
use termux_gamepad.Bridge.Input.{
  for_clients, Report, XiEvent, offer_events, broadcast_events, send_snapshot, publish,
  process_xi_event, is_empty,
}
use termux_gamepad.Bridge.Device.{
  XiDevice, Found, offer_hotplug, broadcast_hotplug, remove_device, add_device, find_lorie_device,
  is_unchanged, refresh_lorie_device,
}
use termux_gamepad.Bridge.Invariant.{IsServing, core}
use termux_gamepad.Bridge.Invariant.Mixing.{in_world-IsServing, IsServing-of_same_table}
use termux_gamepad.Bridge.Invariant.Queues.{
  queue_bytes-IsServing, core-queue_bytes, close_on_failure-IsServing, core-close_on_failure,
}

-- What each round of a loop over the clients keeps, the loop keeps.
pub for_clients_keeps {κ} :
    (P : Bridge → Type κ) (body : ℕ → Bridge → Bridge)
    → ((i : ℕ) (b : Bridge) → P b → P (body i b))
    → (n first : ℕ) (b : Bridge) → P b
    → P (for_clients n first body b)
unfolding for_clients
for_clients_keeps P body keep zero first b h = h
for_clients_keeps P body keep (suc n) first b h =
    for_clients_keeps P body keep n (suc first) (body first b) (keep first b h)

offer_events-IsServing :
    (es : List InputEvent) (i : ℕ) (b : Bridge) → IsServing b → IsServing (offer_events es i b)
unfolding offer_events queue_events
offer_events-IsServing es i b v =
    if_cases IsServing (is_nonneg (client_at b i).fd && is_events (client_at b i).kind) _ _
      (λ _. close_on_failure-IsServing i _ (queue_bytes-IsServing i (encode_events es) b v))
      (λ _. v)

pub core-offer_events :
    (es : List InputEvent) (i : ℕ) (b : Bridge) → core (offer_events es i b) ≡ core b
unfolding offer_events queue_events
core-offer_events es i b =
    if_cases (λ b'. core b' ≡ core b)
      (is_nonneg (client_at b i).fd && is_events (client_at b i).kind) _ _
      (λ _. core-close_on_failure i _ ∙ core-queue_bytes i (encode_events es) b) (λ _. refl)

broadcast_events-IsServing :
    (es : List InputEvent) (b : Bridge) → IsServing b → IsServing (broadcast_events es b)
unfolding broadcast_events
broadcast_events-IsServing es =
    for_clients_keeps IsServing (offer_events es) (offer_events-IsServing es) max_clients 0

pub core-broadcast_events :
    (es : List InputEvent) (b : Bridge) → core (broadcast_events es b) ≡ core b
unfolding broadcast_events
core-broadcast_events es b =
    for_clients_keeps (λ b'. core b' ≡ core b) (offer_events es)
      (λ i b' h. core-offer_events es i b' ∙ h) max_clients 0 b refl

pub send_snapshot-IsServing : (i : ℕ) (b : Bridge) → IsServing b → IsServing (send_snapshot i b)
unfolding send_snapshot queue_events
send_snapshot-IsServing i b v =
    close_on_failure-IsServing i _
      (queue_bytes-IsServing i _ (in_world b _) (in_world-IsServing b _ v))

pub core-send_snapshot : (i : ℕ) (b : Bridge) → core (send_snapshot i b) ≡ core b
unfolding send_snapshot queue_events
core-send_snapshot i b = core-close_on_failure i _ ∙ core-queue_bytes i _ (in_world b _)

pub publish-IsServing : (r : Report) (b : Bridge) → IsServing b → IsServing (publish r b)
unfolding publish
publish-IsServing r b v =
    if_cases IsServing (is_empty r.events) _ _
      (λ _. IsServing-of_same_table b _ refl refl refl refl v)
      (λ _. broadcast_events-IsServing _ _ (IsServing-of_same_table b _ refl refl refl refl v))

pub process_xi_event-IsServing :
    (e : XiEvent) (d : ℤ) (b : Bridge) → IsServing b → IsServing (process_xi_event e d b)
unfolding process_xi_event
process_xi_event-IsServing e d b v =
    if_cases IsServing (not (eq_ℤ e.deviceid d) && not (eq_ℤ e.sourceid d)) _ _ (λ _. v)
      (λ _. publish-IsServing _ b v)

offer_hotplug-IsServing :
    (action : ℕ) (d : DeviceDescriptor) (i : ℕ) (b : Bridge)
    → IsServing b
    → IsServing (offer_hotplug action d i b)
unfolding offer_hotplug
offer_hotplug-IsServing action d i b v =
    if_cases IsServing (is_nonneg (client_at b i).fd && is_monitor (client_at b i).kind) _ _
      (λ _. close_on_failure-IsServing i _ (queue_bytes-IsServing i _ b v)) (λ _. v)

core-offer_hotplug :
    (action : ℕ) (d : DeviceDescriptor) (i : ℕ) (b : Bridge)
    → core (offer_hotplug action d i b) ≡ core b
unfolding offer_hotplug
core-offer_hotplug action d i b =
    if_cases (λ b'. core b' ≡ core b)
      (is_nonneg (client_at b i).fd && is_monitor (client_at b i).kind) _ _
      (λ _. core-close_on_failure i _ ∙ core-queue_bytes i _ b) (λ _. refl)

broadcast_hotplug-IsServing :
    (action : ℕ) (b : Bridge) → IsServing b → IsServing (broadcast_hotplug action b)
unfolding broadcast_hotplug
broadcast_hotplug-IsServing action b =
    for_clients_keeps IsServing (offer_hotplug action b.descriptor)
      (offer_hotplug-IsServing action b.descriptor) max_clients 0 b

pub core-broadcast_hotplug : (action : ℕ) (b : Bridge) → core (broadcast_hotplug action b) ≡ core b
unfolding broadcast_hotplug
core-broadcast_hotplug action b =
    for_clients_keeps (λ b'. core b' ≡ core b) (offer_hotplug action b.descriptor)
      (λ i b' h. core-offer_hotplug action b.descriptor i b' ∙ h) max_clients 0 b refl

remove_device-IsServing : (b : Bridge) → IsServing b → IsServing (remove_device b)
unfolding remove_device
remove_device-IsServing b v =
    broadcast_hotplug-IsServing hotplug_remove _ (IsServing-of_same_table b _ refl refl refl refl v)

add_device-IsServing : (f : Found) (b : Bridge) → IsServing b → IsServing (add_device f b)
unfolding add_device
add_device-IsServing f b v =
    broadcast_hotplug-IsServing hotplug_add _ (IsServing-of_same_table b _ refl refl refl refl v)

pub refresh_lorie_device-IsServing :
    (devices : Option (List XiDevice)) (selected : Bool) (b : Bridge)
    → IsServing b
    → IsServing (refresh_lorie_device devices selected b).1
unfolding refresh_lorie_device
refresh_lorie_device-IsServing devices selected b v =
    if_cases (λ (r : ℤ × Bridge). IsServing r.1) (is_unchanged f b) _ _ (λ _. v)
      λ _.
        if_cases (λ (r : ℤ × Bridge). IsServing r.1) (not (is_nonneg f.device_id)) _ _
          (λ _. removed)
          λ _.
            if_cases (λ (r : ℤ × Bridge). IsServing r.1) (not selected) _ _ (λ _. removed)
              λ _. add_device-IsServing f _ removed
  where
    f : Found
    f = find_lorie_device devices

    removed : IsServing (if is_nonneg b.device_id then remove_device b else b)
    removed =
        if_cases IsServing (is_nonneg b.device_id) _ _ (λ _. remove_device-IsServing b v) (λ _. v)
