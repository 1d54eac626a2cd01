-- ===== src/Bridge/Invariant/Attached.antt =====
-- The gamepad that src/lorie_evdev_bridge.c serves: its state, its device and its descriptor, from
-- one X event to the next.
use termux_gamepad.Prelude.{
  ◌≡◌, refl, sym, arith, Bool, true, false, not, ◌&&◌, List, [], ◌∷◌, Option, ℤ, subst, negsuc,
  test_bit, if_cases, is_nonneg, eq_ℤ, if◌then◌else◌,
}
use termux_gamepad.Wire.{device_magic, control_version, hotplug_add, hotplug_remove}
use termux_gamepad.Bridge.State.{Bridge, zero_state, GamepadState}
use termux_gamepad.Bridge.Input.{
  Report, XiEvent, broadcast_events, publish, process_xi_event, seal_report, is_empty,
}
use termux_gamepad.Bridge.Device.{
  XiDevice, Found, broadcast_hotplug, remove_device, add_device, describe, find_lorie_device,
  is_unchanged, refresh_lorie_device,
}
use termux_gamepad.Bridge.Server.{
  XEvent, hierarchy_changed, device_event, foreign, handle_x_event, pump_x_events,
}
use termux_gamepad.Bridge.Invariant.{Core, core}
use termux_gamepad.Bridge.Input.Pad.{IsPad, zero_state-IsPad, translate-IsPad}
use termux_gamepad.Bridge.Invariant.Serving.{core-broadcast_events, core-broadcast_hotplug}

-- The descriptor says present exactly while a device is attached, names that device, and offers
-- rumble exactly if the device has motors. With no device nothing can be played.
pub record IsAttached (c : Core) : Type 0 where
  pub pad : IsPad c.state
  pub magic : c.descriptor.magic ≡ device_magic
  pub version : c.descriptor.version ≡ control_version
  pub same_device : c.descriptor.device_id ≡ c.device_id
  pub attached :
      is_nonneg c.device_id ≡ true
      → (c.descriptor.present ≡ 1)
        × (c.descriptor.capabilities ≡ (if test_bit c.capabilities 0 then 1 else 0))
  pub detached :
      is_nonneg c.device_id ≡ false
      → (c.descriptor.present ≡ 0) × (c.capabilities ≡ 0) × (c.device_id ≡ negsuc 0)

abbrev pub Attached : Bridge → Type 0
Attached b = IsAttached (core b)

pub kept : (b b' : Bridge) → core b' ≡ core b → Attached b → Attached b'
kept b b' e a = subst IsAttached (sym e) a

with_state-IsAttached :
    (c : Core) (g : GamepadState) → IsPad g → IsAttached c → IsAttached (record c { state = g })
with_state-IsAttached c g p a = record {
  pad = p;
  magic = a.magic;
  version = a.version;
  same_device = a.same_device;
  attached = a.attached;
  detached = a.detached;
}

publish-Attached : (r : Report) (b : Bridge) → IsPad r.state → Attached b → Attached (publish r b)
unfolding publish
publish-Attached r b p a =
    let sealed = seal_report r in
    let b' : Bridge = record b { state = r.state; world = sealed.world } in
    let a' : Attached b' = with_state-IsAttached (core b) r.state p a in
    if_cases Attached (is_empty r.events) _ _ (λ _. a')
      (λ _. kept b' (broadcast_events sealed.events b') (core-broadcast_events sealed.events b') a')

process_xi_event-Attached :
    (e : XiEvent) (d : ℤ) (b : Bridge) → Attached b → Attached (process_xi_event e d b)
unfolding process_xi_event
process_xi_event-Attached e d b a =
    if_cases Attached (not (eq_ℤ e.deviceid d) && not (eq_ℤ e.sourceid d)) _ _ (λ _. a)
      (λ _. publish-Attached _ b (translate-IsPad e.evtype e _ a.pad) a)

remove_device-Attached : (b : Bridge) → Attached b → Attached (remove_device b)
unfolding remove_device
remove_device-Attached b a =
    let b' : Bridge = record b {
      device_id = negsuc 0;
      capabilities = 0;
      state = zero_state;
      descriptor = record b.descriptor { present = 0; device_id = negsuc 0 };
    } in
    kept b' (broadcast_hotplug hotplug_remove b') (core-broadcast_hotplug hotplug_remove b')
      (record {
        pad = zero_state-IsPad;
        magic = a.magic;
        version = a.version;
        same_device = refl;
        attached = λ e. cc;
        detached = λ e. (refl, refl, refl);
      })

add_device-Attached :
    (f : Found) (b : Bridge) → is_nonneg f.device_id ≡ true → Attached b → Attached (add_device f b)
unfolding add_device
add_device-Attached f b found a =
    let b' : Bridge = record b {
      device_id = f.device_id;
      capabilities = f.reply.capabilities;
      descriptor = describe f;
    } in
    kept b' (broadcast_hotplug hotplug_add b') (core-broadcast_hotplug hotplug_add b') (record {
      pad = a.pad;
      magic = refl;
      version = refl;
      same_device = refl;
      attached = λ e. (refl, refl);
      detached = λ e. cc;
    })

pub refresh_lorie_device-Attached :
    (devices : Option (List XiDevice)) (selected : Bool) (b : Bridge)
    → Attached b
    → Attached (refresh_lorie_device devices selected b).1
unfolding refresh_lorie_device
refresh_lorie_device-Attached devices selected b a =
    if_cases (λ (r : ℤ × Bridge). Attached r.1) (is_unchanged f b) _ _ (λ _. a)
      λ _.
        if_cases (λ (r : ℤ × Bridge). Attached r.1) (not (is_nonneg f.device_id)) _ _ (λ _. removed)
          λ found.
            if_cases (λ (r : ℤ × Bridge). Attached r.1) (not selected) _ _ (λ _. removed)
              λ _. add_device-Attached f _ (ground arith) removed
  where
    f : Found
    f = find_lorie_device devices

    removed : Attached (if is_nonneg b.device_id then remove_device b else b)
    removed =
        if_cases Attached (is_nonneg b.device_id) _ _ (λ _. remove_device-Attached b a) (λ _. a)

handle_x_event-Attached : (e : XEvent) (b : Bridge) → Attached b → Attached (handle_x_event e b)
unfolding handle_x_event
handle_x_event-Attached (hierarchy_changed devices selected) b a =
    refresh_lorie_device-Attached devices selected b a
handle_x_event-Attached (device_event e) b a = process_xi_event-Attached e b.device_id b a
handle_x_event-Attached foreign b a = a

pub pump_x_events-Attached :
    (es : List XEvent) (b : Bridge) → Attached b → Attached (pump_x_events es b)
unfolding pump_x_events
pump_x_events-Attached [] b a = a
pump_x_events-Attached (e ∷ es) b a = pump_x_events-Attached es _ (handle_x_event-Attached e b a)
