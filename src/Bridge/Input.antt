-- ===== src/Bridge/Input.antt =====
-- From XInput2 events to input events: `append_event`, `broadcast_events`, `send_snapshot` and
-- `process_xi_event` of src/lorie_evdev_bridge.c.
pub mod Pad
use termux_gamepad.Prelude.{
  ℕ, zero, suc, ◌-◌, ◌/◌, ◌%◌, Bool, true, false, not, ◌&&◌, List, [], ◌∷◌, ◌++◌, ℤ, pos, ltb, leb,
  ◌==◌, eq_ℤ, is_nonneg, if◌then◌else◌, get_or, set, set_bit, clear_bit, pos_part,
}
use termux_gamepad.Wire.{InputEvent, ev_syn, ev_key, ev_abs, syn_report}
use termux_gamepad.Bridge.State.{Bridge, GamepadState, World, max_clients, client_at, is_events}
use termux_gamepad.Bridge.Os.{clock_gettime, in_world}
use termux_gamepad.Bridge.Convert.{
  convert_axis, axis_code, button_code, hat_value, is_pressed, as_int,
}
use termux_gamepad.Bridge.Rumble.{close_on_failure}
use termux_gamepad.Bridge.Queue.{queue_events}

abbrev pub abs_hat0x : ℕ
abs_hat0x = 0x10

abbrev pub abs_hat0y : ℕ
abs_hat0y = 0x11

-- for (i = first; i < first + n; ++i) b = body(i, b)
unfoldable pub for_clients : ℕ → ℕ → (ℕ → Bridge → Bridge) → Bridge → Bridge
for_clients zero first body b = b
for_clients (suc n) first body b = for_clients n (suc first) body (body first b)

-- The gamepad, the array `events` with its `count`, and the world whose clock stamps them.
pub record Report : Type 0 where
  pub state : GamepadState
  pub events : List InputEvent
  pub world : World

-- `append_event`, `timestamp_event` included.
unfoldable pub append_event : ℕ → ℕ → ℤ → Report → Report
append_event type code value r =
    let (ns, w) = clock_gettime r.world in
    let event : InputEvent = record {
      sec = ns / 1_000_000_000;
      usec = ns % 1_000_000_000 / 1_000;
      type = type;
      code = code;
      value = value;
    } in
    record r { events = r.events ++ (event ∷ []); world = w }

-- One client's turn of `broadcast_events`.
unfoldable pub offer_events : List InputEvent → ℕ → Bridge → Bridge
offer_events events i b =
    let c = client_at b i in
    if is_nonneg c.fd && is_events c.kind then close_on_failure i (queue_events i events b) else b

unfoldable pub broadcast_events : List InputEvent → Bridge → Bridge
broadcast_events events = for_clients max_clients 0 (offer_events events)

unfoldable pub report_axes : ℕ → ℕ → Report → Report
report_axes zero axis r = r
report_axes (suc n) axis r =
    report_axes n (suc axis)
      (append_event ev_abs (axis_code axis) (get_or r.state.axes axis (pos 0)) r)

-- The buttons of the snapshot by their X11 detail; the table `buttons` of the source is
-- `button_code` of these.
abbrev pub snapshot_details : List ℕ
snapshot_details = 1 ∷ 2 ∷ 3 ∷ 4 ∷ 5 ∷ 6 ∷ 7 ∷ 8 ∷ 9 ∷ 10 ∷ 15 ∷ 16 ∷ []

unfoldable pub report_buttons : List ℕ → Report → Report
report_buttons [] r = r
report_buttons (d ∷ ds) r =
    report_buttons ds
      (append_event ev_key (button_code d) (pos (as_int (is_pressed r.state.buttons d))) r)

unfoldable pub snapshot : Report → Report
snapshot r =
    let axes = report_axes 6 0 r in
    let hat_x = append_event ev_abs abs_hat0x r.state.hat_x axes in
    let hat_y = append_event ev_abs abs_hat0y r.state.hat_y hat_x in
    append_event ev_syn syn_report (pos 0) (report_buttons snapshot_details hat_y)

unfoldable pub send_snapshot : ℕ → Bridge → Bridge
send_snapshot i b =
    let r = snapshot (record { state = b.state; events = []; world = b.world }) in
    close_on_failure i (queue_events i r.events (in_world b r.world))

pub data XiType : Type 0 where
  motion button_press button_release other_type : XiType

-- `mask` holds the bits of the valuator mask, and `values` what `(int)` makes of the valuators:
-- one for each bit that is set, by the X11 protocol.
pub record XiEvent : Type 0 where
  pub deviceid : ℤ
  pub sourceid : ℤ
  pub evtype : XiType
  pub detail : ℤ
  pub mask : List Bool
  pub values : List ℤ

-- The body of the motion loop for a bit that is set.
unfoldable pub move_axis : ℕ → ℤ → Report → Report
move_axis axis value r =
    let converted = convert_axis axis value in
    if ltb axis 6 && not (eq_ℤ converted (get_or r.state.axes axis (pos 0)))
    then append_event ev_abs (axis_code axis) converted
        (record r { state = record r.state { axes = set r.state.axes axis converted } })
    else r

unfoldable pub motion_loop : List Bool → List ℤ → ℕ → Report → Report
motion_loop [] values axis r = r
motion_loop (false ∷ mask) values axis r = motion_loop mask values (suc axis) r
motion_loop (true ∷ mask) [] axis r = r
motion_loop (true ∷ mask) (v ∷ values) axis r =
    motion_loop mask values (suc axis) (move_axis axis v r)

unfoldable pub move_hat_x : ℤ → Report → Report
move_hat_x new_x r =
    if eq_ℤ new_x r.state.hat_x
    then r
    else append_event ev_abs abs_hat0x new_x (record r { state = record r.state { hat_x = new_x } })

unfoldable pub move_hat_y : ℤ → Report → Report
move_hat_y new_y r =
    if eq_ℤ new_y r.state.hat_y
    then r
    else append_event ev_abs abs_hat0y new_y (record r { state = record r.state { hat_y = new_y } })

abbrev pub set_pressed : Bool → ℕ → ℕ → ℕ
set_pressed true buttons detail = set_bit buttons (detail - 1)
set_pressed false buttons detail = clear_bit buttons (detail - 1)

abbrev pub same : Bool → Bool → Bool
same true b = b
same false b = not b

unfoldable pub press_button : Bool → ℕ → Report → Report
press_button pressed detail r =
    if same pressed (is_pressed r.state.buttons detail)
    then r
    else let buttons = set_pressed pressed r.state.buttons detail in
      let r' = record r { state = record r.state { buttons = buttons } } in
      if leb 11 detail && leb detail 14
      then move_hat_y (hat_value buttons 11 12) (move_hat_x (hat_value buttons 13 14) r')
      else if button_code detail == 0
      then r'
      else append_event ev_key (button_code detail) (pos (as_int pressed)) r'

abbrev pub is_gamepad_button : ℕ → Bool
is_gamepad_button detail = leb 1 detail && leb detail 16

-- What an event of the gamepad changes, and the input events that it makes.
unfoldable pub translate : XiType → XiEvent → Report → Report
translate motion e r = motion_loop e.mask e.values 0 r
translate button_press e r =
    let detail = pos_part e.detail in
    if is_gamepad_button detail then press_button true detail r else r
translate button_release e r =
    let detail = pos_part e.detail in
    if is_gamepad_button detail then press_button false detail r else r
translate other_type e r = r

abbrev pub is_empty {ℓ} : {A : Type ℓ} → List A → Bool
is_empty [] = true
is_empty (x ∷ xs) = false

-- `if (count > 0)`, the SYN_REPORT behind the events.
unfoldable pub seal_report : Report → Report
seal_report r = if is_empty r.events then r else append_event ev_syn syn_report (pos 0) r

unfoldable pub publish : Report → Bridge → Bridge
publish r b =
    let sealed = seal_report r in
    let b' = record b { state = r.state; world = sealed.world } in
    if is_empty r.events then b' else broadcast_events sealed.events b'

unfoldable pub process_xi_event : XiEvent → ℤ → Bridge → Bridge
process_xi_event e device_id b =
    if not (eq_ℤ e.deviceid device_id) && not (eq_ℤ e.sourceid device_id)
    then b
    else publish (translate e.evtype e (record { state = b.state; events = []; world = b.world })) b
