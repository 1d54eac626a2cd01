-- ===== src/Mirror/Reports.antt =====
-- A whole report: what `process_xi_event` of src/lorie_evdev_bridge.c sends for one XInput2 event.
use termux_gamepad.Prelude.{
  Bool-cases, inl, inr, ap, if◌then◌else◌, ℕ, suc, ◌+◌, ◌-◌, ◌≤◌, ◌<◌, ◌≡◌, refl, sym, ◌∙◌, subst,
  arith, Bool, true, false, not, ◌&&◌, List, [], ◌∷◌, ℤ, pos, if_cases, length, length-append,
  pos_part, eq_ℤ, ltb, get_or,
}
use termux_gamepad.Wire.{InputEvent, ev_syn, syn_report}
use termux_gamepad.Bridge.State.{Bridge, GamepadState}
use termux_gamepad.Bridge.Convert.{convert_axis}
use termux_gamepad.Bridge.Input.{
  Report, XiEvent, XiType, motion, button_press, button_release, other_type, append_event,
  move_axis, motion_loop, move_hat_x, move_hat_y, press_button, is_gamepad_button, translate,
  seal_report, is_empty, publish, process_xi_event,
}
use termux_gamepad.Bridge.Invariant.{Core}
use termux_gamepad.Bridge.Invariant.Serving.{core-broadcast_events}
use termux_gamepad.Gamepad.State.{PadState}
use termux_gamepad.Gamepad.Events.{process_event}
use termux_gamepad.Mirror.{replay, IsMirror}
use termux_gamepad.Mirror.Axes.{Follows, shown, shown-append_event, motion_loop-Follows}
use termux_gamepad.Mirror.Buttons.{press_button-Follows}

pub translate-Follows :
    (s : PadState) (type : XiType) (e : XiEvent) (r : Report)
    → Follows s r
    → Follows s (translate type e r)
unfolding translate
translate-Follows s motion e r m = motion_loop-Follows s e.mask e.values 0 r m
translate-Follows s button_press e r m =
    if_cases (Follows s) (is_gamepad_button (pos_part e.detail)) _ _
      (λ known. press_button-Follows s true (pos_part e.detail) r known m) (λ _. m)
translate-Follows s button_release e r m =
    if_cases (Follows s) (is_gamepad_button (pos_part e.detail)) _ _
      (λ known. press_button-Follows s false (pos_part e.detail) r known m) (λ _. m)
translate-Follows s other_type e r m = m

-- SYN_REPORT counts a packet and shows nothing.
pub counted-IsMirror :
    (s : PadState) (g : GamepadState) (n : ℕ)
    → IsMirror s g
    → IsMirror (record s { packet_number = n }) g
counted-IsMirror s g n m = record {
  shown_axes = m.shown_axes;
  known_axes = m.known_axes;
  axes = m.axes;
  hat_x = m.hat_x;
  hat_y = m.hat_y;
  buttons = m.buttons;
}

pub append_syn-Follows :
    (s : PadState) (r : Report) → Follows s r → Follows s (append_event ev_syn syn_report (pos 0) r)
unfolding append_event process_event
append_syn-Follows s r m =
    subst (λ t. IsMirror t r.state) (sym (shown-append_event s ev_syn syn_report (pos 0) r))
      (counted-IsMirror (shown s r) r.state _ m)

seal_report-Follows : (s : PadState) (r : Report) → Follows s r → Follows s (seal_report r)
unfolding seal_report
seal_report-Follows s r m =
    if_cases (Follows s) (is_empty r.events) _ _ (λ _. m) (λ _. append_syn-Follows s r m)

abbrev pub start_report : Bridge → Report
start_report b = record { state = b.state; events = []; world = b.world }

-- The event comes from a device other than the gamepad.
abbrev pub is_foreign : XiEvent → ℤ → Bool
is_foreign e device_id = not (eq_ℤ e.deviceid device_id) && not (eq_ℤ e.sourceid device_id)

-- The events that one XInput2 event makes the bridge send.
unfoldable pub sent_for : XiEvent → ℤ → Bridge → List InputEvent
sent_for e device_id b =
    if is_foreign e device_id
    then []
    else (seal_report (translate e.evtype e (start_report b))).events

publish_state : (r : Report) (b : Bridge) → (publish r b).state ≡ r.state
unfolding publish
publish_state r b =
    if_cases (λ (b' : Bridge). b'.state ≡ r.state) (is_empty r.events) _ _ (λ _. refl)
      (λ _. ap (λ (c : Core). c.state) (core-broadcast_events _ _))

seal_report_state : (r : Report) → (seal_report r).state ≡ r.state
unfolding seal_report append_event
seal_report_state r =
    if_cases (λ (r' : Report). r'.state ≡ r.state) (is_empty r.events) _ _ (λ _. refl) (λ _. refl)

-- Whatever XInput2 event arrives, an application whose state mirrors the gamepad, and which then
-- processes the events that the bridge sends for it, has a state that mirrors the gamepad again:
-- every axis, both triggers, the hat and each of the twelve buttons.
pub process_xi_event_mirrored :
    (s : PadState) (e : XiEvent) (device_id : ℤ) (b : Bridge)
    → IsMirror s b.state
    → IsMirror (replay s (sent_for e device_id b)) (process_xi_event e device_id b).state
unfolding sent_for process_xi_event
process_xi_event_mirrored s e device_id b m = elim (Bool-cases (is_foreign e device_id)) [
  | inl foreign ↦ rw foreign (unfold replay in m)
  | inr ours ↦ rw ours (
      subst (λ g. IsMirror (shown s (seal_report report)) g)
        (seal_report_state report ∙ sym (publish_state report b))
        (seal_report-Follows s report
          (translate-Follows s e.evtype e (start_report b) (unfold replay in m))))
]
  where
    report : Report
    report = translate e.evtype e (start_report b)

-- One entry of the array for each event that is appended.
pub length-append_event :
    (type code : ℕ) (value : ℤ) (r : Report)
    → length (append_event type code value r).events ≡ length r.events + 1
unfolding append_event
length-append_event type code value r = omega (arith, length-append r.events _)

length-move_axis :
    (axis : ℕ) (value : ℤ) (r : Report)
    → length (move_axis axis value r).events ≤ length r.events + (6 - axis) - (5 - axis)
unfolding move_axis
length-move_axis axis value r =
    let v = convert_axis axis value in
    if_cases (λ (r' : Report). length r'.events ≤ length r.events + (6 - axis) - (5 - axis))
      (ltb axis 6 && not (eq_ℤ v (get_or r.state.axes axis (pos 0)))) _ _
      (λ moved. let near : axis < 6 = ground arith in omega (arith, near, length-append_event))
      (λ _. omega arith)

length-motion_loop :
    (mask : List Bool) (values : List ℤ) (axis : ℕ) (r : Report)
    → length (motion_loop mask values axis r).events ≤ length r.events + (6 - axis)
unfolding motion_loop
length-motion_loop [] values axis r = omega arith
length-motion_loop (false ∷ mask) values axis r =
    omega (arith, length-motion_loop mask values (suc axis) r)
length-motion_loop (true ∷ mask) [] axis r = omega arith
length-motion_loop (true ∷ mask) (v ∷ values) axis r = omega (
  arith,
  length-motion_loop mask values (suc axis) (move_axis axis v r),
  length-move_axis axis v r,
)

length-press_button :
    (pressed : Bool) (detail : ℕ) (r : Report)
    → length (press_button pressed detail r).events ≤ length r.events + 2
unfolding press_button move_hat_x move_hat_y
length-press_button pressed detail r = grind (arith, length-append_event)

length-translate :
    (type : XiType) (e : XiEvent) (r : Report)
    → length (translate type e r).events ≤ length r.events + 6
unfolding translate
length-translate motion e r = length-motion_loop e.mask e.values 0 r
length-translate button_press e r = ground (arith, length-press_button true (pos_part e.detail) r)
length-translate button_release e r =
    ground (arith, length-press_button false (pos_part e.detail) r)
length-translate other_type e r = omega arith

-- One XInput2 event leads to at most seven input events, however many valuators it reports, so the
-- array of sixteen in `process_xi_event` is never overrun.
pub length-sent_for :
    (e : XiEvent) (device_id : ℤ) (b : Bridge) → length (sent_for e device_id b) ≤ 7
unfolding sent_for seal_report
length-sent_for e device_id b =
    let r = translate e.evtype e (start_report b) in
    ground (
      arith,
      length-translate e.evtype e (start_report b),
      length-append_event ev_syn syn_report (pos 0) r,
    )
