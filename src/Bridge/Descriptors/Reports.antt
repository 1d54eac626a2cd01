-- ===== src/Bridge/Descriptors/Reports.antt =====
-- Making reports in src/lorie_evdev_bridge.c closes nothing.
use termux_gamepad.Prelude.{
  ℕ, zero, suc, ◌≡◌, refl, ◌∙◌, Bool, true, false, not, ◌&&◌, List, [], ◌∷◌, ℤ, pos, leb, ltb, ◌==◌,
  eq_ℤ, if_cases, arith, get_or, pos_part,
}
use termux_gamepad.Wire.{ev_abs, ev_key, ev_syn, syn_report}
use termux_gamepad.Bridge.Os.{clock_gettime}
use termux_gamepad.Bridge.Convert.{convert_axis, axis_code, button_code, is_pressed, as_int}
use termux_gamepad.Bridge.Input.{
  Report, append_event, move_axis, motion_loop, move_hat_x, move_hat_y, press_button, same,
  is_gamepad_button, XiType, motion, button_press, button_release, other_type, XiEvent, translate,
  is_empty, seal_report, report_axes, report_buttons, snapshot_details, snapshot, abs_hat0x,
  abs_hat0y,
}

abbrev Logs : Report → Report → Type 0
Logs r r' = r'.world.closed ≡ r.world.closed

append_event-Logs :
    (type code : ℕ) (value : ℤ) (r : Report) → Logs r (append_event type code value r)
unfolding append_event clock_gettime
append_event-Logs type code value r = ground arith

move_axis-Logs : (axis : ℕ) (value : ℤ) (r : Report) → Logs r (move_axis axis value r)
unfolding move_axis
move_axis-Logs axis value r =
    if_cases (Logs r)
      (ltb axis 6 && not (eq_ℤ (convert_axis axis value) (get_or r.state.axes axis (pos 0)))) _ _
      (λ _. append_event-Logs ev_abs (axis_code axis) (convert_axis axis value) _) (λ _. refl)

motion_loop-Logs :
    (mask : List Bool) (values : List ℤ) (axis : ℕ) (r : Report)
    → Logs r (motion_loop mask values axis r)
unfolding motion_loop
motion_loop-Logs [] values axis r = refl
motion_loop-Logs (false ∷ mask) values axis r = motion_loop-Logs mask values (suc axis) r
motion_loop-Logs (true ∷ mask) [] axis r = refl
motion_loop-Logs (true ∷ mask) (v ∷ values) axis r =
    motion_loop-Logs mask values (suc axis) (move_axis axis v r) ∙ move_axis-Logs axis v r

move_hat_x-Logs : (x : ℤ) (r : Report) → Logs r (move_hat_x x r)
unfolding move_hat_x
move_hat_x-Logs x r =
    if_cases (Logs r) (eq_ℤ x r.state.hat_x) _ _ (λ _. refl)
      (λ _. append_event-Logs ev_abs abs_hat0x x _)

move_hat_y-Logs : (y : ℤ) (r : Report) → Logs r (move_hat_y y r)
unfolding move_hat_y
move_hat_y-Logs y r =
    if_cases (Logs r) (eq_ℤ y r.state.hat_y) _ _ (λ _. refl)
      (λ _. append_event-Logs ev_abs abs_hat0y y _)

press_button-Logs :
    (pressed : Bool) (detail : ℕ) (r : Report) → Logs r (press_button pressed detail r)
unfolding press_button
press_button-Logs pressed detail r =
    if_cases (Logs r) (same pressed (is_pressed r.state.buttons detail)) _ _ (λ _. refl)
      λ _.
        if_cases (Logs r) (leb 11 detail && leb detail 14) _ _
          (λ _. move_hat_y-Logs _ _ ∙ move_hat_x-Logs _ _)
          λ _.
            if_cases (Logs r) (button_code detail == 0) _ _ (λ _. refl)
              (λ _. append_event-Logs ev_key (button_code detail) (pos (as_int pressed)) _)

pub translate_closed :
    (t : XiType) (e : XiEvent) (r : Report) → (translate t e r).world.closed ≡ r.world.closed
unfolding translate
translate_closed motion e r = motion_loop-Logs e.mask e.values 0 r
translate_closed button_press e r =
    let detail = pos_part e.detail in
    if_cases (Logs r) (is_gamepad_button detail) _ _ (λ _. press_button-Logs true detail r)
      (λ _. refl)
translate_closed button_release e r =
    let detail = pos_part e.detail in
    if_cases (Logs r) (is_gamepad_button detail) _ _ (λ _. press_button-Logs false detail r)
      (λ _. refl)
translate_closed other_type e r = refl

pub seal_report_closed : (r : Report) → (seal_report r).world.closed ≡ r.world.closed
unfolding seal_report
seal_report_closed r =
    if_cases (Logs r) (is_empty r.events) _ _ (λ _. refl)
      (λ _. append_event-Logs ev_syn syn_report (pos 0) r)

report_axes-Logs : (n axis : ℕ) (r : Report) → Logs r (report_axes n axis r)
unfolding report_axes
report_axes-Logs zero axis r = refl
report_axes-Logs (suc n) axis r =
    let r' = append_event ev_abs (axis_code axis) (get_or r.state.axes axis (pos 0)) r in
    report_axes-Logs n (suc axis) r'
    ∙ append_event-Logs ev_abs (axis_code axis) (get_or r.state.axes axis (pos 0)) r

report_buttons-Logs : (ds : List ℕ) (r : Report) → Logs r (report_buttons ds r)
unfolding report_buttons
report_buttons-Logs [] r = refl
report_buttons-Logs (d ∷ ds) r =
    let value = pos (as_int (is_pressed r.state.buttons d)) in
    report_buttons-Logs ds (append_event ev_key (button_code d) value r)
    ∙ append_event-Logs ev_key (button_code d) value r

pub snapshot_closed : (r : Report) → (snapshot r).world.closed ≡ r.world.closed
unfolding snapshot
snapshot_closed r =
    let axes = report_axes 6 0 r in
    let hat_x = append_event ev_abs abs_hat0x r.state.hat_x axes in
    let hat_y = append_event ev_abs abs_hat0y r.state.hat_y hat_x in
    append_event-Logs ev_syn syn_report (pos 0) (report_buttons snapshot_details hat_y)
    ∙ report_buttons-Logs snapshot_details hat_y
    ∙ append_event-Logs ev_abs abs_hat0y r.state.hat_y hat_x
    ∙ append_event-Logs ev_abs abs_hat0x r.state.hat_x axes
    ∙ report_axes-Logs 6 0 r
