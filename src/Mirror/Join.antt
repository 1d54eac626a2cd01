-- ===== src/Mirror/Join.antt =====
-- What the events of `send_snapshot` of src/lorie_evdev_bridge.c make of any state they find.
use termux_gamepad.Prelude.{
  ℕ, zero, suc, ◌+◌, ◌-◌, ◌<◌, ◌≡◌, refl, sym, ap, ◌∙◌, subst, arith, List, [], ◌∷◌, ℤ, pos, length,
  get_or, cast_s8, test_bit, inl, inr, AllBelow-at,
}
use termux_gamepad.Wire.{ev_abs, ev_key, ev_syn, syn_report}
use termux_gamepad.Bridge.State.{GamepadState, World}
use termux_gamepad.Bridge.Convert.{axis_code, button_code, is_pressed, as_int, hat_value}
use termux_gamepad.Bridge.Convert.Range.{hat_value_bounds}
use termux_gamepad.Bridge.Input.{
  Report, append_event, report_axes, report_buttons, snapshot, snapshot_details, abs_hat0x,
  abs_hat0y,
}
use termux_gamepad.Bridge.Input.Pad.{IsPad}
use termux_gamepad.Gamepad.State.{PadState}
use termux_gamepad.Mirror.{replay, IsMirror, place}
use termux_gamepad.Mirror.Axes.{shown, hat_x-IsMirror, hat_y-IsMirror, cast_s8_small}
use termux_gamepad.Mirror.Reports.{append_syn-Follows, length-append_event}
use termux_gamepad.Mirror.Snapshot.{
  Has, copy_axes, copy_buttons, report_axes-shows, report_buttons-shows, shown-append_abs,
  snapshot_details-IsCoded, copy_axes_at, copy_buttons_at, same-IsMirror,
}

-- Every button that the library shows is in the snapshot.
place-Has : (j : ℕ) → j < 12 → Has (place j + 1) snapshot_details × (0 < place j + 1)
unfolding place
place-Has =
    AllBelow-at 12 (λ j. Has (place j + 1) snapshot_details × (0 < place j + 1))
      (
        (inr (inr (inr (inr (inr (inr (inr (inr (inr (inr (inr (inl refl))))))))))), omega arith),
        (
          (inr (inr (inr (inr (inr (inr (inr (inr (inr (inr (inl refl)))))))))), omega arith),
          (
            (inr (inr (inr (inr (inr (inr (inr (inr (inr (inl refl))))))))), omega arith),
            (
              (inr (inr (inr (inr (inr (inr (inr (inr (inl refl)))))))), omega arith),
              (
                (inr (inr (inr (inr (inr (inr (inr (inl refl))))))), omega arith),
                (
                  (inr (inr (inr (inr (inr (inr (inl refl)))))), omega arith),
                  (
                    (inr (inr (inr (inr (inr (inl refl))))), omega arith),
                    (
                      (inr (inr (inr (inr (inl refl)))), omega arith),
                      (
                        (inr (inr (inr (inl refl))), omega arith),
                        (
                          (inr (inr (inl refl)), omega arith),
                          ((inr (inl refl), omega arith), ((inl refl, omega arith), tt)),
                        ),
                      ),
                    ),
                  ),
                ),
              ),
            ),
          ),
        ),
      )

report_axes_state : (n axis : ℕ) (r : Report) → (report_axes n axis r).state ≡ r.state
unfolding report_axes append_event
report_axes_state zero axis r = refl
report_axes_state (suc n) axis r = report_axes_state n (suc axis) _

report_buttons_state : (ds : List ℕ) (r : Report) → (report_buttons ds r).state ≡ r.state
unfolding report_buttons append_event
report_buttons_state [] r = refl
report_buttons_state (d ∷ ds) r = report_buttons_state ds _

-- A value of the hat is shown as it is.
hat_fits :
    (v : ℤ) (buttons negative positive : ℕ)
    → v ≡ hat_value buttons negative positive
    → cast_s8 v ≡ v
hat_fits v buttons negative positive e =
    let (low, high) = hat_value_bounds buttons negative positive in
    rw e (cast_s8_small (hat_value buttons negative positive) low high)

copy_buttons_rest :
    (ds : List ℕ) (target known : GamepadState)
    → let k = copy_buttons ds target known in
      (k.axes ≡ known.axes) × (k.hat_x ≡ known.hat_x) × (k.hat_y ≡ known.hat_y)
unfolding copy_buttons
copy_buttons_rest [] target known = (refl, refl, refl)
copy_buttons_rest (d ∷ ds) target known = copy_buttons_rest ds target _

-- The report that `send_snapshot` begins with, the steps of `snapshot`, and what each tells.
module _ (s : PadState) (known g : GamepadState) (w : World) where
  abbrev fresh_report : Report
  fresh_report = record { state = g; events = []; world = w }

  abbrev with_hat_x : Report
  with_hat_x = append_event ev_abs abs_hat0x g.hat_x (report_axes 6 0 fresh_report)

  abbrev with_hat_y : Report
  with_hat_y = append_event ev_abs abs_hat0y g.hat_y with_hat_x

  abbrev told_axes : GamepadState
  told_axes = copy_axes 6 0 g known

  abbrev told_hat : GamepadState
  told_hat = record told_axes { hat_x = g.hat_x; hat_y = g.hat_y }

  abbrev told : GamepadState
  told = copy_buttons snapshot_details g told_hat

  with_hat_y_state : with_hat_y.state ≡ g
  unfolding append_event
  with_hat_y_state = report_axes_state 6 0 fresh_report

  hat-told : IsPad g → IsMirror s known → IsMirror (shown s with_hat_y) told_hat
  hat-told p m =
      subst (λ t. IsMirror t told_hat) (sym (shown-append_abs s abs_hat0y g.hat_y with_hat_x))
        (hat_y-IsMirror (shown s with_hat_x) told_x g.hat_y (hat_fits g.hat_y _ _ _ p.hat_y_agrees)
          (subst (λ t. IsMirror t told_x)
            (sym (shown-append_abs s abs_hat0x g.hat_x (report_axes 6 0 fresh_report)))
            (hat_x-IsMirror (shown s (report_axes 6 0 fresh_report)) told_axes g.hat_x
              (hat_fits g.hat_x _ _ _ p.hat_x_agrees)
              (report_axes-shows 6 0 s known fresh_report refl p (unfold replay in m)))))
    where
      told_x : GamepadState
      told_x = record told_axes { hat_x = g.hat_x }

  -- All that is told is all there is to know.
  told-agrees : (t : PadState) → IsPad g → length known.axes ≡ 6 → IsMirror t told → IsMirror t g
  told-agrees t p size m =
      let (axes, hat_x, hat_y) = copy_buttons_rest snapshot_details g told_hat in
      same-IsMirror t told g p.axes_size
        (λ k h.
          ap (λ xs. get_or xs k (pos 0)) axes
          ∙ copy_axes_at 6 0 k g known (omega (arith, size)) (omega arith) (omega (arith, h)))
        (hat_x, hat_y)
        (λ j h.
          let (has, positive) = place-Has j h in
          let back : place j + 1 - 1 ≡ place j = omega arith in
          subst (λ k. test_bit told.buttons k ≡ test_bit g.buttons k) back
            (copy_buttons_at snapshot_details (place j + 1) g told_hat (inl has)
              snapshot_details-IsCoded positive))
        m

  -- A client that joins gets the gamepad's whole state: if the state of an application mirrors any
  -- state `known` (a fresh one mirrors a gamepad at rest), then after the events of a snapshot it
  -- mirrors the gamepad's state, for any gamepad's state in range.
  pub snapshot_mirrored :
      IsMirror s known → IsPad g → IsMirror (replay s (snapshot fresh_report).events) g
  unfolding snapshot append_event
  snapshot_mirrored m p =
      subst (λ (r : GamepadState). IsMirror (shown s (snapshot fresh_report)) r) state
        (append_syn-Follows s buttons (
          subst (λ (r : GamepadState). IsMirror (shown s buttons) r) (sym state)
            (told-agrees (shown s buttons) p m.known_axes (
              subst
                (λ (r : GamepadState).
                  IsMirror (shown s buttons) (copy_buttons snapshot_details r told_hat))
                with_hat_y_state
                (report_buttons-shows snapshot_details s told_hat with_hat_y
                  snapshot_details-IsCoded (hat-told p m))))))
    where
      buttons : Report
      buttons = report_buttons snapshot_details with_hat_y

      state : buttons.state ≡ g
      state = report_buttons_state snapshot_details with_hat_y ∙ with_hat_y_state

length-report_axes :
    (n axis : ℕ) (r : Report) → length (report_axes n axis r).events ≡ length r.events + n
unfolding report_axes append_event
length-report_axes zero axis r = omega arith
length-report_axes (suc n) axis r =
    let v = get_or r.state.axes axis (pos 0) in
    omega (
      arith,
      length-report_axes n (suc axis) (append_event ev_abs (axis_code axis) v r),
      length-append_event ev_abs (axis_code axis) v r,
    )

length-report_buttons :
    (ds : List ℕ) (r : Report) → length (report_buttons ds r).events ≡ length r.events + length ds
unfolding report_buttons append_event
length-report_buttons [] r = omega arith
length-report_buttons (d ∷ ds) r =
    let v = pos (as_int (is_pressed r.state.buttons d)) in
    omega (
      arith,
      length-report_buttons ds (append_event ev_key (button_code d) v r),
      length-append_event ev_key (button_code d) v r,
    )

-- A snapshot adds 21 events, so the array of 24 in `send_snapshot` is never overrun.
pub length-snapshot : (r : Report) → length (snapshot r).events ≡ length r.events + 21
unfolding snapshot
length-snapshot r =
    let axes = report_axes 6 0 r in
    let hat_x = append_event ev_abs abs_hat0x r.state.hat_x axes in
    let hat_y = append_event ev_abs abs_hat0y r.state.hat_y hat_x in
    let buttons = report_buttons snapshot_details hat_y in
    omega (
      arith,
      length-append_event ev_syn syn_report (pos 0) buttons,
      length-report_buttons snapshot_details hat_y,
      length-append_event ev_abs abs_hat0y r.state.hat_y hat_x,
      length-append_event ev_abs abs_hat0x r.state.hat_x axes,
      length-report_axes 6 0 r,
    )
