-- ===== src/Bridge/Input/Pad.antt =====
-- The ranges of the gamepad's state in src/lorie_evdev_bridge.c, and its hat and buttons.
use native.Mathlib.Decide.{dec_lt, ℕ_discrete}
use termux_gamepad.Prelude.{
  ℕ, suc, ◌-◌, ◌^◌, ◌<◌, ◌≡◌, ◌≢◌, refl, sym, ap, ◌∙◌, subst, arith, Bool, true, false, not, ◌&&◌,
  List, [], ◌∷◌, ℤ, pos, if_cases, length, length-set, get_or, set, get_or-set_self, get_or-set_ne,
  IsS16, ltb, leb, ◌==◌, eq_ℤ, eq_ℤ→eq, pos_part, set_bit-lt, clear_bit-le, test_bit,
  test_bit-set_bit_ne, test_bit-clear_bit_ne, if◌then◌else◌, AllBelow-at,
}
use termux_gamepad.Bridge.State.{GamepadState, zero_state}
use termux_gamepad.Bridge.Convert.{convert_axis, hat_value, is_pressed, button_code}
use termux_gamepad.Bridge.Convert.Range.{IsTrigger, convert_axis-IsS16, convert_axis-IsTrigger}
use termux_gamepad.Bridge.Input.{
  Report, XiEvent, XiType, motion, button_press, button_release, other_type, append_event,
  move_axis, motion_loop, move_hat_x, move_hat_y, press_button, is_gamepad_button, translate, same,
  set_pressed,
}

abbrev pub AxisFits : ℕ → ℤ → Type 0
AxisFits k v = if ltb k 4 then IsS16 v else IsTrigger v

pub record IsPad (g : GamepadState) : Type 0 where
  pub axes_size : length g.axes ≡ 6
  pub axes_fit : (k : ℕ) → k < 6 → AxisFits k (get_or g.axes k (pos 0))
  pub buttons_fit : g.buttons < 2 ^ 16
  pub hat_x_agrees : g.hat_x ≡ hat_value g.buttons 13 14
  pub hat_y_agrees : g.hat_y ≡ hat_value g.buttons 11 12

pub zero_state-IsPad : IsPad zero_state
unfolding hat_value test_bit
zero_state-IsPad = record {
  axes_size = refl;
  axes_fit =
      AllBelow-at 6 (λ k. AxisFits k (get_or zero_state.axes k (pos 0)))
        (
          omega arith,
          (omega arith, (omega arith, (omega arith, (omega arith, (omega arith, tt))))),
        );
  buttons_fit = omega arith;
  hat_x_agrees = refl;
  hat_y_agrees = refl;
}

converted-AxisFits : (axis : ℕ) (value : ℤ) → AxisFits axis (convert_axis axis value)
converted-AxisFits axis value = elim (dec_lt axis 4) [
  | yes stick ↦ ground (arith, convert_axis-IsS16 axis value stick)
  | no trigger ↦ ground (arith, convert_axis-IsTrigger axis value)
]

set_axis-IsPad :
    (g : GamepadState) (axis : ℕ) (v : ℤ)
    → axis < 6
    → AxisFits axis v
    → IsPad g
    → IsPad (record g { axes = set g.axes axis v })
set_axis-IsPad g axis v h fits p = record {
  axes_size = length-set g.axes axis v ∙ p.axes_size;
  axes_fit = λ k lt. elim (ℕ_discrete axis k) [
    | yes here ↦
        rw (← here, get_or-set_self g.axes axis v (pos 0) (omega (arith, p.axes_size))) fits
    | no other ↦ rw (get_or-set_ne g.axes axis k v (pos 0) other) (p.axes_fit k lt)
  ];
  buttons_fit = p.buttons_fit;
  hat_x_agrees = p.hat_x_agrees;
  hat_y_agrees = p.hat_y_agrees;
}

move_axis-IsPad :
    (axis : ℕ) (value : ℤ) (r : Report) → IsPad r.state → IsPad (move_axis axis value r).state
unfolding move_axis append_event
move_axis-IsPad axis value r p =
    let v = convert_axis axis value in
    if_cases (λ (r' : Report). IsPad r'.state)
      (ltb axis 6 && not (eq_ℤ v (get_or r.state.axes axis (pos 0)))) _ _
      (λ moved. set_axis-IsPad r.state axis v (ground arith) (converted-AxisFits axis value) p)
      (λ _. p)

motion_loop-IsPad :
    (mask : List Bool) (values : List ℤ) (axis : ℕ) (r : Report)
    → IsPad r.state
    → IsPad (motion_loop mask values axis r).state
unfolding motion_loop
motion_loop-IsPad [] values axis r p = p
motion_loop-IsPad (false ∷ mask) values axis r p = motion_loop-IsPad mask values (suc axis) r p
motion_loop-IsPad (true ∷ mask) [] axis r p = p
motion_loop-IsPad (true ∷ mask) (v ∷ values) axis r p =
    motion_loop-IsPad mask values (suc axis) _ (move_axis-IsPad axis v r p)

set_pressed-lt :
    (pressed : Bool) (buttons detail : ℕ)
    → detail < 17
    → buttons < 2 ^ 16
    → set_pressed pressed buttons detail < 2 ^ 16
set_pressed-lt true buttons detail h fits = set_bit-lt 16 buttons (detail - 1) (omega arith) fits
set_pressed-lt false buttons detail h fits = omega (arith, clear_bit-le buttons (detail - 1), fits)

is_pressed-set_pressed :
    (pressed : Bool) (buttons detail k : ℕ)
    → detail - 1 ≢ k - 1
    → is_pressed (set_pressed pressed buttons detail) k ≡ is_pressed buttons k
is_pressed-set_pressed true buttons detail k ne =
    test_bit-set_bit_ne buttons (detail - 1) (k - 1) ne
is_pressed-set_pressed false buttons detail k ne =
    test_bit-clear_bit_ne buttons (detail - 1) (k - 1) ne

-- Only the hat's own buttons move it.
hat_value-set_pressed :
    (pressed : Bool) (buttons detail negative positive : ℕ)
    → detail - 1 ≢ negative - 1
    → detail - 1 ≢ positive - 1
    → hat_value (set_pressed pressed buttons detail) negative positive
      ≡ hat_value buttons negative positive
unfolding hat_value
hat_value-set_pressed pressed buttons detail negative positive n p = rw (
  is_pressed-set_pressed pressed buttons detail negative n,
  is_pressed-set_pressed pressed buttons detail positive p,
)

move_hat_x_state : (v : ℤ) (r : Report) → (move_hat_x v r).state ≡ record r.state { hat_x = v }
unfolding move_hat_x append_event
move_hat_x_state v r =
    if_cases (λ (r' : Report). r'.state ≡ record r.state { hat_x = v }) (eq_ℤ v r.state.hat_x) _ _
      (λ e. ap (λ x. record r.state { hat_x = x }) (sym (eq_ℤ→eq v r.state.hat_x e))) (λ _. refl)

move_hat_y_state : (v : ℤ) (r : Report) → (move_hat_y v r).state ≡ record r.state { hat_y = v }
unfolding move_hat_y append_event
move_hat_y_state v r =
    if_cases (λ (r' : Report). r'.state ≡ record r.state { hat_y = v }) (eq_ℤ v r.state.hat_y) _ _
      (λ e. ap (λ x. record r.state { hat_y = x }) (sym (eq_ℤ→eq v r.state.hat_y e))) (λ _. refl)

hatted-IsPad :
    (g : GamepadState) (buttons : ℕ)
    → buttons < 2 ^ 16
    → IsPad g
    → IsPad (record g {
      buttons = buttons;
      hat_x = hat_value buttons 13 14;
      hat_y = hat_value buttons 11 12;
    })
hatted-IsPad g buttons fits p = record {
  axes_size = p.axes_size;
  axes_fit = p.axes_fit;
  buttons_fit = fits;
  hat_x_agrees = refl;
  hat_y_agrees = refl;
}

plain-IsPad :
    (g : GamepadState) (pressed : Bool) (detail : ℕ)
    → 0 < detail
    → detail < 17
    → ¬ ((10 < detail) × (detail < 15))
    → IsPad g
    → IsPad (record g { buttons = set_pressed pressed g.buttons detail })
plain-IsPad g pressed detail low high no_hat p = record {
  axes_size = p.axes_size;
  axes_fit = p.axes_fit;
  buttons_fit = set_pressed-lt pressed g.buttons detail high p.buttons_fit;
  hat_x_agrees =
      p.hat_x_agrees
      ∙ sym (
          hat_value-set_pressed pressed g.buttons detail 13 14 (λ e. no_hat (omega arith))
            (λ e. no_hat (omega arith)));
  hat_y_agrees =
      p.hat_y_agrees
      ∙ sym (
          hat_value-set_pressed pressed g.buttons detail 11 12 (λ e. no_hat (omega arith))
            (λ e. no_hat (omega arith)));
}

press_button-IsPad :
    (pressed : Bool) (detail : ℕ) (r : Report)
    → 0 < detail
    → detail < 17
    → IsPad r.state
    → IsPad (press_button pressed detail r).state
unfolding press_button append_event
press_button-IsPad pressed detail r low high p =
    let state_fits = λ (r' : Report). IsPad r'.state in
    if_cases state_fits (same pressed (is_pressed r.state.buttons detail)) _ _ (λ _. p)
      λ _.
        if_cases state_fits (leb 11 detail && leb detail 14) _ _
          (λ hat.
            subst IsPad
              (sym (
                move_hat_y_state _ _
                ∙ ap (λ (g : GamepadState). record g { hat_y = hat_value buttons 11 12 })
                    (move_hat_x_state _ _)))
              (hatted-IsPad r.state buttons fits p))
          λ not_hat.
            if_cases state_fits (button_code detail == 0) _ _
              (λ _. plain-IsPad r.state pressed detail low high (λ h. ground arith) p)
              (λ _. plain-IsPad r.state pressed detail low high (λ h. ground arith) p)
  where
    buttons : ℕ
    buttons = set_pressed pressed r.state.buttons detail

    fits : buttons < 2 ^ 16
    fits = set_pressed-lt pressed r.state.buttons detail high p.buttons_fit

pub translate-IsPad :
    (type : XiType) (e : XiEvent) (r : Report) → IsPad r.state → IsPad (translate type e r).state
unfolding translate
translate-IsPad motion e r p = motion_loop-IsPad e.mask e.values 0 r p
translate-IsPad button_press e r p =
    if_cases (λ (r' : Report). IsPad r'.state) (is_gamepad_button (pos_part e.detail)) _ _
      (λ h. press_button-IsPad true (pos_part e.detail) r (ground arith) (ground arith) p) (λ _. p)
translate-IsPad button_release e r p =
    if_cases (λ (r' : Report). IsPad r'.state) (is_gamepad_button (pos_part e.detail)) _ _
      (λ h. press_button-IsPad false (pos_part e.detail) r (ground arith) (ground arith) p) (λ _. p)
translate-IsPad other_type e r p = p
