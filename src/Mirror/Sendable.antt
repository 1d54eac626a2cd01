-- ===== src/Mirror/Sendable.antt =====
-- The ranges of the fields of the input events that src/lorie_evdev_bridge.c makes.
use termux_gamepad.Prelude.{
  ℕ, suc, ◌+◌, ◌*◌, ◌^◌, ◌<◌, ◌≡◌, refl, ap, arith, Bool, true, false, not, ◌&&◌, List, [], ◌∷◌,
  ◌++◌, ℤ, pos, ltb, leb, ◌==◌, eq_ℤ, if_cases, get_or, All, All-get_or, IsS32, pos_part,
}
use termux_gamepad.Wire.{ev_abs, ev_key}
use termux_gamepad.Wire.RoundTrip.{IsEvent}
use termux_gamepad.Bridge.State.{World}
use termux_gamepad.Bridge.Os.{clock_gettime}
use termux_gamepad.Bridge.Convert.{
  convert_axis, axis_code, button_code, button_codes, is_pressed, as_int, hat_value,
}
use termux_gamepad.Bridge.Convert.Range.{
  convert_axis-IsS16, convert_axis-IsTrigger, hat_value_bounds,
}
use termux_gamepad.Bridge.Input.{
  Report, XiEvent, XiType, motion, button_press, button_release, other_type, append_event,
  move_axis, motion_loop, move_hat_x, move_hat_y, press_button, is_gamepad_button, translate,
  set_pressed, same, abs_hat0x, abs_hat0y,
}
use native.Mathlib.Decide.{dec_lt}

abbrev pub sum : List ℕ → ℕ
sum [] = 0
sum (x ∷ xs) = x + sum xs

-- The seconds of every reading of the clock fit in 64 bits.
abbrev pub IsTimely : World → Type 0
IsTimely w = w.now + sum w.delays < 1_000_000_000 * 2 ^ 64

abbrev pub Sendable : Report → Type 0
Sendable r = All IsEvent r.events × IsTimely r.world

pub All-append {ℓ κ} :
    {A : Type ℓ} (P : A → Type κ) (xs ys : List A) → All P xs → All P ys → All P (xs ++ ys)
All-append P [] ys h k = k
All-append P (x ∷ xs) ys h k = (h.0, All-append P xs ys h.1 k)

abbrev Timely : ℕ × World → Type 0
Timely (ns, w) = (ns < 1_000_000_000 * 2 ^ 64) × IsTimely w

clock_gettime-Timely :
    (w : World) (ds : List ℕ) → w.delays ≡ ds → IsTimely w → Timely (clock_gettime w)
unfolding clock_gettime
clock_gettime-Timely w [] e h =
    let total = ap sum e in rw e (omega (arith, total, h), omega (arith, total, h))
clock_gettime-Timely w (d ∷ ds) e h =
    let total = ap sum e in rw e (omega (arith, total, h), omega (arith, total, h))

pub append_event-Sendable :
    (type code : ℕ) (value : ℤ) (r : Report)
    → (type < 2 ^ 16) × (code < 2 ^ 16) × IsS32 value
    → Sendable r
    → Sendable (append_event type code value r)
unfolding append_event
append_event-Sendable type code value r (type_fits, code_fits, value_fits) (v, h) =
    let (bound, timely) = clock_gettime-Timely r.world r.world.delays refl h in
    (
      All-append IsEvent r.events _ v (
        record {
          sec_fits = omega (arith, bound);
          usec_fits = omega arith;
          type_fits = type_fits;
          code_fits = code_fits;
          value_fits = value_fits;
        },
        tt,
      ),
      timely,
    )

axis_code-fits : (axis : ℕ) → axis_code axis < 2 ^ 16
unfolding axis_code
axis_code-fits axis =
    All-get_or (λ c. c < 2 ^ 16) (0x00 ∷ 0x01 ∷ 0x03 ∷ 0x04 ∷ 0x02 ∷ 0x05 ∷ []) axis 0
      (omega arith, (omega arith, (omega arith, (omega arith, (omega arith, (omega arith, tt))))))
      (omega arith)

convert_axis-IsS32 : (axis : ℕ) (value : ℤ) → IsS32 (convert_axis axis value)
convert_axis-IsS32 axis value = elim (dec_lt axis 4) [
  | yes stick ↦ omega (arith, convert_axis-IsS16 axis value stick)
  | no trigger ↦ omega (arith, convert_axis-IsTrigger axis value (omega arith))
]

move_axis-Sendable :
    (axis : ℕ) (value : ℤ) (r : Report) → Sendable r → Sendable (move_axis axis value r)
unfolding move_axis
move_axis-Sendable axis value r v =
    let converted = convert_axis axis value in
    if_cases Sendable (ltb axis 6 && not (eq_ℤ converted (get_or r.state.axes axis (pos 0)))) _ _
      (λ _.
        append_event-Sendable ev_abs (axis_code axis) converted _
          (omega arith, axis_code-fits axis, convert_axis-IsS32 axis value) v)
      (λ _. v)

motion_loop-Sendable :
    (mask : List Bool) (values : List ℤ) (axis : ℕ) (r : Report)
    → Sendable r
    → Sendable (motion_loop mask values axis r)
unfolding motion_loop
motion_loop-Sendable [] values axis r v = v
motion_loop-Sendable (false ∷ mask) values axis r v =
    motion_loop-Sendable mask values (suc axis) r v
motion_loop-Sendable (true ∷ mask) [] axis r v = v
motion_loop-Sendable (true ∷ mask) (x ∷ values) axis r v =
    motion_loop-Sendable mask values (suc axis) _ (move_axis-Sendable axis x r v)

move_hat_x-Sendable :
    (buttons negative positive : ℕ) (r : Report)
    → Sendable r
    → Sendable (move_hat_x (hat_value buttons negative positive) r)
unfolding move_hat_x
move_hat_x-Sendable buttons negative positive r v =
    let x = hat_value buttons negative positive in
    if_cases Sendable (eq_ℤ x r.state.hat_x) _ _ (λ _. v)
      (λ _.
        append_event-Sendable ev_abs abs_hat0x x _
          (omega arith, omega arith, omega (arith, hat_value_bounds buttons negative positive)) v)

move_hat_y-Sendable :
    (buttons negative positive : ℕ) (r : Report)
    → Sendable r
    → Sendable (move_hat_y (hat_value buttons negative positive) r)
unfolding move_hat_y
move_hat_y-Sendable buttons negative positive r v =
    let y = hat_value buttons negative positive in
    if_cases Sendable (eq_ℤ y r.state.hat_y) _ _ (λ _. v)
      (λ _.
        append_event-Sendable ev_abs abs_hat0y y _
          (omega arith, omega arith, omega (arith, hat_value_bounds buttons negative positive)) v)

button_code-fits : (detail : ℕ) → button_code detail < 2 ^ 16
unfolding button_code
button_code-fits detail =
    if_cases (λ c. c < 2 ^ 16) (ltb detail 17) _ _ (λ _. listed) (λ _. omega arith)
  where
    listed : get_or button_codes detail 0 < 2 ^ 16
    listed =
        All-get_or (λ c. c < 2 ^ 16) button_codes detail 0
          (
            omega arith,
            (
              omega arith,
              (
                omega arith,
                (
                  omega arith,
                  (
                    omega arith,
                    (
                      omega arith,
                      (
                        omega arith,
                        (
                          omega arith,
                          (
                            omega arith,
                            (
                              omega arith,
                              (
                                omega arith,
                                (
                                  omega arith,
                                  (
                                    omega arith,
                                    (omega arith, (omega arith, (omega arith, (omega arith, tt)))),
                                  ),
                                ),
                              ),
                            ),
                          ),
                        ),
                      ),
                    ),
                  ),
                ),
              ),
            ),
          )
          (omega arith)

press_button-Sendable :
    (pressed : Bool) (detail : ℕ) (r : Report)
    → Sendable r
    → Sendable (press_button pressed detail r)
unfolding press_button
press_button-Sendable pressed detail r v =
    if_cases Sendable (same pressed (is_pressed r.state.buttons detail)) _ _ (λ _. v)
      λ _.
        if_cases Sendable (leb 11 detail && leb detail 14) _ _
          (λ _. move_hat_y-Sendable buttons 11 12 _ (move_hat_x-Sendable buttons 13 14 r' v))
          λ _.
            if_cases Sendable (button_code detail == 0) _ _ (λ _. v)
              λ _.
                append_event-Sendable ev_key (button_code detail) (pos (as_int pressed)) r'
                  (omega arith, button_code-fits detail, as_int-IsS32 pressed) v
  where
    buttons : ℕ
    buttons = set_pressed pressed r.state.buttons detail

    r' : Report
    r' = record r { state = record r.state { buttons = buttons } }

    as_int-IsS32 : (b : Bool) → IsS32 (pos (as_int b))
    as_int-IsS32 true = omega arith
    as_int-IsS32 false = omega arith

pub translate-Sendable :
    (type : XiType) (e : XiEvent) (r : Report) → Sendable r → Sendable (translate type e r)
unfolding translate
translate-Sendable motion e r v = motion_loop-Sendable e.mask e.values 0 r v
translate-Sendable button_press e r v =
    if_cases Sendable (is_gamepad_button (pos_part e.detail)) _ _
      (λ _. press_button-Sendable true (pos_part e.detail) r v) (λ _. v)
translate-Sendable button_release e r v =
    if_cases Sendable (is_gamepad_button (pos_part e.detail)) _ _
      (λ _. press_button-Sendable false (pos_part e.detail) r v) (λ _. v)
translate-Sendable other_type e r v = v
