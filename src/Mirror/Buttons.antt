-- ===== src/Mirror/Buttons.antt =====
-- Buttons: what a press or a release in src/lorie_evdev_bridge.c makes of the bits of the library.
use native.Mathlib.Decide.{ℕ_discrete}
use termux_gamepad.Prelude.{
  ℕ, ◌+◌, ◌-◌, ◌<◌, ◌≡◌, ◌≢◌, sym, ap, ◌∙◌, arith, Bool, true, false, ◌&&◌, some, ◌⊎◌, inl, inr,
  pos, leb, ◌==◌, if_cases, test_bit, test_bit-set_bit, test_bit-clear_bit, test_bit-set_bit_ne,
  test_bit-clear_bit_ne,
}
use termux_gamepad.Bridge.State.{GamepadState}
use termux_gamepad.Bridge.Convert.{button_code, is_pressed, as_int}
use termux_gamepad.Bridge.Input.{Report, press_button, set_pressed, same, is_gamepad_button}
use termux_gamepad.Gamepad.State.{PadState}
use termux_gamepad.Gamepad.Events.{button_index, press}
use termux_gamepad.Mirror.{place, IsMirror}
use termux_gamepad.Mirror.Axes.{
  Follows, shown, append_key-Follows, move_hat_x-Follows, move_hat_y-Follows,
}
use termux_gamepad.Mirror.Places.{
  index_of, index_of-place, IsKeyed, button_code-IsKeyed, place-ne-hat,
}

pub test_bit-set_pressed :
    (pressed : Bool) (buttons detail : ℕ)
    → test_bit (set_pressed pressed buttons detail) (detail - 1) ≡ pressed
test_bit-set_pressed true buttons detail = test_bit-set_bit buttons (detail - 1)
test_bit-set_pressed false buttons detail = test_bit-clear_bit buttons (detail - 1)

pub test_bit-set_pressed_ne :
    (pressed : Bool) (buttons detail k : ℕ)
    → detail - 1 ≢ k
    → test_bit (set_pressed pressed buttons detail) k ≡ test_bit buttons k
test_bit-set_pressed_ne true buttons detail k ne = test_bit-set_bit_ne buttons (detail - 1) k ne
test_bit-set_pressed_ne false buttons detail k ne = test_bit-clear_bit_ne buttons (detail - 1) k ne

-- A new value of a bit that the library does not show changes nothing there.
hidden-IsMirror :
    (s : PadState) (g : GamepadState) (pressed : Bool) (detail : ℕ)
    → ((j : ℕ) → j < 12 → detail - 1 ≢ place j)
    → IsMirror s g
    → IsMirror s (record g { buttons = set_pressed pressed g.buttons detail })
hidden-IsMirror s g pressed detail ne m = record {
  shown_axes = m.shown_axes;
  known_axes = m.known_axes;
  axes = m.axes;
  hat_x = m.hat_x;
  hat_y = m.hat_y;
  buttons = λ j h.
      m.buttons j h ∙ sym (test_bit-set_pressed_ne pressed g.buttons detail (place j) (ne j h));
}

-- The library sets and clears by the value of the event.
press-test_bit :
    (pressed : Bool) (i : ℕ) (s : PadState)
    → test_bit (press (some i) (pos (as_int pressed)) s).buttons i ≡ pressed
press-test_bit true i s = test_bit-set_bit s.buttons i
press-test_bit false i s = test_bit-clear_bit s.buttons i

press-test_bit_ne :
    (pressed : Bool) (i j : ℕ) (s : PadState)
    → i ≢ j
    → test_bit (press (some i) (pos (as_int pressed)) s).buttons j ≡ test_bit s.buttons j
press-test_bit_ne true i j s ne = test_bit-set_bit_ne s.buttons i j ne
press-test_bit_ne false i j s ne = test_bit-clear_bit_ne s.buttons i j ne

pub press-IsMirror :
    (s : PadState) (g : GamepadState) (pressed : Bool) (detail i : ℕ)
    → i < 12
    → place i + 1 ≡ detail
    → IsMirror s g
    → IsMirror
        (press (some i) (pos (as_int pressed)) s)
        (record g { buttons = set_pressed pressed g.buttons detail })
press-IsMirror s g pressed detail i lt e m = record {
  shown_axes = m.shown_axes;
  known_axes = m.known_axes;
  axes = m.axes;
  hat_x = m.hat_x;
  hat_y = m.hat_y;
  buttons = λ j h. elim (ℕ_discrete i j) [
    | yes here ↦ rw (← here) (
        press-test_bit pressed i s
        ∙ sym (test_bit-set_pressed pressed g.buttons detail)
        ∙ ap (test_bit (set_pressed pressed g.buttons detail)) (omega (arith, e)))
    | no other ↦
        press-test_bit_ne pressed i j s other
        ∙ m.buttons j h
        ∙ sym (
            test_bit-set_pressed_ne pressed g.buttons detail (place j) (λ q. other (
              sym (index_of-place i lt).0
              ∙ ap index_of (omega (arith, e, q, lt))
              ∙ (index_of-place j h).0)))
  ];
}

hat_range : (d : ℕ) → (leb 11 d && leb d 14) ≡ true → (10 < d) × (d < 15)
hat_range d h = ground arith

no_hat_range : (d : ℕ) → (leb 11 d && leb d 14) ≡ false → ¬ ((10 < d) × (d < 15))
no_hat_range d h p = ground arith

gamepad_range : (d : ℕ) → is_gamepad_button d ≡ true → (0 < d) × (d < 17)
gamepad_range d h = ground arith

keyed-IsMirror :
    (s : PadState) (g : GamepadState) (pressed : Bool) (detail : ℕ)
    → IsKeyed detail
    → button_code detail ≢ 0
    → IsMirror s g
    → IsMirror
        (press (button_index (button_code detail)) (pos (as_int pressed)) s)
        (record g { buttons = set_pressed pressed g.buttons detail })
keyed-IsMirror s g pressed detail (inl (no_code, why)) coded m = absurd (coded no_code)
keyed-IsMirror s g pressed detail (inr (some_code, found, here, lt)) coded m =
    rw found (press-IsMirror s g pressed detail (index_of detail) lt here m)

uncoded :
    (detail : ℕ)
    → IsKeyed detail
    → button_code detail ≡ 0
    → (detail ≡ 0) ⊎ ((10 < detail) × (detail < 15))
uncoded detail (inl (no_code, why)) e = why
uncoded detail (inr (some_code, found, here, lt)) e = absurd (omega arith)

-- A button of the gamepad that changes.
pub press_button-Follows :
    (s : PadState) (pressed : Bool) (detail : ℕ) (r : Report)
    → is_gamepad_button detail ≡ true
    → Follows s r
    → Follows s (press_button pressed detail r)
unfolding press_button
press_button-Follows s pressed detail r known m =
    if_cases (Follows s) (same pressed (is_pressed r.state.buttons detail)) _ _ (λ _. m)
      λ _.
        if_cases (Follows s) (leb 11 detail && leb detail 14) _ _
          (λ hat. move_hat_y-Follows s buttons 11 12 _ (
            move_hat_x-Follows s buttons 13 14 _ (
              hidden-IsMirror (shown s r) r.state pressed detail
                (λ j h q. omega (arith, place-ne-hat j h, hat_range detail hat, q)) m)))
          λ not_hat.
            if_cases (Follows s) (button_code detail == 0) _ _
              (λ none. absurd (
                omega (
                  arith,
                  uncoded detail keyed_or_not (ground arith),
                  range,
                  no_hat_range detail not_hat,
                )))
              (λ coded. append_key-Follows s (button_code detail) _ _ r (
                keyed-IsMirror (shown s r) r.state pressed detail keyed_or_not (λ e. ground arith)
                  m))
  where
    buttons : ℕ
    buttons = set_pressed pressed r.state.buttons detail

    range : (0 < detail) × (detail < 17)
    range = gamepad_range detail known

    keyed_or_not : IsKeyed detail
    keyed_or_not = button_code-IsKeyed detail range.1
