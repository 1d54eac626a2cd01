-- ===== src/Mirror/Snapshot.antt =====
-- `send_snapshot` of src/lorie_evdev_bridge.c: what the library shows while a snapshot arrives.
use native.Mathlib.Decide.{dec_lt, ℕ_discrete}
use termux_gamepad.Prelude.{
  ℕ, zero, suc, ◌+◌, ◌-◌, ◌≤◌, ◌<◌, ◌≡◌, ◌≢◌, refl, sym, ap, ◌∙◌, subst, arith, Bool, List, [], ◌∷◌,
  ℤ, pos, some, length, length-set, get_or, set, get_or-set_self, get_or-set_ne, cast_s16-of_IsS16,
  test_bit, ◌⊎◌, inl, inr, All,
}
use termux_gamepad.Wire.{ev_abs, ev_key}
use termux_gamepad.Bridge.State.{GamepadState}
use termux_gamepad.Bridge.Convert.{axis_code, button_code, is_pressed, as_int}
use termux_gamepad.Bridge.Input.{
  Report, append_event, report_axes, report_buttons, snapshot_details, set_pressed,
}
use termux_gamepad.Bridge.Input.Pad.{IsPad, AxisFits}
use termux_gamepad.Gamepad.State.{PadState}
use termux_gamepad.Gamepad.Events.{process_event, process_abs, press, button_index}
use termux_gamepad.Mirror.{IsMirror, shown_axis, place}
use termux_gamepad.Mirror.Axes.{
  shown, shown-append_event, process_abs-axis_code, read_axis, with_axis-IsMirror,
}
use termux_gamepad.Mirror.Places.{index_of}
use termux_gamepad.Mirror.Buttons.{press-IsMirror, test_bit-set_pressed, test_bit-set_pressed_ne}

-- What the library shows while the snapshot arrives: `known`, with the axes that have arrived.
unfoldable pub copy_axes : ℕ → ℕ → GamepadState → GamepadState → GamepadState
copy_axes zero axis target known = known
copy_axes (suc n) axis target known =
    copy_axes n (suc axis) target
      (record known { axes = set known.axes axis (get_or target.axes axis (pos 0)) })

unfoldable pub copy_buttons : List ℕ → GamepadState → GamepadState → GamepadState
copy_buttons [] target known = known
copy_buttons (d ∷ ds) target known =
    copy_buttons ds target
      (record known { buttons = set_pressed (is_pressed target.buttons d) known.buttons d })

read_axis-AxisFits : (axis : ℕ) (v : ℤ) → AxisFits axis v → read_axis axis v ≡ shown_axis axis v
read_axis-AxisFits axis v fits = elim (dec_lt axis 4) [
  | yes stick ↦ ground (arith, cast_s16-of_IsS16 v)
  | no trigger ↦ ground arith
]

pub shown-append_abs :
    (s : PadState) (code : ℕ) (value : ℤ) (r : Report)
    → shown s (append_event ev_abs code value r) ≡ process_abs (shown s r) code value
unfolding process_event
shown-append_abs s code value r = shown-append_event s ev_abs code value r

shown-append_key :
    (s : PadState) (code : ℕ) (value : ℤ) (r : Report)
    → shown s (append_event ev_key code value r) ≡ press (button_index code) value (shown s r)
unfolding process_event
shown-append_key s code value r = shown-append_event s ev_key code value r

pub report_axes-shows :
    (n axis : ℕ) (s : PadState) (known : GamepadState) (r : Report)
    → axis + n ≡ 6
    → IsPad r.state
    → IsMirror (shown s r) known
    → IsMirror (shown s (report_axes n axis r)) (copy_axes n axis r.state known)
unfolding report_axes copy_axes append_event
report_axes-shows zero axis s known r e p m = m
report_axes-shows (suc n) axis s known r e p m =
    report_axes-shows n (suc axis) s _ _ (omega arith) p (
      subst (λ t. IsMirror t (record known { axes = set known.axes axis v }))
        (sym (
          shown-append_abs s (axis_code axis) v r
          ∙ process_abs-axis_code axis (omega arith) (shown s r) v))
        (with_axis-IsMirror (shown s r) known axis v _ (omega arith)
          (read_axis-AxisFits axis v (p.axes_fit axis (omega arith))) m))
  where
    v : ℤ
    v = get_or r.state.axes axis (pos 0)

abbrev pub IsCoded : ℕ → Type 0
IsCoded d =
    (button_index (button_code d) ≡ some (index_of d))
    × (place (index_of d) + 1 ≡ d)
    × (index_of d < 12)

pub report_buttons-shows :
    (ds : List ℕ) (s : PadState) (known : GamepadState) (r : Report)
    → All IsCoded ds
    → IsMirror (shown s r) known
    → IsMirror (shown s (report_buttons ds r)) (copy_buttons ds r.state known)
unfolding report_buttons copy_buttons append_event
report_buttons-shows [] s known r v m = m
report_buttons-shows (d ∷ ds) s known r ((found, here, lt), v) m = report_buttons-shows ds s _ _ v (
    subst (λ t. IsMirror t (record known { buttons = set_pressed pressed known.buttons d }))
      (sym (
        shown-append_key s (button_code d) (pos (as_int pressed)) r
        ∙ ap (λ i. press i (pos (as_int pressed)) (shown s r)) found))
      (press-IsMirror (shown s r) known pressed d (index_of d) lt here m))
  where
    pressed : Bool
    pressed = is_pressed r.state.buttons d

pub snapshot_details-IsCoded : All IsCoded snapshot_details
unfolding button_code button_index index_of place
snapshot_details-IsCoded = (
  (refl, refl, omega arith),
  (
    (refl, refl, omega arith),
    (
      (refl, refl, omega arith),
      (
        (refl, refl, omega arith),
        (
          (refl, refl, omega arith),
          (
            (refl, refl, omega arith),
            (
              (refl, refl, omega arith),
              (
                (refl, refl, omega arith),
                (
                  (refl, refl, omega arith),
                  (
                    (refl, refl, omega arith),
                    ((refl, refl, omega arith), ((refl, refl, omega arith), tt)),
                  ),
                ),
              ),
            ),
          ),
        ),
      ),
    ),
  ),
)

-- Before `axis` nothing changes, and from there on the axes are the target's.
copy_axes_before :
    (n axis k : ℕ) (target known : GamepadState)
    → k < axis
    → get_or (copy_axes n axis target known).axes k (pos 0) ≡ get_or known.axes k (pos 0)
unfolding copy_axes
copy_axes_before zero axis k target known h = refl
copy_axes_before (suc n) axis k target known h =
    copy_axes_before n (suc axis) k target _ (omega arith)
    ∙ get_or-set_ne known.axes axis k _ (pos 0) (omega arith)

pub copy_axes_at :
    (n axis k : ℕ) (target known : GamepadState)
    → axis + n ≤ length known.axes
    → axis ≤ k
    → k < axis + n
    → get_or (copy_axes n axis target known).axes k (pos 0) ≡ get_or target.axes k (pos 0)
unfolding copy_axes
copy_axes_at zero axis k target known size le lt = absurd (omega arith)
copy_axes_at (suc n) axis k target known size le lt = elim (ℕ_discrete axis k) [
  | yes here ↦
      copy_axes_before n (suc axis) k target next (omega arith)
      ∙ rw (← here, get_or-set_self known.axes axis v (pos 0) (omega arith))
  | no other ↦
      copy_axes_at n (suc axis) k target next (omega (arith, length-set known.axes axis v))
        (omega arith) (omega arith)
]
  where
    v : ℤ
    v = get_or target.axes axis (pos 0)

    next : GamepadState
    next = record known { axes = set known.axes axis v }

pub copy_axes_buttons :
    (n axis : ℕ) (target known : GamepadState)
    → (copy_axes n axis target known).buttons ≡ known.buttons
unfolding copy_axes
copy_axes_buttons zero axis target known = refl
copy_axes_buttons (suc n) axis target known = copy_axes_buttons n (suc axis) target _

abbrev pub Has : ℕ → List ℕ → Type 0
Has d [] = ⊥
Has d (x ∷ xs) = (x ≡ d) ⊎ Has d xs

-- A button of the list, or one that agreed before, agrees after.
pub copy_buttons_at :
    (ds : List ℕ) (d : ℕ) (target known : GamepadState)
    → Has d ds ⊎ (is_pressed known.buttons d ≡ is_pressed target.buttons d)
    → All IsCoded ds
    → 0 < d
    → is_pressed (copy_buttons ds target known).buttons d ≡ is_pressed target.buttons d
unfolding copy_buttons
copy_buttons_at [] d target known (inl h) v lt = absurd h
copy_buttons_at [] d target known (inr agreed) v lt = agreed
copy_buttons_at (x ∷ ds) d target known h (coded, v) lt =
    copy_buttons_at ds d target next (now h) v lt
  where
    next : GamepadState
    next = record known { buttons = set_pressed (is_pressed target.buttons x) known.buttons x }

    self : x ≡ d → is_pressed next.buttons d ≡ is_pressed target.buttons d
    self e = rw (← e) (test_bit-set_pressed (is_pressed target.buttons x) known.buttons x)

    other : x ≢ d → is_pressed next.buttons d ≡ is_pressed known.buttons d
    other ne =
        test_bit-set_pressed_ne (is_pressed target.buttons x) known.buttons x (d - 1)
          (λ e. ne (omega (arith, e, coded.1)))

    now :
        Has d (x ∷ ds) ⊎ (is_pressed known.buttons d ≡ is_pressed target.buttons d)
        → Has d ds ⊎ (is_pressed next.buttons d ≡ is_pressed target.buttons d)
    now (inl (inl e)) = inr (self e)
    now (inl (inr later)) = inl later
    now (inr agreed) = elim (ℕ_discrete x d) [
      | yes e ↦ inr (self e)
      | no ne ↦ inr (other ne ∙ agreed)
    ]

pub same-IsMirror :
    (s : PadState) (known target : GamepadState)
    → length target.axes ≡ 6
    → ((k : ℕ) → k < 6 → get_or known.axes k (pos 0) ≡ get_or target.axes k (pos 0))
    → (known.hat_x ≡ target.hat_x) × (known.hat_y ≡ target.hat_y)
    → ((j : ℕ) → j < 12 → test_bit known.buttons (place j) ≡ test_bit target.buttons (place j))
    → IsMirror s known
    → IsMirror s target
same-IsMirror s known target size axes hats buttons m = record {
  shown_axes = m.shown_axes;
  known_axes = size;
  axes = λ k h. m.axes k h ∙ ap (shown_axis k) (axes k h);
  hat_x = m.hat_x ∙ hats.0;
  hat_y = m.hat_y ∙ hats.1;
  buttons = λ j h. m.buttons j h ∙ buttons j h;
}
