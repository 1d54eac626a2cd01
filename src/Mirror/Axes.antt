-- ===== src/Mirror/Axes.antt =====
-- Axes and hat: the values that src/lorie_evdev_bridge.c reports and those the library shows.
use native.Mathlib.Decide.{dec_lt, ℕ_discrete}
use termux_gamepad.Prelude.{
  ℕ, suc, ◌<◌, ◌≡◌, refl, sym, ap, ◌∙◌, subst, arith, Bool, true, false, not, ◌&&◌, List, [], ◌∷◌,
  ◌++◌, ℤ, pos, negsuc, ltb, eq_ℤ, if_cases, get_or, set, AllBelow-at, if◌then◌else◌, length-set,
  get_or-set_self, get_or-set_ne, cast_s16, cast_s16-of_IsS16, cast_s8, ◌≤ℤ◌,
}
use termux_gamepad.Wire.{InputEvent, ev_abs, ev_key}
use termux_gamepad.Bridge.State.{GamepadState}
use termux_gamepad.Bridge.Convert.{convert_axis, axis_code, hat_value}
use termux_gamepad.Bridge.Convert.Range.{convert_axis-IsS16, hat_value_bounds}
use termux_gamepad.Bridge.Input.{
  Report, append_event, move_axis, motion_loop, move_hat_x, move_hat_y,
}
use termux_gamepad.Gamepad.State.{PadState}
use termux_gamepad.Gamepad.Events.{
  process_event, process_abs, trigger_value, with_axis, press, button_index,
}
use termux_gamepad.Mirror.{replay, IsMirror, shown_axis}

pub replay-append :
    (s : PadState) (es fs : List InputEvent) → replay s (es ++ fs) ≡ replay (replay s es) fs
unfolding replay
replay-append s [] fs = refl
replay-append s (e ∷ es) fs = replay-append (process_event s e).0 es fs

-- What the library shows after a report, if it showed `s` before.
abbrev pub shown : PadState → Report → PadState
shown s r = replay s r.events

abbrev pub Follows : PadState → Report → Type 0
Follows s r = IsMirror (shown s r) r.state

-- An event that is appended is the last that is processed; its time does not matter.
pub shown-append_event :
    (s : PadState) (type code : ℕ) (value : ℤ) (r : Report)
    → shown s (append_event type code value r)
      ≡ (process_event
          (shown s r)
          (record { sec = 0; usec = 0; type = type; code = code; value = value })).0
unfolding append_event replay process_event
shown-append_event s type code value r = replay-append s r.events _

-- The report of a new value of an axis or hat, or of a key.
pub append_abs-Follows :
    (s : PadState) (code : ℕ) (value : ℤ) (g : GamepadState) (r : Report)
    → IsMirror (process_abs (shown s r) code value) g
    → Follows s (append_event ev_abs code value (record r { state = g }))
unfolding process_event append_event
append_abs-Follows s code value g r m =
    subst (λ t. IsMirror t g)
      (sym (shown-append_event s ev_abs code value (record r { state = g }))) m

pub append_key-Follows :
    (s : PadState) (code : ℕ) (value : ℤ) (g : GamepadState) (r : Report)
    → IsMirror (press (button_index code) value (shown s r)) g
    → Follows s (append_event ev_key code value (record r { state = g }))
unfolding process_event append_event
append_key-Follows s code value g r m =
    subst (λ t. IsMirror t g)
      (sym (shown-append_event s ev_key code value (record r { state = g }))) m

abbrev pub read_axis : ℕ → ℤ → ℤ
read_axis axis value = if ltb axis 4 then cast_s16 value else trigger_value value

-- The library finds the axis by the code that the bridge gives it.
pub process_abs-axis_code :
    (axis : ℕ)
    → axis < 6
    → (s : PadState) (v : ℤ)
    → process_abs s (axis_code axis) v ≡ with_axis s axis (read_axis axis v)
unfolding process_abs axis_code
process_abs-axis_code axis h =
    AllBelow-at 6
      (λ k. (s : PadState) (v : ℤ) → process_abs s (axis_code k) v ≡ with_axis s k (read_axis k v))
      (
        (λ s v. refl),
        ((λ s v. refl), ((λ s v. refl), ((λ s v. refl), ((λ s v. refl), ((λ s v. refl), tt))))),
      )
      axis h

read_axis_shown :
    (axis : ℕ) (value : ℤ)
    → read_axis axis (convert_axis axis value) ≡ shown_axis axis (convert_axis axis value)
read_axis_shown axis value = elim (dec_lt axis 4) [
  | yes stick ↦
      ground
        (arith, cast_s16-of_IsS16 (convert_axis axis value) (convert_axis-IsS16 axis value stick))
  | no trigger ↦ ground arith
]

pub with_axis-IsMirror :
    (s : PadState) (g : GamepadState) (axis : ℕ) (v w : ℤ)
    → axis < 6
    → w ≡ shown_axis axis v
    → IsMirror s g
    → IsMirror (with_axis s axis w) (record g { axes = set g.axes axis v })
with_axis-IsMirror s g axis v w h e m = record {
  shown_axes = length-set s.axes axis w ∙ m.shown_axes;
  known_axes = length-set g.axes axis v ∙ m.known_axes;
  axes = λ k lt. elim (ℕ_discrete axis k) [
    | yes here ↦
        let self = get_or-set_self s.axes axis w (pos 0) (omega (arith, m.shown_axes)) in
        let known = get_or-set_self g.axes axis v (pos 0) (omega (arith, m.known_axes)) in
        rw (← here) (self ∙ e ∙ ap (shown_axis axis) (sym known))
    | no other ↦
        get_or-set_ne s.axes axis k w (pos 0) other
        ∙ m.axes k lt
        ∙ ap (shown_axis k) (sym (get_or-set_ne g.axes axis k v (pos 0) other))
  ];
  hat_x = m.hat_x;
  hat_y = m.hat_y;
  buttons = m.buttons;
}

-- A valuator that has moved.
move_axis-Follows :
    (s : PadState) (axis : ℕ) (value : ℤ) (r : Report)
    → Follows s r
    → Follows s (move_axis axis value r)
unfolding move_axis
move_axis-Follows s axis value r m =
    let v = convert_axis axis value in
    if_cases (Follows s) (ltb axis 6 && not (eq_ℤ v (get_or r.state.axes axis (pos 0)))) _ _
      (λ moved. append_abs-Follows s (axis_code axis) v _ r (
        subst (λ t. IsMirror t (record r.state { axes = set r.state.axes axis v }))
          (sym (process_abs-axis_code axis (ground arith) (shown s r) v))
          (with_axis-IsMirror (shown s r) r.state axis v _ (ground arith)
            (read_axis_shown axis value) m)))
      (λ _. m)

pub motion_loop-Follows :
    (s : PadState) (mask : List Bool) (values : List ℤ) (axis : ℕ) (r : Report)
    → Follows s r
    → Follows s (motion_loop mask values axis r)
unfolding motion_loop
motion_loop-Follows s [] values axis r m = m
motion_loop-Follows s (false ∷ mask) values axis r m =
    motion_loop-Follows s mask values (suc axis) r m
motion_loop-Follows s (true ∷ mask) [] axis r m = m
motion_loop-Follows s (true ∷ mask) (v ∷ values) axis r m =
    motion_loop-Follows s mask values (suc axis) _ (move_axis-Follows s axis v r m)

-- A hat value is a single byte, so the library's cast keeps it.
pub cast_s8_small : (z : ℤ) → negsuc 0 ≤ℤ z → z ≤ℤ pos 1 → cast_s8 z ≡ z
cast_s8_small (pos n) low high = ground arith
cast_s8_small (negsuc n) low high = ground arith

pub hat_x-IsMirror :
    (s : PadState) (g : GamepadState) (v : ℤ)
    → cast_s8 v ≡ v
    → IsMirror s g
    → IsMirror (process_abs s 0x10 v) (record g { hat_x = v })
unfolding process_abs
hat_x-IsMirror s g v e m = record {
  shown_axes = m.shown_axes;
  known_axes = m.known_axes;
  axes = m.axes;
  hat_x = e;
  hat_y = m.hat_y;
  buttons = m.buttons;
}

pub hat_y-IsMirror :
    (s : PadState) (g : GamepadState) (v : ℤ)
    → cast_s8 v ≡ v
    → IsMirror s g
    → IsMirror (process_abs s 0x11 v) (record g { hat_y = v })
unfolding process_abs
hat_y-IsMirror s g v e m = record {
  shown_axes = m.shown_axes;
  known_axes = m.known_axes;
  axes = m.axes;
  hat_x = m.hat_x;
  hat_y = e;
  buttons = m.buttons;
}

pub move_hat_x-Follows :
    (s : PadState) (buttons negative positive : ℕ) (r : Report)
    → Follows s r
    → Follows s (move_hat_x (hat_value buttons negative positive) r)
unfolding move_hat_x
move_hat_x-Follows s buttons negative positive r m =
    let v = hat_value buttons negative positive in
    let (low, high) = hat_value_bounds buttons negative positive in
    if_cases (Follows s) (eq_ℤ v r.state.hat_x) _ _ (λ _. m)
      (λ _.
        append_abs-Follows s 0x10 v _ r
          (hat_x-IsMirror (shown s r) r.state v (cast_s8_small v low high) m))

pub move_hat_y-Follows :
    (s : PadState) (buttons negative positive : ℕ) (r : Report)
    → Follows s r
    → Follows s (move_hat_y (hat_value buttons negative positive) r)
unfolding move_hat_y
move_hat_y-Follows s buttons negative positive r m =
    let v = hat_value buttons negative positive in
    let (low, high) = hat_value_bounds buttons negative positive in
    if_cases (Follows s) (eq_ℤ v r.state.hat_y) _ _ (λ _. m)
      (λ _.
        append_abs-Follows s 0x11 v _ r
          (hat_y-IsMirror (shown s r) r.state v (cast_s8_small v low high) m))
