-- ===== src/Preload/Joydev/Numbers.antt =====
-- The counts of axes and buttons that src/evdev_preload.c reports for a joystick, against the
-- numbers in its events.
use termux_gamepad.Prelude.{
  ℕ, ◌<◌, ◌≤◌, ◌≡◌, ◌≢◌, ◌↔◌, refl, arith, true, false, List, ◌∷◌, some, ◌==◌, leb, AllBelow,
  AllBelow-at, le_bytes,
}
use termux_gamepad.Bridge.Convert.{button_code}
use termux_gamepad.Preload.Fds.{FakeFd}
use termux_gamepad.Preload.Joydev.{joy_axis_number, joy_button_number}
use termux_gamepad.Preload.Reports.{
  request_nr, request_type, request_size, reported_axes, fake_joy_ioctl,
}
use termux_gamepad.Preload.Reports.Keys.{is_member}
use termux_gamepad.Preload.Setup.{Environment}

-- The number of some button that the gamepad has.
abbrev pub IsButton : ℕ → Type 0
IsButton n =
    (detail : ℕ) × (button_code detail ≢ 0) × (joy_button_number (button_code detail) ≡ some n)

-- The number of some axis that the device reports.
abbrev pub IsAxis : ℕ → Type 0
IsAxis n = (code : ℕ) × (is_member code reported_axes ≡ true) × (joy_axis_number code ≡ some n)

by_button :
    {n : ℕ} (detail : ℕ)
    → (button_code detail == 0) ≡ false
    → joy_button_number (button_code detail) ≡ some n
    → IsButton n
by_button detail known number = (detail, (λ e. ground arith), number)

buttons : AllBelow 12 IsButton
unfolding button_code joy_button_number
buttons = (
  by_button 16 refl refl,
  (
    by_button 10 refl refl,
    (
      by_button 9 refl refl,
      (
        by_button 15 refl refl,
        (
          by_button 8 refl refl,
          (
            by_button 7 refl refl,
            (
              by_button 6 refl refl,
              (
                by_button 5 refl refl,
                (
                  by_button 4 refl refl,
                  (by_button 3 refl refl, (by_button 2 refl refl, (by_button 1 refl refl, tt))),
                ),
              ),
            ),
          ),
        ),
      ),
    ),
  ),
)

axes : AllBelow 8 IsAxis
unfolding joy_axis_number
axes = (
  (17, refl, refl),
  (
    (16, refl, refl),
    (
      (5, refl, refl),
      (
        (4, refl, refl),
        ((3, refl, refl), ((2, refl, refl), ((1, refl, refl), ((0, refl, refl), tt)))),
      ),
    ),
  ),
)

joy_button_number-lt : (code n : ℕ) → joy_button_number code ≡ some n → n < 12
unfolding joy_button_number
joy_button_number-lt code n h = ground arith

joy_axis_number-lt : (code n : ℕ) → joy_axis_number code ≡ some n → n < 8
unfolding joy_axis_number
joy_axis_number-lt code n h = ground arith

leb_of_le : (a b : ℕ) → a ≤ b → leb a b ≡ true
leb_of_le a b h = ground arith

-- The byte that JSIOCGBUTTONS stores counts the buttons: the numbers below it are exactly those
-- under which some button of the gamepad is read; and the byte that JSIOCGAXES stores counts the
-- axes in the same way. The caller gives at least a byte of memory.
pub joystick_counts :
    (env : Environment) (f : FakeFd) (buttons_req axes_req arg b : ℕ) (mem : List ℕ)
    → request_type buttons_req ≡ b'j'
    → request_nr buttons_req ≡ 0x12
    → 1 ≤ request_size buttons_req
    → request_type axes_req ≡ b'j'
    → request_nr axes_req ≡ 0x11
    → 1 ≤ request_size axes_req
    → arg ≢ 0
    → (count_buttons : ℕ) × (count_axes : ℕ) × ((fake_joy_ioctl env f buttons_req arg (b ∷ mem)).1
        ≡ count_buttons ∷ mem)
      × ((fake_joy_ioctl env f axes_req arg (b ∷ mem)).1 ≡ count_axes ∷ mem)
      × ((n : ℕ) → (n < count_buttons) ↔ IsButton n)
      × ((n : ℕ) → (n < count_axes) ↔ IsAxis n)
unfolding fake_joy_ioctl le_bytes
joystick_counts env f buttons_req axes_req arg b mem bt bn bs at an as_ given =
    let some_arg : (arg == 0) ≡ false = ground arith in
    (
      12,
      8,
      rw (bt, bn, some_arg, leb_of_le 1 (request_size buttons_req) bs),
      rw (at, an, some_arg, leb_of_le 1 (request_size axes_req) as_),
      λ n. (
        AllBelow-at 12 IsButton buttons n,
        λ (detail, known, number). joy_button_number-lt (button_code detail) n number,
      ),
      λ n. (AllBelow-at 8 IsAxis axes n, λ (code, known, number). joy_axis_number-lt code n number),
    )
