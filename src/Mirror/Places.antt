-- ===== src/Mirror/Places.antt =====
-- The bit of the library behind each button of src/lorie_evdev_bridge.c, by the code between them.
use termux_gamepad.Prelude.{
  ℕ, ◌+◌, ◌<◌, ◌≡◌, refl, arith, [], ◌∷◌, some, ◌⊎◌, inl, inr, AllBelow-at, get_or,
}
use termux_gamepad.Bridge.Convert.{button_code}
use termux_gamepad.Gamepad.Events.{button_index}
use termux_gamepad.Mirror.{place}

-- The library's bit for a button of the bridge, by its detail.
unfoldable pub index_of : ℕ → ℕ
index_of detail =
    get_or (12 ∷ 0 ∷ 1 ∷ 2 ∷ 3 ∷ 4 ∷ 5 ∷ 6 ∷ 7 ∷ 8 ∷ 9 ∷ 12 ∷ 12 ∷ 12 ∷ 12 ∷ 10 ∷ 11 ∷ []) detail 12

-- Every bit of the library has one button behind it.
pub index_of-place : (j : ℕ) → j < 12 → (index_of (place j + 1) ≡ j) × (place j < 16)
unfolding index_of place
index_of-place =
    AllBelow-at 12 (λ j. (index_of (place j + 1) ≡ j) × (place j < 16))
      (
        (refl, omega arith),
        (
          (refl, omega arith),
          (
            (refl, omega arith),
            (
              (refl, omega arith),
              (
                (refl, omega arith),
                (
                  (refl, omega arith),
                  (
                    (refl, omega arith),
                    (
                      (refl, omega arith),
                      (
                        (refl, omega arith),
                        ((refl, omega arith), ((refl, omega arith), ((refl, omega arith), tt))),
                      ),
                    ),
                  ),
                ),
              ),
            ),
          ),
        ),
      )

-- A button that is reported as a key is found by its code.
abbrev pub IsKeyed : ℕ → Type 0
IsKeyed d =
    ((button_code d ≡ 0) × ((d ≡ 0) ⊎ ((10 < d) × (d < 15))))
    ⊎ ((0 < button_code d)
        × (button_index (button_code d) ≡ some (index_of d))
        × (place (index_of d) + 1 ≡ d)
        × (index_of d < 12))

pub button_code-IsKeyed : (d : ℕ) → d < 17 → IsKeyed d
unfolding index_of place button_code button_index
button_code-IsKeyed = AllBelow-at 17 IsKeyed (
  inr (omega arith, refl, refl, omega arith),
  (
    inr (omega arith, refl, refl, omega arith),
    (
      inl (refl, inr (omega arith)),
      (
        inl (refl, inr (omega arith)),
        (
          inl (refl, inr (omega arith)),
          (
            inl (refl, inr (omega arith)),
            (
              inr (omega arith, refl, refl, omega arith),
              (
                inr (omega arith, refl, refl, omega arith),
                (
                  inr (omega arith, refl, refl, omega arith),
                  (
                    inr (omega arith, refl, refl, omega arith),
                    (
                      inr (omega arith, refl, refl, omega arith),
                      (
                        inr (omega arith, refl, refl, omega arith),
                        (
                          inr (omega arith, refl, refl, omega arith),
                          (
                            inr (omega arith, refl, refl, omega arith),
                            (
                              inr (omega arith, refl, refl, omega arith),
                              (
                                inr (omega arith, refl, refl, omega arith),
                                (inl (refl, inl refl), tt),
                              ),
                            ),
                          ),
                        ),
                      ),
                    ),
                  ),
                ),
              ),
            ),
          ),
        ),
      ),
    ),
  ),
)

-- The buttons of the hat are behind no bit of the library.
pub place-ne-hat : (j : ℕ) → j < 12 → (place j < 10) ⊎ (13 < place j)
unfolding place
place-ne-hat =
    AllBelow-at 12 (λ j. (place j < 10) ⊎ (13 < place j))
      (
        inr (omega arith),
        (
          inr (omega arith),
          (
            inl (omega arith),
            (
              inl (omega arith),
              (
                inl (omega arith),
                (
                  inl (omega arith),
                  (
                    inl (omega arith),
                    (
                      inl (omega arith),
                      (
                        inl (omega arith),
                        (inl (omega arith), (inl (omega arith), (inl (omega arith), tt))),
                      ),
                    ),
                  ),
                ),
              ),
            ),
          ),
        ),
      )
