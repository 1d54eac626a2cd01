-- ===== src/Preload/Reports/Keys.antt =====
-- The keys that src/evdev_preload.c reports, against those that the bridge sends and that a read
-- gives.
use native.Mathlib.Decide.{ℕ_discrete, dec_lt}
use termux_gamepad.Prelude.{
  subst, lt→ltb, ◌↔◌, ℕ, zero, suc, ◌/◌, ◌≤◌, ◌<◌, ◌≡◌, ◌≢◌, refl, arith, Bool, true, false, ◌&&◌,
  ◌||◌, List, [], ◌∷◌, ltb, ◌==◌, length, length-replicate, get_or, test_bit-zero, replicate, All,
  AllBelow, AllBelow-at,
}
use termux_gamepad.Wire.{ev_key}
use termux_gamepad.Bridge.Convert.{button_code}
use termux_gamepad.Common.{set_buffer_bit, buffer_bit}
use termux_gamepad.Common.Bits.{buffer_bit-set_buffer_bit, length-set_buffer_bit}
use termux_gamepad.Preload.Setup.{dinput_button_code}
use termux_gamepad.Preload.Reports.{reported_codes, set_bits, fill_bits, dinput_keys, xinput_keys}

abbrev pub is_member : ℕ → List ℕ → Bool
is_member k [] = false
is_member k (c ∷ cs) = (c == k) || is_member k cs

buffer_bit-zeros : (len k : ℕ) → buffer_bit (replicate len 0) k ≡ false
unfolding buffer_bit
buffer_bit-zeros len k = rw (zeros len (k / 8)) (test_bit-zero _)
  where
    zeros : (n i : ℕ) → get_or {A = ℕ} (replicate n 0) i 0 ≡ 0
    zeros zero i = refl
    zeros (suc n) zero = refl
    zeros (suc n) (suc i) = zeros n i

buffer_bit-set_bits :
    (codes buf : List ℕ) (k : ℕ)
    → buffer_bit (set_bits codes buf) k
      ≡ (is_member k codes && ltb (k / 8) (length buf)) || buffer_bit buf k
unfolding set_bits
buffer_bit-set_bits [] buf k = refl
buffer_bit-set_bits (c ∷ cs) buf k =
    let later = buffer_bit-set_bits cs (set_buffer_bit buf c) k in
    let size = length-set_buffer_bit buf c in
    let now = buffer_bit-set_buffer_bit buf c k in ground (arith, later, size, now)

-- A bit of the buffer that EVIOCGBIT fills says whether its code is reported and the buffer reaches
-- that far.
pub buffer_bit-fill_bits :
    (len ev k : ℕ) (dinput : Bool)
    → buffer_bit (fill_bits len ev dinput) k
      ≡ is_member k (reported_codes ev dinput) && ltb (k / 8) len
unfolding fill_bits
buffer_bit-fill_bits len ev k dinput =
    let set = buffer_bit-set_bits (reported_codes ev dinput) (replicate len 0) k in
    let zeros = buffer_bit-zeros len k in
    let size : length {A = ℕ} (replicate len 0) ≡ len = length-replicate len 0 in
    ground (arith, set, zeros, size)

-- The code under which a press of the gamepad's button `detail` is read.
abbrev pub delivered_key : Bool → ℕ → ℕ
delivered_key true detail = dinput_button_code (button_code detail)
delivered_key false detail = button_code detail

-- Some button of the gamepad is read as `k`.
abbrev pub IsDelivered : Bool → ℕ → Type 0
IsDelivered dinput k = (detail : ℕ) × (button_code detail ≢ 0) × (delivered_key dinput detail ≡ k)

All-is_member : (P : ℕ → Type 0) (ks : List ℕ) (k : ℕ) → All P ks → is_member k ks ≡ true → P k
All-is_member P [] k h m = absurd (cc)
All-is_member P (c ∷ cs) k h m = elim (ℕ_discrete c k) [
  | yes e ↦ subst P e h.0
  | no e ↦ All-is_member P cs k h.1 (ground (arith, e))
]

-- Checked button by button; behind the last no button has a code.
abbrev IsReported : Bool → ℕ → Type 0
IsReported dinput detail =
    ((button_code detail == 0)
      || is_member (delivered_key dinput detail) (reported_codes ev_key dinput))
    ≡ true

buttons-IsReported : (dinput : Bool) → AllBelow 17 (IsReported dinput)
unfolding reported_codes button_code dinput_button_code
buttons-IsReported true = (
  refl,
  (
    refl,
    (
      refl,
      (
        refl,
        (
          refl,
          (
            refl,
            (
              refl,
              (refl, (refl, (refl, (refl, (refl, (refl, (refl, (refl, (refl, (refl, tt)))))))))),
            ),
          ),
        ),
      ),
    ),
  ),
)
buttons-IsReported false = (
  refl,
  (
    refl,
    (
      refl,
      (
        refl,
        (
          refl,
          (
            refl,
            (
              refl,
              (refl, (refl, (refl, (refl, (refl, (refl, (refl, (refl, (refl, (refl, tt)))))))))),
            ),
          ),
        ),
      ),
    ),
  ),
)

no_button : (detail : ℕ) → 17 ≤ detail → button_code detail ≡ 0
unfolding button_code
no_button detail h = ground arith

key_reported :
    (dinput : Bool) (detail : ℕ)
    → button_code detail ≢ 0
    → is_member (delivered_key dinput detail) (reported_codes ev_key dinput) ≡ true
key_reported dinput detail known = elim (dec_lt detail 17) [
  | yes h ↦
      let reported = AllBelow-at 17 (IsReported dinput) (buttons-IsReported dinput) detail h in
      ground (arith, reported)
  | no h ↦ absurd (known (no_button detail (omega arith)))
]

-- The gamepad's button `detail`, which has a code.
by :
    (dinput : Bool) (detail : ℕ)
    → (button_code detail == 0) ≡ false
    → IsDelivered dinput (delivered_key dinput detail)
by dinput detail h = (detail, (λ e. ground arith), refl)

key-IsDelivered :
    (dinput : Bool) (k : ℕ)
    → is_member k (reported_codes ev_key dinput) ≡ true
    → IsDelivered dinput k
unfolding reported_codes button_code dinput_button_code
key-IsDelivered true k m =
    All-is_member (IsDelivered true) dinput_keys k
      (
        by true 1 refl,
        (
          by true 2 refl,
          (
            by true 4 refl,
            (
              by true 3 refl,
              (
                by true 5 refl,
                (
                  by true 6 refl,
                  (
                    by true 7 refl,
                    (
                      by true 8 refl,
                      (by true 15 refl, (by true 9 refl, (by true 10 refl, (by true 16 refl, tt)))),
                    ),
                  ),
                ),
              ),
            ),
          ),
        ),
      )
      m
key-IsDelivered false k m =
    All-is_member (IsDelivered false) xinput_keys k
      (
        by false 1 refl,
        (
          by false 2 refl,
          (
            by false 4 refl,
            (
              by false 3 refl,
              (
                by false 5 refl,
                (
                  by false 6 refl,
                  (
                    by false 7 refl,
                    (
                      by false 8 refl,
                      (
                        by false 15 refl,
                        (by false 9 refl, (by false 10 refl, (by false 16 refl, tt))),
                      ),
                    ),
                  ),
                ),
              ),
            ),
          ),
        ),
      )
      m

-- A device reports a key exactly if some button of the gamepad is read as that key, in either mode;
-- the caller's buffer reaches as far as the key's bit.
pub fill_bits_keys :
    (len k : ℕ) (dinput : Bool)
    → k / 8 < len
    → (buffer_bit (fill_bits len ev_key dinput) k ≡ true) ↔ IsDelivered dinput k
fill_bits_keys len k dinput room =
    let bit = buffer_bit-fill_bits len ev_key k dinput in
    let reaches = lt→ltb (k / 8) len room in
    (
      λ set. key-IsDelivered dinput k (ground (arith, bit, reaches)),
      λ (detail, known, e).
          let reported : is_member k (reported_codes ev_key dinput) ≡ true =
            subst (λ c. is_member c (reported_codes ev_key dinput) ≡ true) e
              (key_reported dinput detail known) in
          ground (arith, bit, reaches, reported),
    )
