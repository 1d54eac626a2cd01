-- ===== src/Preload/Effects.antt =====
-- The force feedback effects of src/evdev_preload.c: `tg_find_effect`, `tg_scaled_abs`,
-- `tg_condition_strength`, `tg_upload_effect`, `tg_remove_effect` and `tg_clear_effects`.
use termux_gamepad.Prelude.{
  ℕ, zero, suc, ◌+◌, ◌*◌, ◌%◌, Bool, true, false, not, ◌&&◌, ◌||◌, List, [], ◌∷◌, Option, none,
  some, ℤ, pos, negsuc, pos_part, neg_part, ltb, ◌==◌, eq_ℤ, if◌then◌else◌, get_or, set, u16_mod,
}

abbrev pub max_effects : ℕ
max_effects = 16

pub record EffectSlot : Type 0 where
  pub used : Bool
  pub fd : ℤ
  pub low_frequency : ℕ
  pub high_frequency : ℕ
  pub duration_ms : ℕ

abbrev pub empty_slot : EffectSlot
empty_slot = record {
  used = false;
  fd = pos 0;
  low_frequency = 0;
  high_frequency = 0;
  duration_ms = 0;
}

-- `struct tg_ff_condition_effect`, of which the rest is not read.
pub record Condition : Type 0 where
  pub right_saturation : ℕ
  pub left_saturation : ℕ
  pub right_coeff : ℤ
  pub left_coeff : ℤ

-- `type` and what is read of the union `u`. A condition is a spring, a damper, inertia or friction.
pub data Force : Type 0 where
  rumble : ℕ → ℕ → Force
  constant : ℤ → Force
  periodic : ℤ → Force
  ramp : ℤ → ℤ → Force
  condition : Condition → Condition → Force
  other_force : Force

pub record Effect : Type 0 where
  pub id : ℤ
  pub replay_length : ℕ
  pub force : Force

abbrev pub effect_at : List EffectSlot → ℕ → EffectSlot
effect_at slots i = get_or slots i empty_slot

-- The effect `id` is in use by `fd`.
abbrev pub holds : ℤ → EffectSlot → Bool
holds fd s = s.used && eq_ℤ s.fd fd

-- `none` for -1.
unfoldable pub find_effect : ℤ → ℤ → List EffectSlot → Option ℕ
find_effect fd (negsuc n) slots = none
find_effect fd (pos id) slots =
    if not (ltb id max_effects)
    then none
    else if holds fd (effect_at slots id)
    then some id
    else none

unfoldable pub scaled_abs : ℤ → ℕ
scaled_abs value =
    let size = pos_part value + neg_part value in
    (if ltb 32767 size then 32767 else size) * 2 % u16_mod

abbrev pub stronger : ℕ → ℕ → ℕ
stronger a b = if ltb a b then b else a

unfoldable pub condition_strength : Condition → ℕ
condition_strength c =
    stronger (stronger (stronger c.right_saturation c.left_saturation) (scaled_abs c.right_coeff))
      (scaled_abs c.left_coeff)

-- `low_frequency` and `high_frequency`; `none` for a type that is refused.
unfoldable pub magnitudes : Force → Option (ℕ × ℕ)
magnitudes (rumble strong weak) = some (strong, weak)
magnitudes (constant level) = some (scaled_abs level, scaled_abs level)
magnitudes (periodic magnitude) = some (scaled_abs magnitude, scaled_abs magnitude)
magnitudes (ramp first last) =
    let strength =
      if ltb (scaled_abs last) (scaled_abs first) then scaled_abs first else scaled_abs last in
    some (strength, strength)
magnitudes (condition x y) = some (condition_strength x, condition_strength y)
magnitudes other_force = none

-- The first slot that is not in use, or the length.
unfoldable pub unused_slot : List EffectSlot → ℕ
unused_slot [] = 0
unused_slot (s ∷ ss) = let later = suc (unused_slot ss) in if s.used then later else 0

-- The slot that an effect goes to; `none` for the status -1.
unfoldable pub choose_slot : ℤ → ℤ → List EffectSlot → Option ℕ
choose_slot fd (pos id) slots =
    let s = effect_at slots id in
    if not (ltb id max_effects) || (s.used && not (eq_ℤ s.fd fd)) then none else some id
choose_slot fd (negsuc zero) slots =
    let i = unused_slot slots in if i == max_effects then none else some i
choose_slot fd (negsuc (suc n)) slots = none

abbrev pub stored : ℤ → ℕ → ℕ × ℕ → EffectSlot
stored fd duration_ms (low, high) = record {
  used = true;
  fd = fd;
  low_frequency = low;
  high_frequency = high;
  duration_ms = duration_ms;
}

-- The slot, which is stored in the effect's `id`, and the slots behind; `none` for the status -1.
unfoldable pub upload_effect : ℤ → Effect → List EffectSlot → Option (ℕ × List EffectSlot)
upload_effect fd effect slots = elim (magnitudes effect.force) [
  | none ↦ none
  | some m ↦ elim (choose_slot fd effect.id slots) [
    | none ↦ none
    | some i ↦ some (i, set slots i (stored fd effect.replay_length m))
  ]
]

abbrev pub release : EffectSlot → EffectSlot
release s = record s { used = false }

unfoldable pub remove_effect : ℤ → ℤ → List EffectSlot → Option (List EffectSlot)
remove_effect fd id slots = elim (find_effect fd id slots) [
  | none ↦ none
  | some i ↦ some (set slots i (release (effect_at slots i)))
]

unfoldable pub clear_effects : ℤ → List EffectSlot → List EffectSlot
clear_effects fd [] = []
clear_effects fd (s ∷ ss) = (if holds fd s then release s else s) ∷ clear_effects fd ss
