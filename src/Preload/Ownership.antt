-- ===== src/Preload/Ownership.antt =====
-- The owners of the effects of src/evdev_preload.c.
use termux_gamepad.Prelude.{
  ℕ, zero, suc, ◌≡◌, inl, inr, refl, sym, subst, arith, true, false, List, [], ◌∷◌, Option, none,
  some, ℤ, pos, negsuc, eq_ℤ, set, get_or-set_ne, Option-cases, Bool-cases,
}
use termux_gamepad.Preload.Effects.{
  EffectSlot, Effect, empty_slot, effect_at, holds, find_effect, magnitudes, unused_slot,
  choose_slot, stored, upload_effect, release, remove_effect, clear_effects,
}

-- An effect of another descriptor.
abbrev pub IsOthers : ℤ → EffectSlot → Type 0
IsOthers fd s = (s.used ≡ true) × (eq_ℤ s.fd fd ≡ false)

-- Every effect of another descriptor is as before.
abbrev pub Spares : ℤ → List EffectSlot → List EffectSlot → Type 0
Spares fd slots slots' =
    (k : ℕ) → IsOthers fd (effect_at slots k) → effect_at slots' k ≡ effect_at slots k

unused_slot-free : (slots : List EffectSlot) → (effect_at slots (unused_slot slots)).used ≡ false
unfolding unused_slot
unused_slot-free [] = refl
unused_slot-free (s ∷ ss) = elim (Bool-cases s.used) [
  | inl e ↦ rw e (unused_slot-free ss)
  | inr e ↦ rw e
]

-- No effect goes where another descriptor's is.
choose_slot-free :
    (fd id : ℤ) (slots : List EffectSlot) (i : ℕ)
    → choose_slot fd id slots ≡ some i
    → ¬ IsOthers fd (effect_at slots i)
unfolding choose_slot
choose_slot-free fd (pos id) slots i e (used, others) = grind arith
choose_slot-free fd (negsuc zero) slots i e (used, others) =
    let free = unused_slot-free slots in grind arith
choose_slot-free fd (negsuc (suc n)) slots i e (used, others) = cc

set-Spares :
    (fd : ℤ) (slots : List EffectSlot) (i : ℕ) (s : EffectSlot)
    → ¬ IsOthers fd (effect_at slots i)
    → Spares fd slots (set slots i s)
set-Spares fd slots i s free k theirs =
    get_or-set_ne slots i k s empty_slot
      (λ e. free (subst (λ j. IsOthers fd (effect_at slots j)) (sym e) theirs))

-- `P` of the slots that a call leaves, if it succeeds.
abbrev pub IfAny {ℓ} : {A : Type 0} → (A → Type ℓ) → Option A → Type ℓ
IfAny P none = Unit
IfAny P (some a) = P a

pub upload_effect-Spares :
    (fd : ℤ) (effect : Effect) (slots : List EffectSlot)
    → IfAny (λ (r : ℕ × List EffectSlot). Spares fd slots r.1) (upload_effect fd effect slots)
unfolding upload_effect
upload_effect-Spares fd effect slots = elim (Option-cases (magnitudes effect.force)) [
  | inl refused ↦ rw (refused, IfAny) tt
  | inr (m, known) ↦ elim (Option-cases (choose_slot fd effect.id slots)) [
    | inl full ↦ rw (known, full, IfAny) tt
    | inr (i, chosen) ↦
        rw (known, chosen, IfAny)
          (set-Spares fd slots i (stored fd effect.replay_length m)
            (choose_slot-free fd effect.id slots i chosen))
  ]
]

find_effect-holds :
    (fd id : ℤ) (slots : List EffectSlot) (i : ℕ)
    → find_effect fd id slots ≡ some i
    → ¬ IsOthers fd (effect_at slots i)
unfolding find_effect
find_effect-holds fd (pos id) slots i e (used, others) = grind arith
find_effect-holds fd (negsuc n) slots i e (used, others) = cc

pub remove_effect-Spares :
    (fd id : ℤ) (slots : List EffectSlot) → IfAny (Spares fd slots) (remove_effect fd id slots)
unfolding remove_effect
remove_effect-Spares fd id slots = elim (Option-cases (find_effect fd id slots)) [
  | inl missing ↦ rw (missing, IfAny) tt
  | inr (i, found) ↦
      rw (found, IfAny)
        (set-Spares fd slots i (release (effect_at slots i))
          (find_effect-holds fd id slots i found))
]

pub clear_effects-Spares :
    (fd : ℤ) (slots : List EffectSlot) → Spares fd slots (clear_effects fd slots)
unfolding clear_effects
clear_effects-Spares fd [] k theirs = refl
clear_effects-Spares fd (s ∷ ss) zero (used, others) = ground arith
clear_effects-Spares fd (s ∷ ss) (suc k) theirs = clear_effects-Spares fd ss k theirs

holds-clear_effects :
    (fd : ℤ) (slots : List EffectSlot) (k : ℕ)
    → holds fd (effect_at (clear_effects fd slots) k) ≡ false
unfolding clear_effects
holds-clear_effects fd [] k = refl
holds-clear_effects fd (s ∷ ss) zero = elim (Bool-cases (holds fd s)) [
  | inl ours ↦ rw ours
  | inr not_ours ↦ rw (not_ours, not_ours)
]
holds-clear_effects fd (s ∷ ss) (suc k) = holds-clear_effects fd ss k

-- After `tg_clear_effects` the descriptor has none.
pub find_effect-clear_effects :
    (fd id : ℤ) (slots : List EffectSlot) → find_effect fd id (clear_effects fd slots) ≡ none
unfolding find_effect
find_effect-clear_effects fd (negsuc n) slots = refl
find_effect-clear_effects fd (pos id) slots =
    let cleared = holds-clear_effects fd slots id in ground arith
