-- ===== src/Common/Text.antt =====
-- `tg_strlen`, `tg_streq` and `tg_copy` of src/tg_common.h against the texts that C strings stand
-- for.
use termux_gamepad.Prelude.{
  ℕ, zero, suc, ◌≤◌, ◌≡◌, refl, ap, arith, true, ◌↔◌, List, [], ◌∷◌, ◌==◌, length, take, drop,
  if◌then◌else◌, if_cases,
}
use termux_gamepad.Wire.{c_string}
use termux_gamepad.Wire.Text.{head_or_nul, tail_of}
use termux_gamepad.Common.{strlen, same_text, copy}

pub strlen_lem : (s : List ℕ) → strlen s ≡ length (c_string s)
unfolding strlen c_string
strlen_lem [] = refl
strlen_lem (x ∷ xs) = ground (arith, strlen_lem xs)

c_string-step :
    (b : List ℕ)
    → c_string b ≡ (if head_or_nul b == 0 then [] else head_or_nul b ∷ c_string (tail_of b))
unfolding c_string
c_string-step [] = refl
c_string-step (x ∷ xs) = refl

pub same_text→eq : (a b : List ℕ) → same_text a b ≡ true → c_string a ≡ c_string b
unfolding same_text c_string
same_text→eq [] b h = ground (arith, c_string-step b)
same_text→eq (x ∷ a) b h = ground (arith, c_string-step b, same_text→eq a (tail_of b))

pub eq→same_text : (a b : List ℕ) → c_string a ≡ c_string b → same_text a b ≡ true
unfolding same_text c_string
eq→same_text [] b h = ground (arith, c_string-step b)
eq→same_text (x ∷ a) b h = ground (arith, c_string-step b, eq→same_text a (tail_of b))

-- Two C strings compare equal exactly when the texts before their terminators are the same.
pub same_text_lem : (a b : List ℕ) → (same_text a b ≡ true) ↔ (c_string a ≡ c_string b)
same_text_lem a b = (same_text→eq a b, eq→same_text a b)

-- A copy into `cap` bytes leaves the text, cut to leave room for its terminator; the bytes behind
-- are as before, and so is the array's size.
pub copy_lem :
    (dst src : List ℕ) (cap : ℕ)
    → suc cap ≤ length dst
    → (c_string (copy dst src (suc cap)) ≡ take cap (c_string src))
      × (drop (suc cap) (copy dst src (suc cap)) ≡ drop (suc cap) dst)
      × (length (copy dst src (suc cap)) ≡ length dst)
unfolding copy c_string
copy_lem [] src cap h = absurd (omega arith)
copy_lem (d ∷ dst) src zero h = (refl, refl, refl)
copy_lem (d ∷ dst) src (suc cap) h =
    let (text, behind, size) = copy_lem dst (tail_of src) cap (omega arith) in
    let Kept : List ℕ → Type 0 = λ all.
      (c_string all ≡ take (suc cap) (c_string src))
      × (drop (suc (suc cap)) all ≡ drop (suc cap) dst)
      × (length all ≡ suc (length dst)) in
    if_cases Kept (head_or_nul src == 0) _ _ (λ e. (rw (c_string-step src, e), refl, refl))
      (λ e. (rw (c_string-step src, e) (ap (◌∷◌ (head_or_nul src)) text), behind, ap suc size))

-- A copy stays inside `cap` bytes, whatever the sizes are.
pub copy_within :
    (dst src : List ℕ) (cap : ℕ)
    → (drop cap (copy dst src cap) ≡ drop cap dst) × (length (copy dst src cap) ≡ length dst)
unfolding copy
copy_within dst src zero = (refl, refl)
copy_within [] src (suc cap) = (refl, refl)
copy_within (d ∷ dst) src (suc zero) = (refl, refl)
copy_within (d ∷ dst) src (suc (suc cap)) =
    let (behind, size) = copy_within dst (tail_of src) (suc cap) in
    if_cases
      (λ (all : List ℕ).
        (drop (suc (suc cap)) all ≡ drop (suc cap) dst) × (length all ≡ suc (length dst)))
      (head_or_nul src == 0) _ _ (λ _. (refl, refl)) (λ _. (behind, ap suc size))
