-- ===== src/Preload/Table/Changes.antt =====
-- What each change of the table of src/evdev_preload.c keeps.
use termux_gamepad.Prelude.{
  suc, ◌≤◌, ◌<◌, ◌≡◌, refl, ap, ◌∙◌, sym, subst, arith, Bool, true, false, not, ◌||◌, List, [], ◌∷◌,
  ◌++◌, none, some, ℤ, eq_ℤ, eq_ℤ→eq, is_nonneg, ltb, length, All, if_cases, Bool-cases,
  Option-cases, inl, inr,
}
use termux_gamepad.Wire.{DeviceDescriptor}
use termux_gamepad.Preload.Fds.{
  FakeFd, max_fake_fds, is_some, find_fake_fd, add_fake_fd, del_fake_fd, close_gap, last_of,
  but_last,
}
use termux_gamepad.Preload.Opening.Served.{new_fake}
use termux_gamepad.Preload.Reading.{replace_fake}
use termux_gamepad.Preload.Table.{Lacks, IsDistinct}

-- A property of every entry survives a deletion, which at most shortens the table.
module _ (P : FakeFd → Type 0) where
  last_of-All : (f : FakeFd) (fs : List FakeFd) → All P (f ∷ fs) → P (last_of f fs)
  last_of-All f [] h = h.0
  last_of-All f (g ∷ gs) h = last_of-All g gs h.1

  but_last-All : (f : FakeFd) (fs : List FakeFd) → All P (f ∷ fs) → All P (but_last f fs)
  but_last-All f [] h = tt
  but_last-All f (g ∷ gs) h = (h.0, but_last-All g gs h.1)

  close_gap-All : (fs : List FakeFd) → All P fs → All P (close_gap fs)
  close_gap-All [] h = tt
  close_gap-All (f ∷ fs) h = (last_of-All f fs h, but_last-All f fs h)

  pub del_fake_fd-All : (fd : ℤ) (fs : List FakeFd) → All P fs → All P (del_fake_fd fd fs)
  unfolding del_fake_fd
  del_fake_fd-All fd [] h = tt
  del_fake_fd-All fd (f ∷ fs) h =
      if_cases (All P) (eq_ℤ f.fd fd) _ _ (λ _. close_gap-All fs h.1)
        (λ _. (h.0, del_fake_fd-All fd fs h.1))

  pub append-All : (fs : List FakeFd) (f : FakeFd) → All P fs → P f → All P (fs ++ f ∷ [])
  append-All [] f h p = (p, tt)
  append-All (g ∷ fs) f h p = (h.0, append-All fs f h.1 p)

  pub replace_fake-All :
      (fd : ℤ) (f' : FakeFd) (fs : List FakeFd) → All P fs → P f' → All P (replace_fake fd f' fs)
  unfolding replace_fake
  replace_fake-All fd f' [] h p = tt
  replace_fake-All fd f' (f ∷ fs) h p =
      if_cases (All P) (eq_ℤ f.fd fd) _ _ (λ _. (p, h.1))
        (λ _. (h.0, replace_fake-All fd f' fs h.1 p))

  pub find_fake_fd-All :
      (fd : ℤ) (fs : List FakeFd) (f : FakeFd)
      → find_fake_fd fd fs ≡ some f
      → All P fs
      → P f × (f.fd ≡ fd)
  unfolding find_fake_fd
  find_fake_fd-All fd [] f e h = cc
  find_fake_fd-All fd (g ∷ fs) f e h = elim (Bool-cases (eq_ℤ g.fd fd)) [
    | inl here ↦
        let same : some g ≡ some f = rw here at e in
        subst (λ (x : FakeFd). P x × (x.fd ≡ fd)) (cc) (h.0, eq_ℤ→eq g.fd fd here)
    | inr later ↦
        let there : find_fake_fd fd fs ≡ some f = rw later at e in
        find_fake_fd-All fd fs f there h.1
  ]

length-but_last : (f : FakeFd) (fs : List FakeFd) → length (but_last f fs) ≡ length fs
length-but_last f [] = refl
length-but_last f (g ∷ gs) = ap suc (length-but_last g gs)

length-close_gap : (fs : List FakeFd) → length (close_gap fs) ≡ length fs
length-close_gap [] = refl
length-close_gap (f ∷ fs) = ap suc (length-but_last f fs)

pub length-del_fake_fd : (fd : ℤ) (fs : List FakeFd) → length (del_fake_fd fd fs) ≤ length fs
unfolding del_fake_fd
length-del_fake_fd fd [] = omega arith
length-del_fake_fd fd (f ∷ fs) =
    if_cases (λ (l : List FakeFd). length l ≤ suc (length fs)) (eq_ℤ f.fd fd) _ _
      (λ _. omega (arith, length-close_gap fs)) (λ _. omega (arith, length-del_fake_fd fd fs))

pub length-replace_fake :
    (fd : ℤ) (f' : FakeFd) (fs : List FakeFd) → length (replace_fake fd f' fs) ≡ length fs
unfolding replace_fake
length-replace_fake fd f' [] = refl
length-replace_fake fd f' (f ∷ fs) =
    if_cases (λ (l : List FakeFd). length l ≡ suc (length fs)) (eq_ℤ f.fd fd) _ _ (λ _. refl)
      (λ _. ap suc (length-replace_fake fd f' fs))

replace_fake-Lacks :
    (g fd : ℤ) (f' : FakeFd) (fs : List FakeFd)
    → f'.fd ≡ fd
    → Lacks g fs
    → Lacks g (replace_fake fd f' fs)
unfolding replace_fake
replace_fake-Lacks g fd f' [] e h = tt
replace_fake-Lacks g fd f' (f ∷ fs) e h =
    if_cases (Lacks g) (eq_ℤ f.fd fd) _ _
      (λ here. (ap (λ (d : ℤ). eq_ℤ d g) (e ∙ sym (eq_ℤ→eq f.fd fd here)) ∙ h.0, h.1))
      (λ _. (h.0, replace_fake-Lacks g fd f' fs e h.1))

-- An entry that is written keeps its descriptor.
pub replace_fake-IsDistinct :
    (fd : ℤ) (f' : FakeFd) (fs : List FakeFd)
    → f'.fd ≡ fd
    → IsDistinct fs
    → IsDistinct (replace_fake fd f' fs)
unfolding replace_fake
replace_fake-IsDistinct fd f' [] e h = tt
replace_fake-IsDistinct fd f' (f ∷ fs) e h =
    if_cases IsDistinct (eq_ℤ f.fd fd) _ _
      (λ here. (subst (λ (d : ℤ). Lacks d fs) (eq_ℤ→eq f.fd fd here ∙ sym e) h.0, h.1))
      (λ _. (replace_fake-Lacks f.fd fd f' fs e h.0, replace_fake-IsDistinct fd f' fs e h.1))

missing-Lacks : (fd : ℤ) (fs : List FakeFd) → find_fake_fd fd fs ≡ none → Lacks fd fs
unfolding find_fake_fd
missing-Lacks fd [] h = tt
missing-Lacks fd (f ∷ fs) h = elim (Bool-cases (eq_ℤ f.fd fd)) [
  | inl here ↦ let found : some f ≡ none = rw here at h in cc
  | inr e ↦ let rest : find_fake_fd fd fs ≡ none = rw e at h in (e, missing-Lacks fd fs rest)
]

append-Lacks :
    (g : ℤ) (fs : List FakeFd) (f : FakeFd)
    → Lacks g fs
    → eq_ℤ f.fd g ≡ false
    → Lacks g (fs ++ f ∷ [])
append-Lacks g [] f h e = (e, tt)
append-Lacks g (h' ∷ fs) f h e = (h.0, append-Lacks g fs f h.1 e)

eq_ℤ_sym : (a b : ℤ) → eq_ℤ a b ≡ false → eq_ℤ b a ≡ false
eq_ℤ_sym a b h = ground arith

append-IsDistinct :
    (fs : List FakeFd) (f : FakeFd) → IsDistinct fs → Lacks f.fd fs → IsDistinct (fs ++ f ∷ [])
append-IsDistinct [] f v h = (tt, tt)
append-IsDistinct (g ∷ fs) f v h =
    (append-Lacks g.fd fs f v.0 (eq_ℤ_sym g.fd f.fd h.0), append-IsDistinct fs f v.1 h.1)

-- Either nothing is added, or a descriptor that the table lacks, is not negative, and has room.
pub add_fake_fd_cases :
    (Q : List FakeFd → Type 0) (fd : ℤ) (joydev : Bool) (d : DeviceDescriptor) (fs : List FakeFd)
    → Q fs
    → (is_nonneg fd ≡ true
        → Lacks fd fs
        → length fs < max_fake_fds
        → Q (fs ++ new_fake fd joydev d ∷ []))
    → Q (add_fake_fd fd joydev d fs)
unfolding add_fake_fd
add_fake_fd_cases Q fd joydev d fs same added = elim (Option-cases (find_fake_fd fd fs)) [
  | inr (f, found) ↦ rw found (
      if_cases Q (not (is_nonneg fd) || is_some (some f) || not (ltb (length fs) max_fake_fds)) _ _
        (λ _. same) (λ e. absurd (ground arith)))
  | inl missing ↦ rw missing (
      if_cases Q (not (is_nonneg fd) || false || not (ltb (length fs) max_fake_fds)) _ _ (λ _. same)
        (λ e. added (ground arith) (missing-Lacks fd fs missing) (ground arith)))
]

pub add_fake_fd-IsDistinct :
    (fd : ℤ) (joydev : Bool) (d : DeviceDescriptor) (fs : List FakeFd)
    → IsDistinct fs
    → IsDistinct (add_fake_fd fd joydev d fs)
add_fake_fd-IsDistinct fd joydev d fs v =
    add_fake_fd_cases IsDistinct fd joydev d fs v
      (λ _ lacks _. append-IsDistinct fs (new_fake fd joydev d) v lacks)
