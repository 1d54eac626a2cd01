-- ===== src/Preload/Table.antt =====
-- The entries of the table of descriptors of src/evdev_preload.c.
pub mod Changes
pub mod Kept
use termux_gamepad.Prelude.{
  ◌≡◌, refl, arith, false, List, [], ◌∷◌, none, ℤ, eq_ℤ, eq_ℤ→eq, subst, if_cases,
}
use termux_gamepad.Preload.Fds.{FakeFd, find_fake_fd, del_fake_fd, close_gap, last_of, but_last}

-- No entry of the list is for `fd`.
abbrev pub Lacks : ℤ → List FakeFd → Type 0
Lacks fd [] = Unit
Lacks fd (f ∷ fs) = (eq_ℤ f.fd fd ≡ false) × Lacks fd fs

pub find_fake_fd-Lacks : (fd : ℤ) (fs : List FakeFd) → Lacks fd fs → find_fake_fd fd fs ≡ none
unfolding find_fake_fd
find_fake_fd-Lacks fd [] h = refl
find_fake_fd-Lacks fd (f ∷ fs) h = rw (h.0) (find_fake_fd-Lacks fd fs h.1)

last_of-Lacks :
    (fd : ℤ) (f : FakeFd) (fs : List FakeFd) → Lacks fd (f ∷ fs) → eq_ℤ (last_of f fs).fd fd ≡ false
last_of-Lacks fd f [] h = h.0
last_of-Lacks fd f (g ∷ gs) h = last_of-Lacks fd g gs h.1

but_last-Lacks :
    (fd : ℤ) (f : FakeFd) (fs : List FakeFd) → Lacks fd (f ∷ fs) → Lacks fd (but_last f fs)
but_last-Lacks fd f [] h = tt
but_last-Lacks fd f (g ∷ gs) h = (h.0, but_last-Lacks fd g gs h.1)

close_gap-Lacks : (fd : ℤ) (fs : List FakeFd) → Lacks fd fs → Lacks fd (close_gap fs)
close_gap-Lacks fd [] h = tt
close_gap-Lacks fd (f ∷ fs) h = (last_of-Lacks fd f fs h, but_last-Lacks fd f fs h)

-- Each entry's descriptor is in no entry behind it.
abbrev pub IsDistinct : List FakeFd → Type 0
IsDistinct [] = Unit
IsDistinct (f ∷ fs) = Lacks f.fd fs × IsDistinct fs

eq_ℤ_sym_false : (a b : ℤ) → eq_ℤ a b ≡ false → eq_ℤ b a ≡ false
eq_ℤ_sym_false a b h = ground arith

but_last-IsDistinct :
    (f : FakeFd) (fs : List FakeFd)
    → IsDistinct (f ∷ fs)
    → IsDistinct (but_last f fs) × Lacks (last_of f fs).fd (but_last f fs)
but_last-IsDistinct f [] v = (tt, tt)
but_last-IsDistinct f (g ∷ gs) (lacks, v) =
    let (distinct, last_lacks) = but_last-IsDistinct g gs v in
    (
      (but_last-Lacks f.fd g gs lacks, distinct),
      (eq_ℤ_sym_false (last_of g gs).fd f.fd (last_of-Lacks f.fd g gs lacks), last_lacks),
    )

close_gap-IsDistinct : (fs : List FakeFd) → IsDistinct fs → IsDistinct (close_gap fs)
close_gap-IsDistinct [] v = tt
close_gap-IsDistinct (f ∷ fs) v =
    let (distinct, lacks) = but_last-IsDistinct f fs v in (lacks, distinct)

del_fake_fd-Lacks : (g fd : ℤ) (fs : List FakeFd) → Lacks g fs → Lacks g (del_fake_fd fd fs)
unfolding del_fake_fd
del_fake_fd-Lacks g fd [] h = tt
del_fake_fd-Lacks g fd (f ∷ fs) h =
    if_cases (Lacks g) (eq_ℤ f.fd fd) _ _ (λ _. close_gap-Lacks g fs h.1)
      (λ _. (h.0, del_fake_fd-Lacks g fd fs h.1))

deleted :
    (fd : ℤ) (fs : List FakeFd)
    → IsDistinct fs
    → IsDistinct (del_fake_fd fd fs) × Lacks fd (del_fake_fd fd fs)
unfolding del_fake_fd
deleted fd [] v = (tt, tt)
deleted fd (f ∷ fs) (lacks, v) =
    if_cases (λ (l : List FakeFd). IsDistinct l × Lacks fd l) (eq_ℤ f.fd fd) _ _
      (λ e. (
        close_gap-IsDistinct fs v,
        close_gap-Lacks fd fs (subst (λ d. Lacks d fs) (eq_ℤ→eq f.fd fd e) lacks),
      ))
      (λ e.
        let (distinct, missing) = deleted fd fs v in
        ((del_fake_fd-Lacks f.fd fd fs lacks, distinct), (e, missing)))

-- Closing a descriptor takes it out of a table that has each descriptor once, and the table still
-- has each of the others at most once.
pub del_fake_fd-IsDistinct :
    (fd : ℤ) (fs : List FakeFd)
    → IsDistinct fs
    → IsDistinct (del_fake_fd fd fs) × (find_fake_fd fd (del_fake_fd fd fs) ≡ none)
del_fake_fd-IsDistinct fd fs v =
    let (distinct, lacks) = deleted fd fs v in
    (distinct, find_fake_fd-Lacks fd (del_fake_fd fd fs) lacks)
