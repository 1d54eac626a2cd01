-- ===== src/Wire/Text.antt =====
-- C strings in arrays of bytes: the comparison that `strncmp(a, b, n) == 0` makes.
use termux_gamepad.Prelude.{ℕ, zero, suc, Bool, true, false, List, [], ◌∷◌, ◌==◌, if◌then◌else◌}

-- Past the end of a list an array holds a terminator.
abbrev pub head_or_nul : List ℕ → ℕ
head_or_nul [] = 0
head_or_nul (x ∷ xs) = x

abbrev pub tail_of : List ℕ → List ℕ
tail_of [] = []
tail_of (x ∷ xs) = xs

unfoldable pub strncmp_eq : ℕ → List ℕ → List ℕ → Bool
strncmp_eq zero a b = true
strncmp_eq (suc n) a b =
    let rest = strncmp_eq n (tail_of a) (tail_of b) in
    if head_or_nul a == head_or_nul b then (if head_or_nul a == 0 then true else rest) else false
