-- ===== src/Gamepad/Transfer.antt =====
-- `send_all` and `receive_all` of src/termux_gamepad.c: what their status promises.
use termux_gamepad.Prelude.{
  ℕ, zero, suc, ◌-◌, ◌≤◌, ◌<◌, ◌≡◌, refl, ap, ◌∙◌, arith, true, false, List, [], ◌∷◌, ◌++◌, pos,
  length, length-append, length-take, take, drop, take-append-drop, append_assoc,
}
use termux_gamepad.Gamepad.Net.{
  SendAnswer, took, send_interrupted, send_blocked, send_fault, RecvAnswer, got, recv_interrupted,
  recv_again, recv_fault, minus, send_all, receive_all,
}

-- An error has an errno that is not zero.
abbrev pub HasErrno : List SendAnswer → Type 0
HasErrno [] = Unit
HasErrno (took n ∷ rest) = HasErrno rest
HasErrno (send_interrupted ∷ rest) = HasErrno rest
HasErrno (send_blocked writable e ∷ rest) = (0 < e) × HasErrno rest
HasErrno (send_fault e ∷ rest) = (0 < e) × HasErrno rest

minus_positive : (e : ℕ) → 0 < e → ¬ (minus e ≡ pos 0)
minus_positive zero h q = absurd (omega arith)
minus_positive (suc e) h q = cc

-- The bytes that the socket takes are the first of the message, in their order, whatever it
-- answers; and if no error is reported it took all of them. Errors have an errno that is not zero.
pub send_all_prefix :
    (answers : List SendAnswer) (bytes : List ℕ)
    → HasErrno answers
    → let (status, sent) = send_all answers bytes in
      ((rest : List ℕ) × (sent ++ rest ≡ bytes)) × (status ≡ pos 0 → sent ≡ bytes)
unfolding send_all
send_all_prefix [] [] v = (([], refl), λ _. refl)
send_all_prefix (a ∷ rest) [] v = (([], refl), λ _. refl)
send_all_prefix [] (b ∷ bytes) v = ((b ∷ bytes, refl), λ e. cc)
send_all_prefix (took zero ∷ rest) (b ∷ bytes) v = ((b ∷ bytes, refl), λ e. cc)
send_all_prefix (took (suc n) ∷ rest) (b ∷ bytes) v =
    let ((more, e), all) = send_all_prefix rest (drop (suc n) (b ∷ bytes)) v in
    let now = take (suc n) (b ∷ bytes) in
    let join = take-append-drop (suc n) (b ∷ bytes) in
    ((more, append_assoc now _ more ∙ ap (◌++◌ now) e ∙ join), λ h. ap (◌++◌ now) (all h) ∙ join)
send_all_prefix (send_interrupted ∷ rest) (b ∷ bytes) v = send_all_prefix rest (b ∷ bytes) v
send_all_prefix (send_blocked true e ∷ rest) (b ∷ bytes) v = send_all_prefix rest (b ∷ bytes) v.1
send_all_prefix (send_blocked false e ∷ rest) (b ∷ bytes) v =
    ((b ∷ bytes, refl), λ h. absurd (minus_positive e v.0 h))
send_all_prefix (send_fault e ∷ rest) (b ∷ bytes) v =
    ((b ∷ bytes, refl), λ h. absurd (minus_positive e v.0 h))

abbrev pub HasRecvErrno : List RecvAnswer → Type 0
HasRecvErrno [] = Unit
HasRecvErrno (recv_fault e ∷ rest) = (0 < e) × HasRecvErrno rest
HasRecvErrno (_ ∷ rest) = HasRecvErrno rest

-- No more bytes are read than were asked for, whatever the socket answers; and if no error is
-- reported there are exactly as many. Errors have an errno that is not zero.
pub length-receive_all :
    (answers : List RecvAnswer) (size : ℕ)
    → HasRecvErrno answers
    → let (status, received) = receive_all answers size in
      (length received ≤ size) × (status ≡ pos 0 → length received ≡ size)
unfolding receive_all
length-receive_all [] zero v = (omega arith, λ _. refl)
length-receive_all (a ∷ rest) zero v = (omega arith, λ _. refl)
length-receive_all [] (suc size) v = (omega arith, λ e. cc)
length-receive_all (got [] ∷ rest) (suc size) v = (omega arith, λ e. cc)
length-receive_all (got (x ∷ bytes) ∷ rest) (suc size) v =
    let now = take (suc size) (x ∷ bytes) in
    let left = suc size - length now in
    let (bound, all) = length-receive_all rest left v in
    let fits = length-take (suc size) (x ∷ bytes) in
    let joined = length-append now (receive_all rest left).1 in
    (omega (arith, bound, fits, joined), λ h. omega (arith, all h, fits, joined))
length-receive_all (recv_interrupted ∷ rest) (suc size) v = length-receive_all rest (suc size) v
length-receive_all (recv_again ∷ rest) (suc size) v = (omega arith, λ e. cc)
length-receive_all (recv_fault e ∷ rest) (suc size) v =
    (omega arith, λ h. absurd (minus_positive e v.0 h))
