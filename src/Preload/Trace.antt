-- ===== src/Preload/Trace.antt =====
-- Sequences of the calls that src/evdev_preload.c stands in for.
use termux_gamepad.Prelude.{ℕ, Bool, List, [], ◌∷◌, Option, ℤ}
use termux_gamepad.Preload.Calls.{Shim, write, close}
use termux_gamepad.Preload.Joydev.{ReadAnswer}
use termux_gamepad.Preload.Opening.{Attempt, openat, open_common}
use termux_gamepad.Preload.Opening.Served.{fits, opened}
use termux_gamepad.Preload.Reading.{read}
use termux_gamepad.Preload.Requests.{ioctl}
use termux_gamepad.Preload.Setup.{Environment}

pub data Call : Type 0 where
  opens : Environment → Option (List ℕ) → ℕ → Attempt → Call
  opens_at : Environment → Option (List ℕ) → ℕ → Attempt → Call
  ioctls : Environment → ℤ → ℕ → ℕ → List ℕ → Call
  reads : Environment → ℤ → Bool → ℕ → List ReadAnswer → Call
  writes : ℤ → Option (List ℕ) → Call
  closes : ℤ → Call

unfoldable pub run_call : Call → Shim → Shim
run_call (opens env path flags a) s = (open_common env path flags a s).shim
run_call (opens_at env path flags a) s = (openat env path flags a s).shim
run_call (ioctls env fd req arg mem) s = (ioctl env fd req arg mem s).2
run_call (reads env fd given size answers) s = (read env fd given size answers s).2
run_call (writes fd buffer) s = (write fd buffer s).1
run_call (closes fd) s = close fd s

-- Calls in the order they are made.
unfoldable pub run_calls : List Call → Shim → Shim
run_calls [] s = s
run_calls (c ∷ cs) s = run_calls cs (run_call c s)

-- The descriptors that a call is made on, or opens.
abbrev pub touched : Call → List ℤ
touched (opens env path flags a) = opened (fits env) a.outcome
touched (opens_at env path flags a) = opened (fits env) a.outcome
touched (ioctls env fd req arg mem) = fd ∷ []
touched (reads env fd given size answers) = fd ∷ []
touched (writes fd buffer) = fd ∷ []
touched (closes fd) = fd ∷ []
