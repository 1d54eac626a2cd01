-- ===== src/Bridge/Os.antt =====
-- The clock and the log of src/lorie_evdev_bridge.c's world.
use termux_gamepad.Prelude.{◌≡◌, arith, ℕ, ◌+◌, ◌*◌, ◌/◌, ◌%◌, [], ◌∷◌, ◌++◌, u64_mod}
use termux_gamepad.Bridge.State.{World, Bridge, XRequest}

-- `clock_gettime(CLOCK_MONOTONIC, …)`: the next reading.
unfoldable pub clock_gettime : World → ℕ × World
clock_gettime w = elim w.delays [
  | [] ↦ (w.now, w)
  | d ∷ rest ↦ (w.now + d, record w { now = w.now + d; delays = rest })
]

-- `(uint64_t)tv_sec * 1000U + (uint64_t)tv_nsec / 1000000U`
unfoldable pub monotonic_ms : World → ℕ × World
unfolding clock_gettime
monotonic_ms w =
    let (ns, w') = clock_gettime w in
    ((ns / 1_000_000_000 * 1000 + ns % 1_000_000_000 / 1_000_000) % u64_mod, w')

abbrev pub ask : World → XRequest → World
ask w r = record w { requests = w.requests ++ (r ∷ []) }

abbrev pub in_world : Bridge → World → Bridge
in_world b w = record b { world = w }

-- Reading the clock makes no request.
pub monotonic_ms_requests : (w : World) → (monotonic_ms w).1.requests ≡ w.requests
unfolding monotonic_ms
monotonic_ms_requests w = ground arith
