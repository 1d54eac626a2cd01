-- ===== src/Bridge/Descriptors.antt =====
-- The descriptors of the connections of src/lorie_evdev_bridge.c: how often each was closed and how
-- many slots hold it. What changes neither sum.
pub mod Reports
pub mod Served
pub mod Ended
use termux_gamepad.Prelude.{
  ℕ, zero, suc, ◌+◌, ◌-◌, ◌≡◌, refl, sym, ap, ap₂, ◌∙◌, arith, Bool, true, false, not, ◌&&◌, ◌||◌,
  List, [], ◌∷◌, ◌++◌, ℤ, pos, negsuc, eq_ℤ, is_nonneg, if◌then◌else◌, if_cases, Bool-cases, inl,
  inr, get_or, set, length, ltb, leb, ◌==◌,
}
use termux_gamepad.Bridge.State.{
  Bridge, Client, World, XRequest, client_at, with_client, free_client, client_buffer_size,
}
use termux_gamepad.Bridge.Os.{monotonic_ms, clock_gettime, in_world}
use termux_gamepad.Bridge.Rumble.{
  Mix, mix_client, mix_clients, silence, apply_mix, send_lorie_rumble, is_unreachable,
  request_duration, update_rumble, is_rumbling, release_slot, closing, close_client,
  close_on_failure,
}
use termux_gamepad.Bridge.Queue.{flush_client, queue_bytes}
use termux_gamepad.Bridge.Invariant.Mixing.{apply_mix_clients}

abbrev pub one_if : Bool → ℕ
one_if true = 1
one_if false = 0

-- How often a list of descriptors has `k`.
abbrev pub copies : ℕ → List ℤ → ℕ
copies k [] = 0
copies k (fd ∷ fds) = one_if (eq_ℤ fd (pos k)) + copies k fds

-- How many slots hold `k`.
abbrev pub holders : ℕ → List Client → ℕ
holders k [] = 0
holders k (c ∷ cs) = one_if (eq_ℤ c.fd (pos k)) + holders k cs

abbrev pub balance : ℕ → Bridge → ℕ
balance k b = copies k b.world.closed + holders k b.clients

pub copies-append : (k : ℕ) (xs ys : List ℤ) → copies k (xs ++ ys) ≡ copies k xs + copies k ys
copies-append k [] ys = omega arith
copies-append k (x ∷ xs) ys = omega (arith, copies-append k xs ys)

pub holders-set_same :
    (k : ℕ) (cs : List Client) (i : ℕ) (c : Client)
    → c.fd ≡ (get_or cs i free_client).fd
    → holders k (set cs i c) ≡ holders k cs
holders-set_same k [] i c e = refl
holders-set_same k (d ∷ cs) zero c e = rw e refl
holders-set_same k (d ∷ cs) (suc i) c e =
    ap (◌+◌ (one_if (eq_ℤ d.fd (pos k)))) (holders-set_same k cs i c e)

holders-set_free :
    (k : ℕ) (cs : List Client) (i : ℕ)
    → one_if (eq_ℤ (get_or cs i free_client).fd (pos k)) + holders k (set cs i free_client)
      ≡ holders k cs
holders-set_free k [] i = refl
holders-set_free k (d ∷ cs) zero = omega arith
holders-set_free k (d ∷ cs) (suc i) = omega (arith, holders-set_free k cs i)

fd-mix_client : (now : ℕ) (c : Client) (m : Mix) → (mix_client now c m).1.fd ≡ c.fd
unfolding mix_client
fd-mix_client now c m = ground arith

holders-mix_clients :
    (k now : ℕ) (cs : List Client) (m : Mix) → holders k (mix_clients now cs m).1 ≡ holders k cs
unfolding mix_clients
holders-mix_clients k now [] m = refl
holders-mix_clients k now (c ∷ cs) m =
    ap₂ ◌+◌ (ap (λ fd. one_if (eq_ℤ fd (pos k))) (fd-mix_client now c m))
      (holders-mix_clients k now cs (mix_client now c m).0)

-- Reading the clock closes nothing.
pub monotonic_ms_closed : (w : World) → (monotonic_ms w).1.closed ≡ w.closed
unfolding monotonic_ms clock_gettime
monotonic_ms_closed w = ground arith

pub send_lorie_rumble_closed :
    (low high duration : ℕ) (b : Bridge)
    → (send_lorie_rumble low high duration b).world.closed ≡ b.world.closed
unfolding send_lorie_rumble
send_lorie_rumble_closed low high duration b =
    if_cases (λ (b' : Bridge). b'.world.closed ≡ b.world.closed) (is_unreachable b) _ _ (λ _. refl)
      (λ _. refl)

apply_mix_closed :
    (force : Bool) (m : Mix) (b : Bridge) → (apply_mix force m b).world.closed ≡ b.world.closed
unfolding apply_mix
apply_mix_closed force m b =
    if_cases Closes (m.low == 0 && m.high == 0) _ _
      (λ _.
        if_cases Closes (not (b.active_rumble_low == 0 && b.active_rumble_high == 0)) _ _
          (λ _. send_lorie_rumble_closed 0 0 0 b) (λ _. refl))
      (λ _.
        if_cases Closes
          (force || not (m.low == b.active_rumble_low) || not (m.high == b.active_rumble_high)) _ _
          (λ _. send_lorie_rumble_closed m.low m.high (request_duration m.longest_remaining) b)
          (λ _. refl))
  where
    Closes : Bridge → Type 0
    Closes b' = b'.world.closed ≡ b.world.closed

pub update_rumble-balance :
    (k : ℕ) (force : Bool) (b : Bridge) → balance k (update_rumble force b) ≡ balance k b
unfolding update_rumble
update_rumble-balance k force b =
    let (now, w) = monotonic_ms b.world in
    let (m, cs) = mix_clients now b.clients silence in
    let b' = record b { clients = cs; world = w } in
    ap₂ ◌+◌ (ap (copies k) (apply_mix_closed force m b' ∙ monotonic_ms_closed b.world))
      (ap (holders k) (apply_mix_clients force m b') ∙ holders-mix_clients k now b.clients silence)

pub not_held : (fd : ℤ) (k : ℕ) → is_nonneg fd ≡ false → eq_ℤ fd (pos k) ≡ false
not_held (pos n) k h = cc
not_held (negsuc n) k h = refl

-- A slot that is given up adds its descriptor to those closed.
release_slot-balance : (k i : ℕ) (b : Bridge) → balance k (release_slot i b) ≡ balance k b
release_slot-balance k i b =
    let c = client_at b i in
    let moved = holders-set_free k b.clients i in
    if_cases
      (λ (w : World). copies k w.closed + holders k (set b.clients i free_client) ≡ balance k b)
      (is_nonneg c.fd) _ _ (λ _. omega (arith, copies-append k b.world.closed (c.fd ∷ []), moved))
      (λ free. omega (arith, ap one_if (not_held c.fd k free), moved))

pub close_client-balance : (k i : ℕ) (b : Bridge) → balance k (close_client i b) ≡ balance k b
unfolding close_client
close_client-balance k i b =
    if_cases (λ (b' : Bridge). balance k b' ≡ balance k b)
      (is_rumbling (client_at b i) && b.x_display) _ _
      (λ _. update_rumble-balance k true (release_slot i b) ∙ release_slot-balance k i b)
      (λ _. release_slot-balance k i b)

-- A slot that keeps its descriptor.
pub with_client-balance :
    (k i : ℕ) (b : Bridge) (c : Client)
    → c.fd ≡ (client_at b i).fd
    → balance k (with_client b i c) ≡ balance k b
with_client-balance k i b c e =
    ap (◌+◌ (copies k b.world.closed)) (holders-set_same k b.clients i c e)

pub flush_client-balance : (k i : ℕ) (b : Bridge) → balance k (flush_client i b).1 ≡ balance k b
unfolding flush_client
flush_client-balance k i b = with_client-balance k i (in_world b (flush_client i b).1.world) _ refl

pub queue_bytes-balance :
    (k i : ℕ) (bytes : List ℕ) (b : Bridge) → balance k (queue_bytes i bytes b).1 ≡ balance k b
unfolding queue_bytes
queue_bytes-balance k i bytes b =
    if_cases (λ (r : Bool × Bridge). balance k r.1 ≡ balance k b)
      (ltb (client_buffer_size - length (client_at b i).output) (length bytes)) _ _ (λ _. refl)
      (λ _. flush_client-balance k i _ ∙ with_client-balance k i b _ refl)

pub close_on_failure-balance :
    (k i : ℕ) (r : Bool × Bridge) → balance k (close_on_failure i r) ≡ balance k r.1
unfolding close_on_failure
close_on_failure-balance k i (true, b) = refl
close_on_failure-balance k i (false, b) = close_client-balance k i b
