-- ===== src/Bridge/Server/Shutdown.antt =====
-- The end of `main` in src/lorie_evdev_bridge.c.
use termux_gamepad.Prelude.{
  ℕ, zero, suc, ◌+◌, ◌≤◌, ◌<◌, ◌≡◌, refl, sym, ap, ◌∙◌, subst, arith, Bool, true, false, ◌&&◌, List,
  [], ◌∷◌, Option, ℤ, get_or, set, if_cases, is_nonneg, length, All,
}
use native.Mathlib.Decide.{ℕ_discrete}
use termux_gamepad.Bridge.State.{Bridge, Client, World, client_at, free_client, max_clients}
use termux_gamepad.Bridge.Rumble.{
  close_client, send_lorie_rumble, is_rumbling, release_slot, is_unreachable,
}
use termux_gamepad.Bridge.Queue.Links.{
  link, link_at, link_at-update_rumble, link_at-close_client_ne,
}
use termux_gamepad.Bridge.Input.{for_clients}
use termux_gamepad.Bridge.Device.{XiDevice}
use termux_gamepad.Bridge.Server.{PollResult, run, first_search, start, shut_down, main}
use termux_gamepad.Bridge.Invariant.{IsSlot, IsServing, loudest_low, loudest_high}
use termux_gamepad.Bridge.Invariant.Mixing.{close_client-IsServing, in_world-IsServing}
use termux_gamepad.Bridge.Invariant.Serving.{for_clients_keeps}
use termux_gamepad.Bridge.Invariant.Run.{run_from_start-IsServing}

get_or-set_default :
    (cs : List Client) (i : ℕ) → get_or (set cs i free_client) i free_client ≡ free_client
get_or-set_default [] i = refl
get_or-set_default (c ∷ cs) zero = refl
get_or-set_default (c ∷ cs) (suc i) = get_or-set_default cs i

-- Closing leaves a slot free, whether it was in use or not.
close_client_frees : (i : ℕ) (b : Bridge) → link_at (close_client i b) i ≡ link free_client
unfolding close_client
close_client_frees i b =
    let freed : link_at (release_slot i b) i ≡ link free_client =
      ap link (get_or-set_default b.clients i) in
    if_cases (λ (b' : Bridge). link_at b' i ≡ link free_client)
      (is_rumbling (client_at b i) && b.x_display) _ _
      (λ _. link_at-update_rumble true (release_slot i b) i ∙ freed) (λ _. freed)

abbrev IsFree : ℕ → Bridge → Type 0
IsFree i b = link_at b i ≡ link free_client

stays-IsFree :
    (n first i : ℕ) (b : Bridge)
    → i < first
    → IsFree i b
    → IsFree i (for_clients n first close_client b)
unfolding for_clients
stays-IsFree zero first i b h f = f
stays-IsFree (suc n) first i b h f =
    stays-IsFree n (suc first) i _ (omega arith)
      (link_at-close_client_ne first b i (omega arith) ∙ f)

becomes-IsFree :
    (n first i : ℕ) (b : Bridge)
    → first ≤ i
    → i < first + n
    → IsFree i (for_clients n first close_client b)
unfolding for_clients
becomes-IsFree zero first i b h k = absurd (omega arith)
becomes-IsFree (suc n) first i b h k = elim (ℕ_discrete first i) [
  | yes here ↦
      stays-IsFree n (suc first) i (close_client first b) (omega arith)
        (subst (λ j. IsFree i (close_client j b)) (sym here) (close_client_frees i b))
  | no other ↦ becomes-IsFree n (suc first) i (close_client first b) (omega arith) (omega arith)
]

send_lorie_rumble-IsServing :
    (low high duration : ℕ) (b : Bridge)
    → IsServing b
    → IsServing (send_lorie_rumble low high duration b)
unfolding send_lorie_rumble
send_lorie_rumble-IsServing low high duration b v =
    if_cases IsServing (is_unreachable b) _ _ (λ _. v) (λ _. in_world-IsServing b _ v)

-- A table of free slots asks for no effect.
loudest_free :
    (cs : List Client)
    → All IsSlot cs
    → ((i : ℕ) → i < length cs → link (get_or cs i free_client) ≡ link free_client)
    → (loudest_low cs ≡ 0) × (loudest_high cs ≡ 0)
loudest_free [] v h = (refl, refl)
loudest_free (c ∷ cs) v h =
    let closed : is_nonneg c.fd ≡ false = ap (λ l. is_nonneg l.fd) (h 0 (omega arith)) in
    let (low, high, control) = v.0.free_silent closed in
    let (lows, highs) = loudest_free cs v.1 (λ i lt. h (suc i) (omega (arith, lt))) in
    (omega (arith, low, lows), omega (arith, high, highs))

-- At the end of `main` the table and the mix are as they are at every pass.
pub main-IsServing :
    (opcode : ℤ) (devices : Option (List XiDevice)) (selected : Bool) (polls : List PollResult)
    (w : World)
    → IsServing (main opcode devices selected polls w)
unfolding main shut_down
main-IsServing opcode devices selected polls w =
    for_clients_keeps IsServing close_client (λ i b v. close_client-IsServing i b v) max_clients 0 _
      (send_lorie_rumble-IsServing 0 0 0 _
        (run_from_start-IsServing opcode devices selected polls w))

-- When `main` ends, whatever happened before, every client's connection is closed with nothing left
-- to send, and the bridge takes both motors to be silent.
pub main_ends :
    (opcode : ℤ) (devices : Option (List XiDevice)) (selected : Bool) (polls : List PollResult)
    (w : World)
    → let b = main opcode devices selected polls w in
      ((i : ℕ) → i < max_clients → link_at b i ≡ link free_client)
      × (b.active_rumble_low ≡ 0)
      × (b.active_rumble_high ≡ 0)
unfolding main shut_down
main_ends opcode devices selected polls w =
    let b0 = send_lorie_rumble 0 0 0 (run polls (first_search devices selected (start opcode w))) in
    let b = for_clients max_clients 0 close_client b0 in
    let v : IsServing b = main-IsServing opcode devices selected polls w in
    let free = λ (i : ℕ) (h : i < max_clients).
      becomes-IsFree max_clients 0 i b0 (omega arith) (omega (arith, h)) in
    let (low, high) = loudest_free b.clients v.slots (λ i h. free i (omega (arith, h, v.size))) in
    (free, v.low_mixed ∙ low, v.high_mixed ∙ high)
