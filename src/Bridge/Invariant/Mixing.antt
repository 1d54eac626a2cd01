-- ===== src/Bridge/Invariant/Mixing.antt =====
-- `update_rumble` and `close_client` keep the table, and leave the loudest effect playing.
use termux_gamepad.Prelude.{
  ℕ, ◌≡◌, refl, sym, ◌∙◌, arith, Bool, true, false, List, [], ◌∷◌, length, All, max, set,
  length-set, All-set, All-get_or, ◌&&◌, if_cases,
}
use termux_gamepad.Bridge.State.{
  Bridge, Client, World, max_clients, free_client, client_at, with_client,
}
use termux_gamepad.Bridge.Os.{monotonic_ms, in_world}
use termux_gamepad.Bridge.Rumble.{
  Mix, mix_client, mix_clients, send_lorie_rumble, apply_mix, silence, update_rumble, release_slot,
  closing, close_client, is_rumbling,
}
use termux_gamepad.Bridge.Invariant.{
  IsSlot, loudest_low, loudest_high, IsServing, IsTable, core, free_client-IsSlot, loudest_low-set,
  loudest_high-set,
}

mix_client-IsSlot : (now : ℕ) (c : Client) (m : Mix) → IsSlot c → IsSlot (mix_client now c m).1
unfolding mix_client
mix_client-IsSlot now c m v = ground arith

mix_client_loudest :
    (now : ℕ) (c : Client) (m : Mix)
    → IsSlot c
    → let (m', c') = mix_client now c m in
      (m'.low ≡ max m.low c'.rumble_low) × (m'.high ≡ max m.high c'.rumble_high)
unfolding mix_client
mix_client_loudest now c m v = ground arith

mix_clients-IsSlot :
    (now : ℕ) (cs : List Client) (m : Mix) → All IsSlot cs → All IsSlot (mix_clients now cs m).1
unfolding mix_clients
mix_clients-IsSlot now [] m v = tt
mix_clients-IsSlot now (c ∷ cs) m v =
    (mix_client-IsSlot now c m v.0, mix_clients-IsSlot now cs (mix_client now c m).0 v.1)

length-mix_clients :
    (now : ℕ) (cs : List Client) (m : Mix) → length (mix_clients now cs m).1 ≡ length cs
unfolding mix_clients
length-mix_clients now [] m = refl
length-mix_clients now (c ∷ cs) m = omega (arith, length-mix_clients now cs (mix_client now c m).0)

pub mix_clients_loudest :
    (now : ℕ) (cs : List Client) (m : Mix)
    → All IsSlot cs
    → let (m', cs') = mix_clients now cs m in
      (m'.low ≡ max m.low (loudest_low cs')) × (m'.high ≡ max m.high (loudest_high cs'))
unfolding mix_clients
mix_clients_loudest now [] m v = omega arith
mix_clients_loudest now (c ∷ cs) m v =
    let (m', c') = mix_client now c m in
    omega (arith, mix_client_loudest now c m v.0, mix_clients_loudest now cs m' v.1)

pub apply_mix_clients :
    (force : Bool) (m : Mix) (b : Bridge) → (apply_mix force m b).clients ≡ b.clients
unfolding apply_mix send_lorie_rumble
apply_mix_clients force m b = ground arith

apply_mix_rest :
    (force : Bool) (m : Mix) (b : Bridge)
    → (core (apply_mix force m b) ≡ core b)
      × ((apply_mix force m b).x_display ≡ b.x_display)
      × ((apply_mix force m b).active_rumble_low ≡ m.low)
      × ((apply_mix force m b).active_rumble_high ≡ m.high)
unfolding apply_mix send_lorie_rumble
apply_mix_rest force m b = ground arith

pub update_rumble-IsServing :
    (force : Bool) (b : Bridge) → IsTable b → IsServing (update_rumble force b)
unfolding update_rumble
update_rumble-IsServing force b v =
    let (now, w) = monotonic_ms b.world in
    let (m, cs) = mix_clients now b.clients silence in
    let b' : Bridge = record b { clients = cs; world = w } in
    ground (
      arith,
      apply_mix_rest force m b',
      apply_mix_clients force m b',
      mix_clients_loudest now b.clients silence v.slots,
      length-mix_clients now b.clients silence,
      mix_clients-IsSlot now b.clients silence v.slots,
    )

pub core-update_rumble : (force : Bool) (b : Bridge) → core (update_rumble force b) ≡ core b
unfolding update_rumble
core-update_rumble force b =
    let (now, w) = monotonic_ms b.world in
    let (m, cs) = mix_clients now b.clients silence in
    (apply_mix_rest force m (record b { clients = cs; world = w })).0

abbrev Table : List Client → Type 0
Table cs = (length cs ≡ max_clients) × All IsSlot cs

set-Table : (cs : List Client) (i : ℕ) (c : Client) → Table cs → IsSlot c → Table (set cs i c)
set-Table cs i c v h = (omega (arith, length-set cs i c, v.0), All-set IsSlot cs i c v.1 h)

-- Writing a slot keeps the table; if the slot's effect stays, it keeps the mix too.
pub with_client-IsTable :
    (b : Bridge) (i : ℕ) (c : Client) → IsTable b → IsSlot c → IsTable (with_client b i c)
with_client-IsTable b i c v h = record {
  size = (set-Table b.clients i c (v.size, v.slots) h).0;
  slots = (set-Table b.clients i c (v.size, v.slots) h).1;
  display_open = v.display_open;
}

pub with_client-IsServing :
    (b : Bridge) (i : ℕ) (c : Client)
    → IsServing b
    → IsSlot c
    → c.rumble_low ≡ (client_at b i).rumble_low
    → c.rumble_high ≡ (client_at b i).rumble_high
    → IsServing (with_client b i c)
with_client-IsServing b i c v h low high = record {
  size = (set-Table b.clients i c (v.size, v.slots) h).0;
  slots = (set-Table b.clients i c (v.size, v.slots) h).1;
  display_open = v.display_open;
  low_mixed = rw (loudest_low-set b.clients i c low) v.low_mixed;
  high_mixed = rw (loudest_high-set b.clients i c high) v.high_mixed;
}

pub IsTable-of_serving : (b : Bridge) → IsServing b → IsTable b
IsTable-of_serving b v = record { size = v.size; slots = v.slots; display_open = v.display_open }

-- The invariants say nothing of the world.
pub in_world-IsServing : (b : Bridge) (w : World) → IsServing b → IsServing (in_world b w)
in_world-IsServing b w v = record {
  size = v.size;
  slots = v.slots;
  display_open = v.display_open;
  low_mixed = v.low_mixed;
  high_mixed = v.high_mixed;
}

pub client_at-IsSlot : (b : Bridge) (i : ℕ) → All IsSlot b.clients → IsSlot (client_at b i)
client_at-IsSlot b i v = All-get_or IsSlot b.clients i free_client v free_client-IsSlot

pub silent_of_not_rumbling :
    (c : Client) → is_rumbling c ≡ false → (c.rumble_low ≡ 0) × (c.rumble_high ≡ 0)
silent_of_not_rumbling c h = ground arith

pub close_client-IsServing : (i : ℕ) (b : Bridge) → IsServing b → IsServing (close_client i b)
unfolding close_client
close_client-IsServing i b v =
    if_cases IsServing (is_rumbling (client_at b i) && b.x_display) _ _
      (λ _. update_rumble-IsServing true (release_slot i b) (
        with_client-IsTable freed i free_client (IsTable-of_serving freed kept) free_client-IsSlot))
      (λ h.
        let (low, high) = silent_of_not_rumbling (client_at b i) (ground (arith, v.display_open)) in
        with_client-IsServing freed i free_client kept free_client-IsSlot (sym low) (sym high))
  where
    freed : Bridge
    freed = in_world b (closing (client_at b i) b.world)

    kept : IsServing freed
    kept = in_world-IsServing b _ v

pub core-close_client : (i : ℕ) (b : Bridge) → core (close_client i b) ≡ core b
unfolding close_client
core-close_client i b = ground (arith, core-update_rumble true (release_slot i b))

-- Nor do they say anything of the core.
pub IsServing-of_same_table :
    (b b' : Bridge)
    → b'.clients ≡ b.clients
    → b'.x_display ≡ b.x_display
    → b'.active_rumble_low ≡ b.active_rumble_low
    → b'.active_rumble_high ≡ b.active_rumble_high
    → IsServing b
    → IsServing b'
IsServing-of_same_table b b' e display low high v = record {
  size = rw e v.size;
  slots = rw e v.slots;
  display_open = display ∙ v.display_open;
  low_mixed = rw e (low ∙ v.low_mixed);
  high_mixed = rw e (high ∙ v.high_mixed);
}
