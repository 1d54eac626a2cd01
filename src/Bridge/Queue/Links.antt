-- ===== src/Bridge/Queue/Links.antt =====
-- What one client's turn in src/lorie_evdev_bridge.c leaves of the other clients' connections.
use termux_gamepad.Prelude.{
  ℕ, zero, suc, ◌-◌, ◌≡◌, ◌≢◌, refl, ap, ◌∙◌, arith, Bool, true, ◌&&◌, List, [], ◌∷◌, ◌++◌, ℤ,
  get_or, get_or-set_ne, if_cases, length, ltb,
}
use termux_gamepad.Bridge.State.{
  Bridge, Client, ClientKind, client_at, with_client, free_client, client_buffer_size,
}
use termux_gamepad.Bridge.Os.{monotonic_ms}
use termux_gamepad.Bridge.Rumble.{
  Mix, mix_client, mix_clients, silence, update_rumble, is_rumbling, release_slot, close_client,
  close_on_failure,
}
use termux_gamepad.Bridge.Queue.{flush_client, queue_bytes}
use termux_gamepad.Bridge.Invariant.{IsOpen, get_or-set_open}
use termux_gamepad.Bridge.Invariant.Mixing.{apply_mix_clients}

-- A client without its effect and its buffered messages.
pub record Link : Type 0 where
  pub fd : ℤ
  pub output : List ℕ
  pub kind : ClientKind

abbrev pub link : Client → Link
link c = record { fd = c.fd; output = c.output; kind = c.kind }

abbrev pub link_at : Bridge → ℕ → Link
link_at b i = link (client_at b i)

link-mix_client : (now : ℕ) (c : Client) (m : Mix) → link (mix_client now c m).1 ≡ link c
unfolding mix_client
link-mix_client now c m = ground arith

link-mix_clients :
    (now : ℕ) (cs : List Client) (m : Mix) (i : ℕ)
    → link (get_or (mix_clients now cs m).1 i free_client) ≡ link (get_or cs i free_client)
unfolding mix_clients
link-mix_clients now [] m i = refl
link-mix_clients now (c ∷ cs) m zero = link-mix_client now c m
link-mix_clients now (c ∷ cs) m (suc i) = link-mix_clients now cs (mix_client now c m).0 i

pub link_at-update_rumble :
    (force : Bool) (b : Bridge) (i : ℕ) → link_at (update_rumble force b) i ≡ link_at b i
unfolding update_rumble
link_at-update_rumble force b i =
    let (now, w) = monotonic_ms b.world in
    let (m, cs) = mix_clients now b.clients silence in
    ap (λ (l : List Client). link (get_or l i free_client))
      (apply_mix_clients force m (record b { clients = cs; world = w }))
    ∙ link-mix_clients now b.clients silence i

-- Closing a connection leaves the others, and frees its slot.
pub link_at-close_client_ne :
    (j : ℕ) (b : Bridge) (i : ℕ) → j ≢ i → link_at (close_client j b) i ≡ link_at b i
unfolding close_client
link_at-close_client_ne j b i ne =
    let freed : link_at (release_slot j b) i ≡ link_at b i =
      ap link (get_or-set_ne b.clients j i free_client free_client ne) in
    if_cases (λ (b' : Bridge). link_at b' i ≡ link_at b i)
      (is_rumbling (client_at b j) && b.x_display) _ _
      (λ _. link_at-update_rumble true (release_slot j b) i ∙ freed) (λ _. freed)

pub link_at-close_client :
    (i : ℕ) (b : Bridge) → IsOpen b i → link_at (close_client i b) i ≡ link free_client
unfolding close_client
link_at-close_client i b held =
    let freed : link_at (release_slot i b) i ≡ link free_client =
      ap link (get_or-set_open b.clients i free_client held) in
    if_cases (λ (b' : Bridge). link_at b' i ≡ link free_client)
      (is_rumbling (client_at b i) && b.x_display) _ _
      (λ _. link_at-update_rumble true (release_slot i b) i ∙ freed) (λ _. freed)

flush_client_ne :
    (j : ℕ) (b : Bridge) (i : ℕ) → j ≢ i → client_at (flush_client j b).1 i ≡ client_at b i
unfolding flush_client
flush_client_ne j b i ne = get_or-set_ne b.clients j i _ free_client ne

queue_bytes_ne :
    (j : ℕ) (bytes : List ℕ) (b : Bridge) (i : ℕ)
    → j ≢ i
    → client_at (queue_bytes j bytes b).1 i ≡ client_at b i
unfolding queue_bytes
queue_bytes_ne j bytes b i ne =
    let c = client_at b j in
    let queued : Client = record c { output = c.output ++ bytes } in
    if_cases (λ (r : Bool × Bridge). client_at r.1 i ≡ client_at b i)
      (ltb (client_buffer_size - length c.output) (length bytes)) _ _ (λ _. refl)
      (λ _.
        flush_client_ne j (with_client b j queued) i ne
        ∙ get_or-set_ne b.clients j i queued free_client ne)

pub link_at-queue_bytes_ne :
    (j : ℕ) (bytes : List ℕ) (b : Bridge) (i : ℕ)
    → j ≢ i
    → link_at (close_on_failure j (queue_bytes j bytes b)) i ≡ link_at b i
unfolding close_on_failure
link_at-queue_bytes_ne j bytes b i ne =
    let r = queue_bytes j bytes b in
    let queued : link_at r.1 i ≡ link_at b i = ap link (queue_bytes_ne j bytes b i ne) in
    if_cases (λ (b' : Bridge). link_at b' i ≡ link_at b i) r.0 _ _ (λ _. queued)
      (λ _. link_at-close_client_ne j r.1 i ne ∙ queued)
