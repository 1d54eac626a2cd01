-- ===== src/Bridge/Rumble/Motors.antt =====
-- What `update_rumble` of src/lorie_evdev_bridge.c makes of the clients' effects, against a
-- description of the motors by the requests that they got.
use termux_gamepad.Prelude.{
  ℕ, ◌+◌, ◌-◌, ◌<◌, ◌≡◌, refl, ap, ap₂, ◌∙◌, arith, Bool, true, false, ◌&&◌, List, [], ◌∷◌, ◌++◌,
  map, leb, ◌==◌, if_cases, max, min, is_nonneg, if◌then◌else◌, test_bit, to_unsigned, u16_mod,
}
use termux_gamepad.Bridge.State.{Bridge, Client, XRequest}
use termux_gamepad.Bridge.Os.{monotonic_ms, monotonic_ms_requests}
use termux_gamepad.Bridge.Rumble.{
  Mix, rumble_request, is_unreachable, is_rumbling, without_rumble, mix_client, mix_clients,
  send_lorie_rumble, request_duration, apply_mix, silence, update_rumble, uint32_max,
}
use termux_gamepad.Bridge.Invariant.{IsTable, loudest_low, loudest_high}
use termux_gamepad.Bridge.Invariant.Mixing.{mix_clients_loudest}

-- The effect is over at `now`.
abbrev pub is_over : ℕ → Client → Bool
is_over now c = is_nonneg c.fd && is_rumbling c && leb c.rumble_expires_ms now

abbrev pub expire : ℕ → Client → Client
expire now c = if is_over now c then without_rumble c else c

-- The time that the longest effect still has, over the clients that play one.
abbrev pub longest_left : ℕ → List Client → ℕ
longest_left now [] = 0
longest_left now (c ∷ cs) =
    max (if is_nonneg c.fd && is_rumbling c then c.rumble_expires_ms - now else 0)
      (longest_left now cs)

mix_client-expire : (now : ℕ) (c : Client) (m : Mix) → (mix_client now c m).1 ≡ expire now c
unfolding mix_client
mix_client-expire now c m = ground arith

mix_clients-expire :
    (now : ℕ) (cs : List Client) (m : Mix) → (mix_clients now cs m).1 ≡ map (expire now) cs
unfolding mix_clients
mix_clients-expire now [] m = refl
mix_clients-expire now (c ∷ cs) m =
    ap₂ ◌∷◌ (mix_client-expire now c m) (mix_clients-expire now cs (mix_client now c m).0)

mix_client_longest :
    (now : ℕ) (c : Client) (m : Mix)
    → (mix_client now c m).0.longest_remaining
      ≡ max m.longest_remaining
          (if is_nonneg c.fd && is_rumbling c then c.rumble_expires_ms - now else 0)
unfolding mix_client
mix_client_longest now c m = ground arith

mix_clients_longest :
    (now : ℕ) (cs : List Client) (m : Mix)
    → (mix_clients now cs m).0.longest_remaining ≡ max m.longest_remaining (longest_left now cs)
unfolding mix_clients
mix_clients_longest now [] m = omega arith
mix_clients_longest now (c ∷ cs) m =
    omega (arith, mix_client_longest now c m, mix_clients_longest now cs (mix_client now c m).0)

-- A device with motors is attached, and the extension is there to reach it.
pub record IsPlayable (b : Bridge) : Type 0 where
  pub display : b.x_display ≡ true
  pub extension : is_nonneg b.opcode ≡ true
  pub device : is_nonneg b.device_id ≡ true
  pub motors : test_bit b.capabilities 0 ≡ true

abbrev pub Levels : Type 0
Levels = ℕ × ℕ

abbrev pub levels_of : XRequest → Levels
levels_of (XRequest.stop_rumble device) = (0, 0)
levels_of (XRequest.rumble device low high duration) = (low, high)

-- What the motors play after these requests, from what they played before.
abbrev pub played : Levels → List XRequest → Levels
played l [] = l
played l (r ∷ rs) = played (levels_of r) rs

abbrev pub active : Bridge → Levels
active b = (b.active_rumble_low, b.active_rumble_high)

reachable : (b : Bridge) → IsPlayable b → ¬ (is_unreachable b ≡ true)
reachable b p h = ground (arith, p.display, p.extension, p.device, p.motors)

send_lorie_rumble_requests :
    (low high duration : ℕ) (b : Bridge)
    → IsPlayable b
    → (send_lorie_rumble low high duration b).world.requests
      ≡ b.world.requests ++ rumble_request (to_unsigned u16_mod b.device_id) low high duration ∷ []
unfolding send_lorie_rumble
send_lorie_rumble_requests low high duration b p =
    if_cases
      (λ (b' : Bridge).
        b'.world.requests
        ≡ b.world.requests
          ++ rumble_request (to_unsigned u16_mod b.device_id) low high duration ∷ [])
      (is_unreachable b) _ _ (λ h. absurd (reachable b p h)) (λ _. refl)

apply_mix_forced :
    (m : Mix) (b : Bridge)
    → IsPlayable b
    → (m.low == 0 && m.high == 0) ≡ false
    → (apply_mix true m b).world.requests
      ≡ b.world.requests
        ++ XRequest.rumble
            (to_unsigned u16_mod b.device_id)
            m.low
            m.high
            (request_duration m.longest_remaining)
          ∷ []
unfolding apply_mix
apply_mix_forced m b p loud = rw (loud) (send_lorie_rumble_requests m.low m.high _ b p ∙ rw loud)

request_duration_bounds : (longest : ℕ) → request_duration longest ≡ max 1 (min uint32_max longest)
unfolding request_duration
request_duration_bounds longest = ground arith

-- With a device attached that can rumble, a forced `update_rumble` makes one request more while any
-- effect is left: for the loudest effect on each motor, and for as long as the longest effect still
-- lasts, which is at least a millisecond, cut at the largest 32-bit number. The display is open, the
-- extension is there, and the client table is as the bridge's invariant has it.
pub update_rumble_duration :
    (b : Bridge)
    → IsTable b
    → IsPlayable b
    → let now = (monotonic_ms b.world).0 in
      let kept = map (expire now) b.clients in
      0 < loudest_low kept + loudest_high kept
      → (update_rumble true b).world.requests
        ≡ b.world.requests
          ++ XRequest.rumble
              (to_unsigned u16_mod b.device_id)
              (loudest_low kept)
              (loudest_high kept)
              (max 1 (min uint32_max (longest_left now b.clients)))
            ∷ []
unfolding update_rumble
update_rumble_duration b v p loud =
    let (now, w) = monotonic_ms b.world in
    let (m, cs) = mix_clients now b.clients silence in
    let b' : Bridge = record b { clients = cs; world = w } in
    let kept = mix_clients-expire now b.clients silence in
    let (low, high) = mix_clients_loudest now b.clients silence v.slots in
    let low' : m.low ≡ loudest_low (map (expire now) b.clients) =
      omega (arith, low, ap loudest_low kept) in
    let high' : m.high ≡ loudest_high (map (expire now) b.clients) =
      omega (arith, high, ap loudest_high kept) in
    let longest : m.longest_remaining ≡ longest_left now b.clients =
      omega (arith, mix_clients_longest now b.clients silence) in
    let p' : IsPlayable b' = record {
      display = p.display;
      extension = p.extension;
      device = p.device;
      motors = p.motors;
    } in
    apply_mix_forced m b' p' (ground arith)
    ∙ cc (
      monotonic_ms_requests b.world,
      low',
      high',
      request_duration_bounds m.longest_remaining,
      ap (λ (t : ℕ). max 1 (min uint32_max t)) longest,
    )
