-- ===== src/Bridge/Rumble.antt =====
-- `update_rumble`, `send_lorie_rumble` and `close_client` of src/lorie_evdev_bridge.c: the effects
-- of all clients are merged into the one that the controller plays.
pub mod Motors
use termux_gamepad.Prelude.{
  ℕ, ◌-◌, Bool, true, not, ◌&&◌, ◌||◌, List, [], ◌∷◌, ◌++◌, ltb, leb, ◌==◌, is_nonneg,
  if◌then◌else◌, test_bit, to_unsigned, u16_mod,
}
use termux_gamepad.Bridge.State.{
  Client, Bridge, World, XRequest, free_client, client_at, with_client,
}
use termux_gamepad.Bridge.Os.{monotonic_ms, ask, in_world}

-- The accumulators `low`, `high` and `longest_remaining`.
pub record Mix : Type 0 where
  pub low : ℕ
  pub high : ℕ
  pub longest_remaining : ℕ

abbrev pub is_rumbling : Client → Bool
is_rumbling c = not (c.rumble_low == 0 && c.rumble_high == 0)

abbrev pub without_rumble : Client → Client
without_rumble c = record c { rumble_low = 0; rumble_high = 0; rumble_expires_ms = 0 }

abbrev pub louder : Mix → Client → ℕ → Mix
louder m c now = record {
  low = if ltb m.low c.rumble_low then c.rumble_low else m.low;
  high = if ltb m.high c.rumble_high then c.rumble_high else m.high;
  longest_remaining =
      let remaining = c.rumble_expires_ms - now in
      if ltb m.longest_remaining remaining then remaining else m.longest_remaining;
}

-- One round of the loop over the clients.
unfoldable pub mix_client : ℕ → Client → Mix → Mix × Client
mix_client now c m =
    if not (is_nonneg c.fd) || not (is_rumbling c)
    then (m, c)
    else if leb c.rumble_expires_ms now
    then (m, without_rumble c)
    else (louder m c now, c)

unfoldable pub mix_clients : ℕ → List Client → Mix → Mix × List Client
mix_clients now [] m = (m, [])
mix_clients now (c ∷ cs) m =
    let (m', c') = mix_client now c m in let (m'', cs') = mix_clients now cs m' in (m'', c' ∷ cs')

abbrev pub uint32_max : ℕ
uint32_max = 4294967295

abbrev pub rumble_request : ℕ → ℕ → ℕ → ℕ → XRequest
rumble_request device low high duration_ms =
    if low == 0 && high == 0
    then XRequest.stop_rumble device
    else XRequest.rumble device low high duration_ms

abbrev pub is_unreachable : Bridge → Bool
is_unreachable b =
    not b.x_display
    || not (is_nonneg b.opcode)
    || not (is_nonneg b.device_id)
    || not (test_bit b.capabilities 0)

-- `_XGetRequest` and `XFlush`, under the guard. The status is ignored by every caller.
unfoldable pub send_lorie_rumble : ℕ → ℕ → ℕ → Bridge → Bridge
send_lorie_rumble low high duration_ms b =
    if is_unreachable b
    then b
    else in_world b
        (ask b.world (rumble_request (to_unsigned u16_mod b.device_id) low high duration_ms))

unfoldable pub request_duration : ℕ → ℕ
request_duration longest =
    let duration = if ltb uint32_max longest then uint32_max else longest in
    if duration == 0 then 1 else duration

-- What `update_rumble` does behind its loop.
unfoldable pub apply_mix : Bool → Mix → Bridge → Bridge
apply_mix force m b =
    let sent =
      if m.low == 0 && m.high == 0
      then (if not (b.active_rumble_low == 0 && b.active_rumble_high == 0)
          then send_lorie_rumble 0 0 0 b
          else b)
      else if force || not (m.low == b.active_rumble_low) || not (m.high == b.active_rumble_high)
      then send_lorie_rumble m.low m.high (request_duration m.longest_remaining) b
      else b in
    record sent { active_rumble_low = m.low; active_rumble_high = m.high }

abbrev pub silence : Mix
silence = record { low = 0; high = 0; longest_remaining = 0 }

unfoldable pub update_rumble : Bool → Bridge → Bridge
update_rumble force b =
    let (now, w) = monotonic_ms b.world in
    let (m, cs) = mix_clients now b.clients silence in
    apply_mix force m (record b { clients = cs; world = w })

-- The connection is closed where there is one, and the slot is free.
abbrev pub closing : Client → World → World
closing c w = if is_nonneg c.fd then record w { closed = w.closed ++ (c.fd ∷ []) } else w

abbrev pub release_slot : ℕ → Bridge → Bridge
release_slot i b = with_client (in_world b (closing (client_at b i) b.world)) i free_client

unfoldable pub close_client : ℕ → Bridge → Bridge
close_client i b =
    let had_rumble = is_rumbling (client_at b i) in
    let freed = release_slot i b in
    if had_rumble && freed.x_display then update_rumble true freed else freed

-- `if (… < 0) close_client(client)`, given what the call returns.
unfoldable pub close_on_failure : ℕ → Bool × Bridge → Bridge
close_on_failure i (success, b) = if success then b else close_client i b
