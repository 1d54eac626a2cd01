-- ===== src/Bridge/Queue/Whole.antt =====
-- The bytes that `queue_bytes` of src/lorie_evdev_bridge.c is given: those sent and those that
-- wait.
use termux_gamepad.Prelude.{
  ℕ, ◌+◌, ◌-◌, ◌<◌, ◌≡◌, ◌⊎◌, inl, inr, refl, ap, ◌∙◌, arith, Bool, false, List, [], ◌∷◌, ◌++◌,
  length, ltb, Bool-cases,
}
use termux_gamepad.Bridge.State.{Bridge, Client, client_at, with_client, client_buffer_size}
use termux_gamepad.Bridge.Queue.{flush_loop, flush_client, queue_bytes}
use termux_gamepad.Bridge.Invariant.{IsOpen, client_at-with_client, with_client-IsOpen}
use termux_gamepad.Bridge.Invariant.Queues.{flush_loop_keeps}

-- `r` is what a call leaves that had `bytes` to send to slot `i` of `b`.
abbrev pub Sends : ℕ → Bridge → List ℕ → Bool × Bridge → Type 0
Sends i b bytes r =
    (sent : List ℕ) × (r.1.world.wire ≡ b.world.wire ++ (((client_at b i).fd, sent) ∷ []))
    × (sent ++ (client_at r.1 i).output ≡ bytes)

flush_client-Sends :
    (i : ℕ) (b : Bridge) → IsOpen b i → Sends i b (client_at b i).output (flush_client i b)
unfolding flush_client
flush_client-Sends i b held =
    let c = client_at b i in
    let f = flush_loop b.world.sends c.output in
    let b' : Bridge = record b {
      world = record b.world { sends = f.sends; wire = b.world.wire ++ ((c.fd, f.sent) ∷ []) };
    } in
    (
      f.sent,
      refl,
      rw (client_at-with_client b' i (record c { output = f.output }) held)
          (flush_loop_keeps b.world.sends c.output),
    )

pub queue_bytes_whole :
    (i : ℕ) (bytes : List ℕ) (b : Bridge)
    → IsOpen b i
    → let c = client_at b i in
      let r = queue_bytes i bytes b in
      ((client_buffer_size < length c.output + length bytes) × (r ≡ (false, b)))
      ⊎ Sends i b (c.output ++ bytes) r
unfolding queue_bytes
queue_bytes_whole i bytes b held =
    elim (Bool-cases (ltb (client_buffer_size - length c.output) (length bytes))) [
      | inl full ↦ rw full (inl (ground arith, refl))
      | inr room ↦ rw room (inr sends)
    ]
  where
    c : Client
    c = client_at b i

    queued : Client
    queued = record c { output = c.output ++ bytes }

    sends : Sends i b (c.output ++ bytes) (flush_client i (with_client b i queued))
    sends =
        let b' = with_client b i queued in
        let same : client_at b' i ≡ queued = client_at-with_client b i queued held in
        let (sent, logged, whole) =
          flush_client-Sends i b' (with_client-IsOpen b i queued held held) in
        (
          sent,
          logged ∙ ap (λ (d : Client). b.world.wire ++ ((d.fd, sent) ∷ [])) same,
          whole ∙ ap (λ (d : Client). d.output) same,
        )
