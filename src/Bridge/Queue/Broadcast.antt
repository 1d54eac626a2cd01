-- ===== src/Bridge/Queue/Broadcast.antt =====
-- Which clients `broadcast_events` of src/lorie_evdev_bridge.c reaches, and the log of what is
-- sent.
use termux_gamepad.Prelude.{
  ℕ, zero, suc, ◌+◌, ◌-◌, ◌≤◌, ◌<◌, ◌≡◌, ◌≢◌, inl, inr, refl, ap, ◌∙◌, arith, Bool, true, ◌&&◌,
  List, [], ◌∷◌, ◌++◌, ℤ, append-nil, append_assoc, if_cases, length, length-drop, drop, false, ltb,
  is_nonneg, sym, subst, if◌then◌else◌,
}
use termux_gamepad.Wire.{InputEvent, encode_events}
use termux_gamepad.Bridge.State.{
  SendResult, took, send_again, send_interrupted, send_failed, Bridge, Client, ClientKind, World,
  client_at, with_client, free_client, client_buffer_size, is_events, max_clients,
}
use termux_gamepad.Bridge.Os.{monotonic_ms, clock_gettime}
use termux_gamepad.Bridge.Rumble.{
  Mix, mix_clients, silence, apply_mix, send_lorie_rumble, update_rumble, is_rumbling, release_slot,
  close_client, close_on_failure,
}
use termux_gamepad.Bridge.Queue.{flush_loop, flush_client, queue_bytes, queue_events}
use termux_gamepad.Bridge.Queue.Whole.{queue_bytes_whole}
use termux_gamepad.Bridge.Queue.Links.{
  Link, link, link_at, link_at-close_client, link_at-queue_bytes_ne,
}
use termux_gamepad.Bridge.Input.{for_clients, offer_events, broadcast_events}
use termux_gamepad.Bridge.Invariant.{IsOpen, client_at-with_client}

-- The log of the bytes that the sockets took only grows.
abbrev Grows : Bridge → Bridge → Type 0
Grows b b' = (more : List (ℤ × List ℕ)) × (b'.world.wire ≡ b.world.wire ++ more)

still : (b b' : Bridge) → b'.world.wire ≡ b.world.wire → Grows b b'
still b b' e = ([], e ∙ sym (append-nil b.world.wire))

apply_mix_wire :
    (force : Bool) (m : Mix) (b : Bridge) → (apply_mix force m b).world.wire ≡ b.world.wire
unfolding apply_mix send_lorie_rumble
apply_mix_wire force m b = ground arith

monotonic_ms_wire : (w : World) → (monotonic_ms w).1.wire ≡ w.wire
unfolding monotonic_ms clock_gettime
monotonic_ms_wire w = ground arith

update_rumble_wire : (force : Bool) (b : Bridge) → (update_rumble force b).world.wire ≡ b.world.wire
unfolding update_rumble
update_rumble_wire force b =
    let (now, w) = monotonic_ms b.world in
    let (m, cs) = mix_clients now b.clients silence in
    apply_mix_wire force m (record b { clients = cs; world = w }) ∙ monotonic_ms_wire b.world

close_client_wire : (i : ℕ) (b : Bridge) → (close_client i b).world.wire ≡ b.world.wire
unfolding close_client
close_client_wire i b =
    let freed : (release_slot i b).world.wire ≡ b.world.wire =
      if_cases (λ (w : World). w.wire ≡ b.world.wire) (is_nonneg (client_at b i).fd) _ _ (λ _. refl)
        (λ _. refl) in
    if_cases (λ (b' : Bridge). b'.world.wire ≡ b.world.wire)
      (is_rumbling (client_at b i) && b.x_display) _ _
      (λ _. update_rumble_wire true (release_slot i b) ∙ freed) (λ _. freed)

queue_bytes-Grows : (i : ℕ) (bytes : List ℕ) (b : Bridge) → Grows b (queue_bytes i bytes b).1
unfolding queue_bytes flush_client
queue_bytes-Grows i bytes b =
    if_cases (λ (r : Bool × Bridge). Grows b r.1)
      (ltb (client_buffer_size - length (client_at b i).output) (length bytes)) _ _
      (λ _. still b b refl) (λ _. (_, refl))

-- One client's turn of a broadcast of some bytes to the clients of a kind.
abbrev pub offer : (ClientKind → Bool) → List ℕ → ℕ → Bridge → Bridge
offer wanted bytes i b =
    let c = client_at b i in
    if is_nonneg c.fd && wanted c.kind then close_on_failure i (queue_bytes i bytes b) else b

offer-Grows :
    (wanted : ClientKind → Bool) (bytes : List ℕ) (i : ℕ) (b : Bridge)
    → Grows b (offer wanted bytes i b)
unfolding close_on_failure
offer-Grows wanted bytes i b =
    let r = queue_bytes i bytes b in
    let (more, grown) = queue_bytes-Grows i bytes b in
    if_cases (Grows b) (is_nonneg (client_at b i).fd && wanted (client_at b i).kind) _ _
      (λ _.
        if_cases (Grows b) r.0 _ _ (λ _. (more, grown))
          (λ _. (more, close_client_wire i r.1 ∙ grown)))
      (λ _. still b b refl)

offer_ne :
    (wanted : ClientKind → Bool) (bytes : List ℕ) (j : ℕ) (b : Bridge) (i : ℕ)
    → j ≢ i
    → link_at (offer wanted bytes j b) i ≡ link_at b i
offer_ne wanted bytes j b i ne =
    if_cases (λ (b' : Bridge). link_at b' i ≡ link_at b i)
      (is_nonneg (client_at b j).fd && wanted (client_at b j).kind) _ _
      (λ _. link_at-queue_bytes_ne j bytes b i ne) (λ _. refl)

flush_client_fd :
    (i : ℕ) (b : Bridge) → IsOpen b i → (client_at (flush_client i b).1 i).fd ≡ (client_at b i).fd
unfolding flush_client
flush_client_fd i b held =
    let c = client_at b i in
    let emptied : Client = record c { output = (flush_loop b.world.sends c.output).output } in
    ap (λ (d : Client). d.fd) (client_at-with_client b i emptied held)

queue_bytes_fd :
    (i : ℕ) (bytes : List ℕ) (b : Bridge)
    → IsOpen b i
    → (client_at (queue_bytes i bytes b).1 i).fd ≡ (client_at b i).fd
unfolding queue_bytes
queue_bytes_fd i bytes b held =
    let c = client_at b i in
    let queued : Client = record c { output = c.output ++ bytes } in
    let same : client_at (with_client b i queued) i ≡ queued =
      client_at-with_client b i queued held in
    if_cases (λ (r : Bool × Bridge). (client_at r.1 i).fd ≡ c.fd)
      (ltb (client_buffer_size - length c.output) (length bytes)) _ _ (λ _. refl)
      (λ _.
        flush_client_fd i (with_client b i queued) (rw same held) ∙ ap (λ (d : Client). d.fd) same)

-- Whether `n` bytes can be sent on the coming answers of `send` without an error: they are all
-- taken, or the rest has to wait.
abbrev pub sends_well : List SendResult → ℕ → Bool
sends_well answers zero = true
sends_well [] (suc n) = true
sends_well (took zero ∷ answers) (suc n) = false
sends_well (took (suc k) ∷ answers) (suc n) = sends_well answers (n - k)
sends_well (send_interrupted ∷ answers) (suc n) = sends_well answers (suc n)
sends_well (send_again ∷ answers) (suc n) = true
sends_well (send_failed ∷ answers) (suc n) = false

flush_loop_success :
    (answers : List SendResult) (out : List ℕ)
    → (flush_loop answers out).success ≡ sends_well answers (length out)
unfolding flush_loop
flush_loop_success answers [] = refl
flush_loop_success [] (x ∷ out) = refl
flush_loop_success (took zero ∷ answers) (x ∷ out) = refl
flush_loop_success (took (suc k) ∷ answers) (x ∷ out) =
    flush_loop_success answers (drop k out) ∙ ap (sends_well answers) (length-drop k out)
flush_loop_success (send_interrupted ∷ answers) (x ∷ out) = flush_loop_success answers (x ∷ out)
flush_loop_success (send_again ∷ answers) (x ∷ out) = refl
flush_loop_success (send_failed ∷ answers) (x ∷ out) = refl

queue_bytes_success :
    (i : ℕ) (bytes : List ℕ) (b : Bridge)
    → IsOpen b i
    → length (client_at b i).output + length bytes ≤ client_buffer_size
    → (queue_bytes i bytes b).0
      ≡ sends_well b.world.sends (length ((client_at b i).output ++ bytes))
unfolding queue_bytes flush_client
queue_bytes_success i bytes b held room =
    let c = client_at b i in
    let queued : Client = record c { output = c.output ++ bytes } in
    let same : client_at (with_client b i queued) i ≡ queued =
      client_at-with_client b i queued held in
    if_cases (λ (r : Bool × Bridge). r.0 ≡ sends_well b.world.sends (length (c.output ++ bytes)))
      (ltb (client_buffer_size - length c.output) (length bytes)) _ _
      (λ full. absurd (ground (arith, full, room)))
      (λ _.
        ap (λ (d : Client). (flush_loop b.world.sends d.output).success) same
        ∙ flush_loop_success b.world.sends (c.output ++ bytes))

-- What a client that is to get `bytes`, those that waited included, comes to, `answers` being those
-- of `send` when it is its turn: if sending fails, its connection is closed; otherwise its
-- descriptor `fd` was given some bytes which, with those that wait, are `bytes`.
pub data Reached (i : ℕ) (fd : ℤ) (bytes : List ℕ) (answers : List SendResult) (b : Bridge)
    : Type 0 where
  closed :
      link_at b i ≡ link free_client
      → sends_well answers (length bytes) ≡ false
      → Reached i fd bytes answers b
  served :
      (before after : List (ℤ × List ℕ)) (sent : List ℕ)
      → b.world.wire ≡ before ++ ((fd, sent) ∷ after)
      → (client_at b i).fd ≡ fd
      → sent ++ (client_at b i).output ≡ bytes
      → sends_well answers (length bytes) ≡ true
      → Reached i fd bytes answers b

-- What waits to be reached: an open connection of a client of the kind that has room.
abbrev pub Awaits : (ClientKind → Bool) → Link → List ℕ → Type 0
Awaits wanted l bytes =
    (is_nonneg l.fd ≡ true)
    × (wanted l.kind ≡ true)
    × (length l.output + length bytes ≤ client_buffer_size)

abbrev pub IsListening : Link → List ℕ → Type 0
IsListening = Awaits is_events

offer_reaches :
    (wanted : ClientKind → Bool) (bytes : List ℕ) (i : ℕ) (b : Bridge)
    → Awaits wanted (link_at b i) bytes
    → Reached i
        (client_at b i).fd
        ((client_at b i).output ++ bytes)
        b.world.sends
        (offer wanted bytes i b)
unfolding close_on_failure
offer_reaches wanted bytes i b (held, listens, room) =
    let c = client_at b i in
    let r = queue_bytes i bytes b in
    let success = queue_bytes_success i bytes b held room in
    let fd : (client_at r.1 i).fd ≡ c.fd = queue_bytes_fd i bytes b held in
    rw (held, listens)
      (if_cases (Reached i c.fd (c.output ++ bytes) b.world.sends) r.0 _ _
        (λ well. elim (queue_bytes_whole i bytes b held) [
          | inl (full, unchanged) ↦ absurd (omega (arith, full, room))
          | inr (sent, logged, whole) ↦
              served b.world.wire [] sent logged fd whole (sym success ∙ well)
        ])
        (λ ill. closed (link_at-close_client i r.1 (rw fd held)) (sym success ∙ ill)))

-- A turn of another client changes nothing of this.
Reached_kept :
    (i : ℕ) (fd : ℤ) (bytes : List ℕ) (answers : List SendResult) (b b' : Bridge)
    → link_at b' i ≡ link_at b i
    → Grows b b'
    → Reached i fd bytes answers b
    → Reached i fd bytes answers b'
Reached_kept i fd bytes answers b b' same grown (closed e ill) = closed (same ∙ e) ill
Reached_kept i fd bytes answers b b' same (more, grown)
      (served before after sent logged at whole well) =
    served before (after ++ more) sent
      (grown ∙ ap (λ w. w ++ more) logged ∙ append_assoc before ((fd, sent) ∷ after) more)
      (ap (λ (l : Link). l.fd) same ∙ at) (ap (λ (l : Link). sent ++ l.output) same ∙ whole) well

module _ (wanted : ClientKind → Bool) (bytes : List ℕ) (i : ℕ) (l : Link) where
  abbrev Done : List SendResult → Bridge → Type 0
  Done answers b = Reached i l.fd (l.output ++ bytes) answers b

  after_turn :
      (n first : ℕ) (answers : List SendResult) (b : Bridge)
      → i < first
      → Done answers b
      → Done answers (for_clients n first (offer wanted bytes) b)
  unfolding for_clients
  after_turn zero first answers b h d = d
  after_turn (suc n) first answers b h d =
      let b' = offer wanted bytes first b in
      after_turn n (suc first) answers b' (omega arith) (
        Reached_kept i l.fd _ answers b b' (offer_ne wanted bytes first b i (omega arith))
          (offer-Grows wanted bytes first b) d)

  own_turn :
      (first : ℕ) (b : Bridge)
      → first ≡ i
      → Awaits wanted l bytes
      → link_at b i ≡ l
      → Done b.world.sends (offer wanted bytes first b)
  own_turn first b here v e =
      subst (λ j. Done b.world.sends (offer wanted bytes j b)) (sym here)
        (subst
          (λ (m : Link). Reached i m.fd (m.output ++ bytes) b.world.sends (offer wanted bytes i b))
          e (offer_reaches wanted bytes i b (subst (λ m. Awaits wanted m bytes) (sym e) v)))

  -- Another `turns` turns are before that of slot `i`.
  before_turn :
      (n turns first : ℕ) (b : Bridge)
      → first + turns ≡ i
      → turns < n
      → Awaits wanted l bytes
      → link_at b i ≡ l
      → Done
          (for_clients turns first (offer wanted bytes) b).world.sends
          (for_clients n first (offer wanted bytes) b)
  unfolding for_clients
  before_turn zero turns first b h k v e = absurd (omega arith)
  before_turn (suc n) zero first b h k v e =
      after_turn n (suc first) b.world.sends (offer wanted bytes first b) (omega arith)
        (own_turn first b (omega arith) v e)
  before_turn (suc n) (suc turns) first b h k v e =
      before_turn n turns (suc first) (offer wanted bytes first b) (omega arith) (omega arith) v
        (offer_ne wanted bytes first b i (omega arith) ∙ e)

-- The answers of `send` that are left when it is the turn of slot `i`.
abbrev pub answers_at : (ℕ → Bridge → Bridge) → ℕ → Bridge → List SendResult
answers_at body i b = (for_clients i 0 body b).world.sends

-- A loop over the clients that offers bytes to those of a kind.
pub offers_reach :
    (wanted : ClientKind → Bool) (bytes : List ℕ) (i : ℕ) (b : Bridge)
    → i < max_clients
    → Awaits wanted (link_at b i) bytes
    → Reached i
        (client_at b i).fd
        ((client_at b i).output ++ bytes)
        (answers_at (offer wanted bytes) i b)
        (for_clients max_clients 0 (offer wanted bytes) b)
offers_reach wanted bytes i b h v =
    before_turn wanted bytes i (link_at b i) max_clients i 0 b (omega arith) (omega (arith, h)) v
      refl

-- A broadcast reaches every client of events that has room in its buffer, whatever becomes of the
-- clients before and after it: if sending to it fails, its connection is closed; otherwise the
-- bytes that its descriptor was given by one call, as the log has them, followed by the bytes that
-- wait, are the bytes that waited before followed by the events' bytes.
pub broadcast_events_reaches :
    (es : List InputEvent) (i : ℕ) (b : Bridge)
    → i < max_clients
    → IsListening (link_at b i) (encode_events es)
    → Reached i
        (client_at b i).fd
        ((client_at b i).output ++ encode_events es)
        (answers_at (offer_events es) i b)
        (broadcast_events es b)
unfolding broadcast_events offer_events queue_events
broadcast_events_reaches es i b h v = offers_reach is_events (encode_events es) i b h v
