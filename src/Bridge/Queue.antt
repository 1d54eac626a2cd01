-- ===== src/Bridge/Queue.antt =====
-- `flush_client`, `queue_bytes` and `queue_events` of src/lorie_evdev_bridge.c.
pub mod Whole
pub mod Links
pub mod Broadcast
use termux_gamepad.Prelude.{
  ℕ, zero, suc, ◌-◌, Bool, true, false, List, [], ◌∷◌, ◌++◌, ltb, if◌then◌else◌, length, take, drop,
}
use termux_gamepad.Wire.{InputEvent, encode_event, encode_events}
use termux_gamepad.Bridge.State.{
  SendResult, took, send_again, send_interrupted, send_failed, Bridge, client_buffer_size,
  client_at, with_client,
}

pub record Flushed : Type 0 where
  pub success : Bool
  pub output : List ℕ
  pub sent : List ℕ
  pub sends : List SendResult

-- The `while` loop, on the coming answers of `send`, which takes no more than it is given.
unfoldable pub flush_loop : List SendResult → List ℕ → Flushed
flush_loop sends [] = record { success = true; output = []; sent = []; sends = sends }
flush_loop [] (b ∷ out) = record { success = true; output = b ∷ out; sent = []; sends = [] }
flush_loop (took zero ∷ sends) (b ∷ out) = record {
  success = false;
  output = b ∷ out;
  sent = [];
  sends = sends;
}
flush_loop (took (suc n) ∷ sends) (b ∷ out) =
    let rest = flush_loop sends (drop (suc n) (b ∷ out)) in
    record rest { sent = take (suc n) (b ∷ out) ++ rest.sent }
flush_loop (send_interrupted ∷ sends) (b ∷ out) = flush_loop sends (b ∷ out)
flush_loop (send_again ∷ sends) (b ∷ out) = record {
  success = true;
  output = b ∷ out;
  sent = [];
  sends = sends;
}
flush_loop (send_failed ∷ sends) (b ∷ out) = record {
  success = false;
  output = b ∷ out;
  sent = [];
  sends = sends;
}

unfoldable pub flush_client : ℕ → Bridge → Bool × Bridge
flush_client i b =
    let c = client_at b i in
    let f = flush_loop b.world.sends c.output in
    let w = record b.world { sends = f.sends; wire = b.world.wire ++ ((c.fd, f.sent) ∷ []) } in
    (f.success, with_client (record b { world = w }) i (record c { output = f.output }))

-- `false` for the status -1.
unfoldable pub queue_bytes : ℕ → List ℕ → Bridge → Bool × Bridge
queue_bytes i bytes b =
    let c = client_at b i in
    if ltb (client_buffer_size - length c.output) (length bytes)
    then (false, b)
    else flush_client i (with_client b i (record c { output = c.output ++ bytes }))

unfoldable pub queue_events : ℕ → List InputEvent → Bridge → Bool × Bridge
queue_events i events b = queue_bytes i (encode_events events) b
