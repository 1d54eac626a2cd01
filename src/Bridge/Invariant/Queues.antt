-- ===== src/Bridge/Invariant/Queues.antt =====
-- Sending in src/lorie_evdev_bridge.c, and the table and the mix.
use termux_gamepad.Prelude.{
  ℕ, zero, suc, ◌-◌, ◌≤◌, ◌≡◌, refl, ap, ◌∙◌, arith, Bool, true, false, List, [], ◌∷◌, ◌++◌,
  append_assoc, length, length-append, take, drop, take-append-drop, ltb, if_cases,
}
use termux_gamepad.Bridge.State.{
  Bridge, Client, SendResult, took, send_again, send_interrupted, send_failed, client_at,
  client_buffer_size,
}
use termux_gamepad.Bridge.Os.{in_world}
use termux_gamepad.Bridge.Rumble.{close_on_failure}
use termux_gamepad.Bridge.Queue.{flush_loop, flush_client, queue_bytes}
use termux_gamepad.Bridge.Invariant.{IsSlot, IsServing, core}
use termux_gamepad.Bridge.Invariant.Mixing.{
  with_client-IsServing, in_world-IsServing, client_at-IsSlot, close_client-IsServing,
  core-close_client,
}

-- What was taken and what is left are the bytes that were queued, in their order.
pub flush_loop_keeps :
    (sends : List SendResult) (out : List ℕ)
    → let f = flush_loop sends out in f.sent ++ f.output ≡ out
unfolding flush_loop
flush_loop_keeps [] [] = refl
flush_loop_keeps (s ∷ sends) [] = refl
flush_loop_keeps [] (b ∷ out) = refl
flush_loop_keeps (took zero ∷ sends) (b ∷ out) = refl
flush_loop_keeps (took (suc n) ∷ sends) (b ∷ out) =
    append_assoc (take (suc n) (b ∷ out)) _ _
    ∙ ap (◌++◌ (take (suc n) (b ∷ out))) (flush_loop_keeps sends (drop (suc n) (b ∷ out)))
    ∙ take-append-drop (suc n) (b ∷ out)
flush_loop_keeps (send_interrupted ∷ sends) (b ∷ out) = flush_loop_keeps sends (b ∷ out)
flush_loop_keeps (send_again ∷ sends) (b ∷ out) = refl
flush_loop_keeps (send_failed ∷ sends) (b ∷ out) = refl

pub length-flush_loop :
    (sends : List SendResult) (out : List ℕ) → length (flush_loop sends out).output ≤ length out
length-flush_loop sends out =
    let f = flush_loop sends out in
    omega (arith, ap length (flush_loop_keeps sends out), length-append f.sent f.output)

pub flush_client-IsServing : (i : ℕ) (b : Bridge) → IsServing b → IsServing (flush_client i b).1
unfolding flush_client
flush_client-IsServing i b v =
    with_client-IsServing (in_world b _) i _ (in_world-IsServing b _ v) flushed refl refl
  where
    c : Client
    c = client_at b i

    flushed : IsSlot (record c { output = (flush_loop b.world.sends c.output).output })
    flushed =
        let slot = client_at-IsSlot b i v.slots in
        record {
          output_fits = omega (arith, slot.output_fits, length-flush_loop b.world.sends c.output);
          control_fits = slot.control_fits;
          free_silent = slot.free_silent;
        }

pub core-flush_client : (i : ℕ) (b : Bridge) → core (flush_client i b).1 ≡ core b
unfolding flush_client
core-flush_client i b = refl

pub queue_bytes-IsServing :
    (i : ℕ) (bytes : List ℕ) (b : Bridge) → IsServing b → IsServing (queue_bytes i bytes b).1
unfolding queue_bytes
queue_bytes-IsServing i bytes b v =
    if_cases (λ (r : Bool × Bridge). IsServing r.1)
      (ltb (client_buffer_size - length c.output) (length bytes)) _ _ (λ _. v)
      (λ room. flush_client-IsServing i _ (with_client-IsServing b i _ v (queued room) refl refl))
  where
    c : Client
    c = client_at b i

    queued :
        ltb (client_buffer_size - length c.output) (length bytes) ≡ false
        → IsSlot (record c { output = c.output ++ bytes })
    queued room =
        let slot = client_at-IsSlot b i v.slots in
        record {
          output_fits = ground (arith, slot.output_fits, length-append c.output bytes);
          control_fits = slot.control_fits;
          free_silent = slot.free_silent;
        }

pub core-queue_bytes :
    (i : ℕ) (bytes : List ℕ) (b : Bridge) → core (queue_bytes i bytes b).1 ≡ core b
unfolding queue_bytes
core-queue_bytes i bytes b =
    if_cases (λ (r : Bool × Bridge). core r.1 ≡ core b)
      (ltb (client_buffer_size - length (client_at b i).output) (length bytes)) _ _ (λ _. refl)
      (λ _. core-flush_client i _)

pub close_on_failure-IsServing :
    (i : ℕ) (r : Bool × Bridge) → IsServing r.1 → IsServing (close_on_failure i r)
unfolding close_on_failure
close_on_failure-IsServing i (true, b) v = v
close_on_failure-IsServing i (false, b) v = close_client-IsServing i b v

pub core-close_on_failure : (i : ℕ) (r : Bool × Bridge) → core (close_on_failure i r) ≡ core r.1
unfolding close_on_failure
core-close_on_failure i (true, b) = refl
core-close_on_failure i (false, b) = core-close_client i b
