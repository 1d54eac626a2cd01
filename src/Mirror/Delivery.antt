-- ===== src/Mirror/Delivery.antt =====
-- From the X server to the application: src/lorie_evdev_bridge.c queues bytes for an XInput2 event,
-- and src/termux_gamepad.c reads them in any pieces.
use termux_gamepad.Prelude.{
  ℕ, ◌≡◌, refl, sym, ap, ◌∙◌, subst, arith, List, [], ◌∷◌, Option, none, ℤ, pos, append-nil,
  if_cases, All,
}
use termux_gamepad.Wire.{InputEvent, ev_syn, syn_report, encode_events}
use termux_gamepad.Wire.RoundTrip.{IsEvent}
use termux_gamepad.Bridge.State.{Bridge}
use termux_gamepad.Bridge.Input.{
  Report, XiEvent, translate, seal_report, is_empty, process_xi_event,
}
use termux_gamepad.Gamepad.Net.{RecvAnswer}
use termux_gamepad.Gamepad.State.{PadState}
use termux_gamepad.Gamepad.Events.{Intake, event_loop}
use termux_gamepad.Gamepad.Stream.{IsStream, delivered, after_events, between, event_loop_events}
use termux_gamepad.Mirror.{replay, IsMirror}
use termux_gamepad.Mirror.Reports.{start_report, is_foreign, sent_for, process_xi_event_mirrored}
use termux_gamepad.Mirror.Sendable.{IsTimely, Sendable, append_event-Sendable, translate-Sendable}

sent_for-IsEvent :
    (e : XiEvent) (device_id : ℤ) (b : Bridge)
    → IsTimely b.world
    → All IsEvent (sent_for e device_id b)
unfolding sent_for seal_report
sent_for-IsEvent e device_id b h =
    let r = translate e.evtype e (start_report b) in
    let v : Sendable r = translate-Sendable e.evtype e (start_report b) (tt, h) in
    if_cases (All IsEvent) (is_foreign e device_id) _ _ (λ _. tt)
      (λ _.
        if_cases (λ (r' : Report). All IsEvent r'.events) (is_empty r.events) _ _ (λ _. v.0)
          (λ _.
            (append_event-Sendable ev_syn syn_report (pos 0) r
              (omega arith, omega arith, omega arith) v).0))

after_events-replay :
    (es : List InputEvent) (r : PadState × ℕ) → (after_events es r).0 ≡ replay r.0 es
unfolding after_events replay
after_events-replay [] r = refl
after_events-replay (e ∷ es) (s, reports) = after_events-replay es _

-- From end to end: an XInput2 event arrives at the bridge; the bytes that the bridge sends for it
-- reach the library, in pieces of any sizes with interrupted calls between them; then the loop of
-- `termux_gamepad_update` ends without an error, keeps no byte back, and leaves a state that
-- mirrors the gamepad, if the state did before. The clock is taken to stay in the range of its
-- 64-bit seconds.
pub process_xi_event-delivered :
    (s : PadState) (reports : ℕ) (e : XiEvent) (device_id : ℤ) (b : Bridge)
    (answers : List RecvAnswer)
    → IsTimely b.world
    → IsStream 0 answers
    → delivered answers ≡ encode_events (sent_for e device_id b)
    → IsMirror s b.state
    → let (fault, q) = event_loop answers (between (s, reports)) in
      (fault ≡ none) × (q.buffer ≡ []) × IsMirror q.state (process_xi_event e device_id b).state
process_xi_event-delivered s reports e device_id b answers timely stream bytes m =
    let es = sent_for e device_id b in
    let read =
      event_loop_events es [] answers (s, reports) (sent_for-IsEvent e device_id b timely)
        (omega arith) stream (bytes ∙ sym (append-nil (encode_events es))) in
    (
      ap (λ (r : Option ℤ × Intake). r.0) read,
      ap (λ (r : Option ℤ × Intake). r.1.buffer) read,
      subst (λ t. IsMirror t (process_xi_event e device_id b).state)
          (sym
            (ap (λ (r : Option ℤ × Intake). r.1.state) read ∙ after_events-replay es (s, reports)))
          (process_xi_event_mirrored s e device_id b m),
    )
