-- ===== src/Examples/Socket.antt =====
-- The client library of src/termux_gamepad.c on pieces of a stream and on failing sockets.
use termux_gamepad.Prelude.{
  ℕ, ◌≡◌, refl, arith, true, List, [], ◌∷◌, ◌++◌, none, some, pos, le_bytes,
}
use termux_gamepad.Wire.{encode_event, put_hotplug, encode_events}
use termux_gamepad.Wire.RoundTrip.{IsEvent, IsHotplug}
use termux_gamepad.Gamepad.Net.{
  Dial, RecvAnswer, got, recv_interrupted, recv_again, SendAnswer, took, send_blocked,
  send_interrupted, send_fault, send_all, connected,
}
use termux_gamepad.Gamepad.State.{reset_state}
use termux_gamepad.Gamepad.Events.{event_loop}
use termux_gamepad.Gamepad.Api.{create, fresh, update}
use termux_gamepad.Gamepad.Stream.{IsStream, delivered, after_events, between, event_loop_events}
use termux_gamepad.Gamepad.Transfer.{send_all_prefix}
use termux_gamepad.Gamepad.Handle.{Ready}
use termux_gamepad.Gamepad.Calls.{ReadyIfAny, update-Ready, create-Ready}
use termux_gamepad.Examples.Samples.{key_event, key_bytes_1, key_bytes_2, arrival}

key_event-IsEvent : IsEvent key_event
key_event-IsEvent = record {
  sec_fits = omega arith;
  usec_fits = omega arith;
  type_fits = omega arith;
  code_fits = omega arith;
  value_fits = omega arith;
}

-- Two presses and two bytes of a third event, cut in odd places.
abbrev pieces : List RecvAnswer
pieces =
    got key_bytes_1
    ∷ recv_interrupted
    ∷ got key_bytes_2
    ∷ got (key_bytes_1 ++ key_bytes_2)
    ∷ got (5 ∷ 0 ∷ [])
    ∷ recv_again
    ∷ []

pieces-IsStream : IsStream 0 pieces
pieces-IsStream = (omega arith, (omega arith, (omega arith, (omega arith, tt))))

delivered-pieces : delivered pieces ≡ encode_events (key_event ∷ key_event ∷ []) ++ (5 ∷ 0 ∷ [])
unfolding encode_events encode_event le_bytes
delivered-pieces = refl

event_loop_events_example : event_loop pieces (between (reset_state, 0)) ≡ (
  none,
  record (between (after_events (key_event ∷ key_event ∷ []) (reset_state, 0))) {
    buffer = 5 ∷ 0 ∷ [];
  },
)
event_loop_events_example =
    event_loop_events (key_event ∷ key_event ∷ []) (5 ∷ 0 ∷ []) pieces (reset_state, 0)
      (key_event-IsEvent, (key_event-IsEvent, tt)) (omega arith) pieces-IsStream delivered-pieces

arrival-IsHotplug : IsHotplug arrival
arrival-IsHotplug = record {
  magic_fits = omega arith;
  version_fits = omega arith;
  action_fits = omega arith;
  descriptor_fits = record {
    magic_fits = omega arith;
    version_fits = omega arith;
    present_fits = omega arith;
    capabilities_fits = omega arith;
    mode_fits = omega arith;
    vendor_fits = omega arith;
    product_fits = omega arith;
    device_fits = omega arith;
    name_size = refl;
  };
}

-- Two bytes are taken, a call is interrupted, the socket is full, and then it is broken.
abbrev broken : List SendAnswer
broken = took 2 ∷ send_interrupted ∷ send_blocked true 11 ∷ send_fault 32 ∷ []

send_all_prefix_example :
    let (status, sent) = send_all broken (1 ∷ 2 ∷ 3 ∷ []) in
    ((rest : List ℕ) × (sent ++ rest ≡ 1 ∷ 2 ∷ 3 ∷ [])) × (status ≡ pos 0 → sent ≡ 1 ∷ 2 ∷ 3 ∷ [])
send_all_prefix_example = send_all_prefix broken (1 ∷ 2 ∷ 3 ∷ []) (omega arith, (omega arith, tt))

abbrev two_pieces : List RecvAnswer
two_pieces = got (1 ∷ []) ∷ recv_interrupted ∷ got (2 ∷ 3 ∷ 4 ∷ []) ∷ []

-- A handle whose bridge went away, and the bridge back with a gamepad.
abbrev back : Dial
back = record {
  outcome = connected 8;
  sends = took 16 ∷ [];
  recvs = got (put_hotplug arrival []) ∷ [];
  nonblocking = pos 0;
}

alone-Ready : Ready (fresh (0x2f ∷ []) (back ∷ []))
alone-Ready =
    (record { served = λ e. cc; at_rest = λ e. refl; event_waits = omega arith }, omega arith)

update-Ready_example : Ready (update [] [] (fresh (0x2f ∷ []) (back ∷ []))).1
update-Ready_example = update-Ready [] [] (fresh (0x2f ∷ []) (back ∷ [])) alone-Ready

create-Ready_example : ReadyIfAny (create true (some (0x2f ∷ [])) none (back ∷ []))
create-Ready_example = create-Ready true (some (0x2f ∷ [])) none (back ∷ [])
