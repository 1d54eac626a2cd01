-- ===== src/Examples/Ends.antt =====
-- Both ends: a button goes down, and a client joins.
use termux_gamepad.Prelude.{
  ◌≤◌, ◌≡◌, refl, sym, ◌∙◌, arith, List, [], ◌∷◌, none, pos, negsuc, length, AllBelow-at,
  test_bit-zero, get_or, test_bit, le_bytes,
}
use termux_gamepad.Wire.{encode_event, encode_events}
use termux_gamepad.Bridge.Os.{clock_gettime}
use termux_gamepad.Bridge.Convert.{button_code, hat_value}
use termux_gamepad.Bridge.State.{GamepadState, zero_state}
use termux_gamepad.Bridge.Input.{
  snapshot, process_xi_event, seal_report, translate, press_button, append_event,
}
use termux_gamepad.Bridge.Input.Pad.{IsPad, AxisFits}
use termux_gamepad.Gamepad.Net.{RecvAnswer, got, recv_interrupted}
use termux_gamepad.Gamepad.State.{reset_state}
use termux_gamepad.Gamepad.Events.{event_loop, trigger_value}
use termux_gamepad.Gamepad.Stream.{IsStream, delivered, between}
use termux_gamepad.Mirror.{IsMirror, replay, shown_axis, place}
use termux_gamepad.Mirror.Reports.{sent_for, process_xi_event_mirrored, length-sent_for}
use termux_gamepad.Mirror.Join.{snapshot_mirrored}
use termux_gamepad.Mirror.Delivery.{process_xi_event-delivered}
use termux_gamepad.Examples.Samples.{
  calm, playing, south_pressed, stick_moved, key_bytes_1, key_bytes_2, syn_bytes,
}

-- A fresh client shows a gamepad at rest.
rest-IsMirror : IsMirror reset_state zero_state
unfolding trigger_value
rest-IsMirror = record {
  shown_axes = refl;
  known_axes = refl;
  axes =
      AllBelow-at 6
        (λ k. get_or reset_state.axes k (pos 0) ≡ shown_axis k (get_or zero_state.axes k (pos 0)))
        (refl, (refl, (refl, (refl, (refl, (refl, tt))))));
  hat_x = refl;
  hat_y = refl;
  buttons = λ j h. test_bit-zero j ∙ sym (test_bit-zero (place j));
}

process_xi_event_mirrored_example :
    IsMirror
      (replay reset_state (sent_for stick_moved (pos 7) playing))
      (process_xi_event stick_moved (pos 7) playing).state
process_xi_event_mirrored_example =
    process_xi_event_mirrored reset_state stick_moved (pos 7) playing rest-IsMirror

-- The left stick to the left, a trigger half down, button 1, and the hat to the right.
abbrev in_use : GamepadState
in_use = record {
  axes = negsuc 29999 ∷ pos 0 ∷ pos 0 ∷ pos 0 ∷ pos 128 ∷ pos 0 ∷ [];
  buttons = 0x2001;
  hat_x = pos 1;
  hat_y = pos 0;
}

in_use-IsPad : IsPad in_use
unfolding hat_value test_bit
in_use-IsPad = record {
  axes_size = refl;
  axes_fit =
      AllBelow-at 6 (λ k. AxisFits k (get_or in_use.axes k (pos 0)))
        (
          omega arith,
          (omega arith, (omega arith, (omega arith, (omega arith, (omega arith, tt))))),
        );
  buttons_fit = omega arith;
  hat_x_agrees = refl;
  hat_y_agrees = refl;
}

snapshot_mirrored_example :
    IsMirror
      (replay reset_state (snapshot (record { state = in_use; events = []; world = calm })).events)
      in_use
snapshot_mirrored_example =
    snapshot_mirrored reset_state zero_state in_use calm rest-IsMirror in_use-IsPad

-- The bytes of both events, with an interrupted call in the middle.
abbrev pieces : List RecvAnswer
pieces = got key_bytes_1 ∷ recv_interrupted ∷ got key_bytes_2 ∷ got syn_bytes ∷ []

pieces-IsStream : IsStream 0 pieces
pieces-IsStream = (omega arith, (omega arith, (omega arith, tt)))

delivered-pieces : delivered pieces ≡ encode_events (sent_for south_pressed (pos 7) playing)
unfolding sent_for encode_events seal_report translate press_button test_bit button_code
    append_event encode_event le_bytes clock_gettime
delivered-pieces = refl

process_xi_event-delivered_example :
    let (fault, q) = event_loop pieces (between (reset_state, 0)) in
    (fault ≡ none)
    × (q.buffer ≡ [])
    × IsMirror q.state (process_xi_event south_pressed (pos 7) playing).state
process_xi_event-delivered_example =
    process_xi_event-delivered reset_state 0 south_pressed (pos 7) playing pieces (omega arith)
      pieces-IsStream delivered-pieces rest-IsMirror

length-sent_for_example : length (sent_for stick_moved (pos 7) playing) ≤ 7
length-sent_for_example = length-sent_for stick_moved (pos 7) playing
