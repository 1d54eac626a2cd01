-- ===== src/Examples/Serving.antt =====
-- The bridge of src/lorie_evdev_bridge.c with one client and one gamepad.
use termux_gamepad.Prelude.{
  ℕ, ◌+◌, ◌<◌, ◌≡◌, refl, arith, true, List, [], ◌∷◌, ◌++◌, some, pos, All, replicate, map, max,
  min, test_bit, read_le, to_unsigned, u16_mod, zero, suc,
}
use termux_gamepad.Wire.{control_message_size, decode_control}
use termux_gamepad.Bridge.State.{max_clients, XRequest, free_client}
use termux_gamepad.Bridge.Os.{monotonic_ms, clock_gettime}
use termux_gamepad.Bridge.Rumble.{
  update_rumble, uint32_max, apply_mix, mix_clients, mix_client, send_lorie_rumble,
}
use termux_gamepad.Bridge.Rumble.Motors.{IsPlayable, expire, longest_left, update_rumble_duration}
use termux_gamepad.Bridge.Control.{
  receive_control_messages, receive_answer, recv, control_loop, take_message, handle_message,
  stop_rumble,
}
use termux_gamepad.Bridge.Control.Pending.{pending}
use termux_gamepad.Bridge.Control.Drain.{receive_control_messages_drains}
use termux_gamepad.Bridge.Queue.Links.{link, link_at}
use termux_gamepad.Bridge.Server.Shutdown.{main_ends}
use termux_gamepad.Bridge.Server.{main, run, first_search, start}
use termux_gamepad.Bridge.Invariant.{
  IsSlot, IsTable, IsServing, free_client-IsSlot, loudest_low, loudest_high,
}
use termux_gamepad.Bridge.Invariant.Run.{run_from_start-IsServing}
use termux_gamepad.Bridge.Invariant.Attached.{Attached}
use termux_gamepad.Bridge.Invariant.Attachment.{run_from_start-Attached}
use termux_gamepad.Examples.Samples.{calm, gamepad_device, polls, playing, hearing}

run_from_start-IsServing_example :
    IsServing (run polls (first_search (some (gamepad_device ∷ [])) true (start (pos 140) calm)))
run_from_start-IsServing_example =
    run_from_start-IsServing (pos 140) (some (gamepad_device ∷ [])) true polls calm

run_from_start-Attached_example :
    Attached (run polls (first_search (some (gamepad_device ∷ [])) true (start (pos 140) calm)))
run_from_start-Attached_example =
    run_from_start-Attached (pos 140) (some (gamepad_device ∷ [])) true polls calm

free_slots : (n : ℕ) → All IsSlot (replicate n free_client)
free_slots zero = tt
free_slots (suc n) = (free_client-IsSlot, free_slots n)

playing-IsTable : IsTable playing
playing-IsTable = record {
  size = refl;
  slots = (
    record { output_fits = omega arith; control_fits = omega arith; free_silent = λ e. cc },
    free_slots 15,
  );
  display_open = refl;
}

playing-IsPlayable : IsPlayable playing
unfolding test_bit
playing-IsPlayable = record { display = refl; extension = refl; device = refl; motors = refl }

still_loud :
    let kept = map (expire (monotonic_ms playing.world).0) playing.clients in
    0 < loudest_low kept + loudest_high kept
unfolding monotonic_ms clock_gettime
still_loud = omega arith

update_rumble_duration_example :
    let now = (monotonic_ms playing.world).0 in
    let kept = map (expire now) playing.clients in
    (update_rumble true playing).world.requests
    ≡ playing.world.requests
      ++ XRequest.rumble
          (to_unsigned u16_mod (pos 7))
          (loudest_low kept)
          (loudest_high kept)
          (max 1 (min uint32_max (longest_left now playing.clients)))
        ∷ []
update_rumble_duration_example =
    update_rumble_duration playing playing-IsTable playing-IsPlayable still_loud

-- A message that ends the effect, and the beginning of another.
abbrev stop_bytes : List ℕ
stop_bytes =
    0x46 ∷ 0x45 ∷ 0x47 ∷ 0x54 ∷ 3 ∷ 0 ∷ 2 ∷ 0 ∷ 0 ∷ 0 ∷ 0 ∷ 0 ∷ 0 ∷ 0 ∷ 0 ∷ 0 ∷ 0x46 ∷ 0x45 ∷ []

stop_heard : (receive_control_messages 0 (hearing stop_bytes)).0 ≡ true
unfolding receive_control_messages receive_answer recv control_loop take_message decode_control
    read_le handle_message stop_rumble update_rumble apply_mix mix_clients mix_client
    send_lorie_rumble test_bit
stop_heard = refl

receive_control_messages_drains_example :
    pending 0 (receive_control_messages 0 (hearing stop_bytes)).1 < control_message_size
receive_control_messages_drains_example =
    receive_control_messages_drains 0 (hearing stop_bytes) (omega arith) stop_heard

main_ends_example :
    let b = main (pos 140) (some (gamepad_device ∷ [])) true polls calm in
    ((i : ℕ) → i < max_clients → link_at b i ≡ link free_client)
    × (b.active_rumble_low ≡ 0)
    × (b.active_rumble_high ≡ 0)
main_ends_example = main_ends (pos 140) (some (gamepad_device ∷ [])) true polls calm
