-- ===== src/Examples/Turns.antt =====
-- The bridge from its start to its end, and a gamepad that comes, as both sides see it.
use termux_gamepad.Prelude.{
  le_bytes, ℕ, ◌+◌, ◌≡◌, refl, arith, true, List, [], ◌∷◌, some, pos, is_nonneg, map, take, drop,
  replicate,
}
use termux_gamepad.Wire.{encode_hotplug}
use termux_gamepad.Wire.RoundTrip.{IsHotplug}
use termux_gamepad.Bridge.State.{Bridge, free_client, monitor}
use termux_gamepad.Bridge.Server.{main, start}
use termux_gamepad.Bridge.Startup.{ServerAnswers, Launch}
use termux_gamepad.Bridge.Descriptors.{copies}
use termux_gamepad.Bridge.Descriptors.Ended.{accepted_over, main_closes}
use termux_gamepad.Mirror.Plugged.{announcement, news}
use termux_gamepad.Gamepad.Net.{got}
use termux_gamepad.Gamepad.State.{Gamepad}
use termux_gamepad.Gamepad.Api.{fresh}
use termux_gamepad.Gamepad.Hotplug.{refresh}
use termux_gamepad.Gamepad.Plugging.{Shows, refresh-Shows}
use termux_gamepad.Examples.Nodes.{shown_descriptor-IsDescriptor}
use termux_gamepad.Examples.Samples.{calm, gamepad_device, polls, arrival, shown_descriptor}

-- The client that `polls` lets in has descriptor 5.
main_closes_example :
    copies 5 (main (pos 140) (some (gamepad_device ∷ [])) true polls calm).world.closed
    ≡ copies 5 (accepted_over polls) + copies 5 calm.closed
main_closes_example = main_closes 5 (pos 140) (some (gamepad_device ∷ [])) true polls calm

-- It is accepted once.
accepted_once : copies 5 (accepted_over polls) ≡ 1
accepted_once = refl

abbrev serving : ServerAnswers
serving = record {
  socket = some 3;
  fcntls = record { flags = pos 2; flags_set = true; fd_flags = pos 0 };
  bound = true;
  listening = true;
}

abbrev launch : Launch
launch = record {
  path = some (0x2f ∷ 0x74 ∷ []);
  display = true;
  xinput = true;
  xi_major = some 2;
  controller = true;
  opcode = pos 140;
  version = some (1 ∷ 0 ∷ 1 ∷ 0 ∷ 0 ∷ 0 ∷ 0 ∷ 0 ∷ 1 ∷ 0 ∷ 2 ∷ replicate 21 0);
  hierarchy = true;
  devices = some (gamepad_device ∷ []);
  selected = true;
  server = serving;
  polls = polls;
}

-- A bridge with a client that monitors and no gamepad.
abbrev watched : Bridge
watched =
    let b = start (pos 140) calm in
    record b {
      clients = record free_client { fd = pos 5; kind = monitor } ∷ replicate 15 free_client;
    }

abbrev told : List ℕ
told =
    announcement (news (some (gamepad_device ∷ [])) watched).0
      (news (some (gamepad_device ∷ [])) watched).1

-- A handle whose monitor is connected.
abbrev watching : Gamepad
watching = record (fresh [] []) { monitor_fd = pos 4 }

arrival-IsHotplug : IsHotplug arrival
arrival-IsHotplug = record {
  magic_fits = omega arith;
  version_fits = omega arith;
  action_fits = omega arith;
  descriptor_fits = shown_descriptor-IsDescriptor;
}

abbrev arriving : List (List ℕ)
arriving = take 10 (encode_hotplug arrival) ∷ drop 10 (encode_hotplug arrival) ∷ []

refresh-Shows_example :
    let (status, g') = refresh (map got arriving) watching in
    (is_nonneg status ≡ true) × (g'.monitor_buffer ≡ []) × Shows shown_descriptor g'
unfolding encode_hotplug le_bytes
refresh-Shows_example =
    refresh-Shows arrival arriving watching refl refl arrival-IsHotplug refl
      (omega arith, (omega arith, tt)) refl
