-- ===== src/Examples/Loaded.antt =====
-- Two descriptors of src/evdev_preload.c with an effect each.
use termux_gamepad.Prelude.{
  ℕ, ◌≤◌, ◌<◌, ◌≡◌, refl, arith, true, false, List, [], ◌∷◌, ◌++◌, some, none, ℤ, pos, negsuc, ◌*◌,
  ◌-ℤ◌, replicate, All,
}
use termux_gamepad.Common.{fake_devnode, strlen}
use termux_gamepad.Gamepad.Net.{connected}
use termux_gamepad.Preload.Setup.{Environment}
use termux_gamepad.Preload.Fds.{FakeFd, find_fake_fd}
use termux_gamepad.Preload.Effects.{EffectSlot, empty_slot, effect_at}
use termux_gamepad.Preload.Calls.{Shim}
use termux_gamepad.Preload.Trace.{Call, opens, ioctls, closes, run_calls, touched}
use termux_gamepad.Preload.Isolation.{Avoids, run_calls_isolated}
use termux_gamepad.Preload.Joydev.{joy_axis_value}
use termux_gamepad.Preload.Axes.{joy_axis_value_trigger}
use termux_gamepad.Preload.Table.Kept.{IsTable, run_calls-IsTable}
use termux_gamepad.Examples.Samples.{shown_descriptor}

-- No variable is set.
abbrev pub plain : Environment
plain = record { backend = none; mode = none; socket = none }

abbrev pub served : ℤ → FakeFd
served fd = record {
  fd = fd;
  joydev = false;
  initializing = false;
  raw = [];
  descriptor = shown_descriptor;
}

abbrev buzz : ℤ → EffectSlot
buzz fd = record {
  used = true;
  fd = fd;
  low_frequency = 100;
  high_frequency = 50;
  duration_ms = 400;
}

abbrev pub two_games : Shim
two_games = record {
  fakes = served (pos 5) ∷ served (pos 6) ∷ [];
  effects = buzz (pos 5) ∷ buzz (pos 6) ∷ replicate 14 empty_slot;
  ff_gain = 0xffff;
  sends = 16 ∷ [];
  wire = [];
}

-- `struct tg_ff_effect` for a constant force of 9000 in slot 0, 100 ms long.
abbrev pub strong_effect : List ℕ
strong_effect =
    (0x52 ∷ 0 ∷ 0 ∷ 0 ∷ 0 ∷ 0 ∷ 0 ∷ 0 ∷ 0 ∷ 0 ∷ 100 ∷ 0 ∷ 0 ∷ 0 ∷ 0 ∷ 0 ∷ 0x28 ∷ 0x23 ∷ [])
    ++ replicate 30 0

-- The second game tries the first one's slot by EVIOCSFF, removes it by EVIOCRMFF, opens the device
-- once more, and ends.
abbrev meddling : List Call
meddling =
    ioctls plain (pos 6) 0x40304580 4096 strong_effect
    ∷ ioctls plain (pos 6) 0x40044581 0 []
    ∷ opens plain (some fake_devnode) 2048 (record { outcome = connected 9; reply = [] })
    ∷ closes (pos 6)
    ∷ []

meddling-Avoids : All (λ (c : Call). Avoids (pos 5) (touched c)) meddling
unfolding strlen
meddling-Avoids = ((refl, tt), ((refl, tt), ((refl, tt), ((refl, tt), tt))))

run_calls_isolated_example :
    effect_at (run_calls meddling two_games).effects 0 ≡ effect_at two_games.effects 0
run_calls_isolated_example =
    run_calls_isolated (pos 5) 0 meddling two_games refl refl meddling-Avoids

two_games-IsTable : IsTable two_games.fakes
two_games-IsTable = record {
  distinct = ((refl, tt), (tt, tt));
  bounded = omega arith;
  entries = ((refl, omega arith), ((refl, omega arith), tt));
}

run_calls-IsTable_example : IsTable (run_calls meddling two_games).fakes
run_calls-IsTable_example = run_calls-IsTable meddling two_games two_games-IsTable

pub found_5 : find_fake_fd (pos 5) two_games.fakes ≡ some (served (pos 5))
unfolding find_fake_fd
found_5 = refl

joy_axis_value_trigger_example :
    (255 < 255 → joy_axis_value 0x02 (pos 255) ≡ pos (255 * 257) -ℤ pos 32767)
    × (255 ≤ 255 → joy_axis_value 0x02 (pos 255) ≡ negsuc 32767)
joy_axis_value_trigger_example = joy_axis_value_trigger 0x02 255 refl
