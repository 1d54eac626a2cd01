-- ===== src/Bridge/Startup/Cleanup.antt =====
-- What `main` of src/lorie_evdev_bridge.c leaves behind when it ends, on every path through it.
use termux_gamepad.Prelude.{
  ℕ, Bool, true, false, not, ◌&&◌, List, [], ◌∷◌, Option, none, some, ◌==◌, ltb, if◌then◌else◌,
}
use termux_gamepad.Common.{strlen}
use termux_gamepad.Gamepad.Net.{sun_path_size}
use termux_gamepad.Bridge.Startup.{
  Act, display_opened, display_closed, socket_made, socket_closed, socket_listening, socket_bound,
  path_unlinked, fcntl_called, set_nonblocking, ServerAnswers, Launch, has_xinput2, socket_path,
}

-- What is held after some acts: the display, a socket, and the file that `bind` has made.
pub record Held : Type 0 where
  pub display : Bool
  pub socket : Option ℕ
  pub file : Bool

abbrev pub nothing_held : Held
nothing_held = record { display = false; socket = none; file = false }

abbrev pub if_holding : ℕ → Held → Held → Option Held
if_holding fd h after = elim h.socket [
  | none ↦ none
  | some held ↦ if held == fd then some after else none
]

-- `none` for an act on what is not held, or on what is held already.
abbrev pub after_act : Act → Held → Option Held
after_act display_opened h = if h.display then none else some (record h { display = true })
after_act display_closed h = if h.display then some (record h { display = false }) else none
after_act (socket_made fd) h = elim h.socket [
  | none ↦ some (record h { socket = some fd })
  | some held ↦ none
]
after_act (socket_closed fd) h = if_holding fd h (record h { socket = none })
after_act (socket_listening fd) h = if_holding fd h h
after_act (socket_bound fd path) h = if_holding fd h (record h { file = true })
after_act (path_unlinked path) h = some (record h { file = false })
after_act (fcntl_called fd command argument) h = if_holding fd h h

abbrev pub and_then : Option Held → (Held → Option Held) → Option Held
and_then none f = none
and_then (some h) f = f h

abbrev pub after_acts : List Act → Held → Option Held
after_acts [] h = some h
after_acts (act ∷ acts) h = and_then (after_act act h) (after_acts acts)

abbrev displayed : Option ℕ → Bool → Held
displayed socket file = record { display = true; socket = socket; file = file }

-- Whether the file of the socket is there when `create_server` is done.
abbrev pub makes_file : List ℕ → ServerAnswers → Bool
makes_file path a =
    ltb (strlen path) sun_path_size
    && elim a.socket [ none ↦ false | some fd ↦ (set_nonblocking fd a.fcntls).0 ]
    && a.bound

abbrev pub leaves_file : Launch → Bool
leaves_file l =
    l.display
    && has_xinput2 l
    && l.hierarchy
    && makes_file (socket_path l) l.server
    && not l.server.listening
