-- ===== src/Bridge/Startup.antt =====
-- How src/lorie_evdev_bridge.c starts and ends: `set_nonblocking`, `handle_x_error`,
-- `create_server` and all of `main`. Messages on stderr are left out.
pub mod Cleanup
use termux_gamepad.Prelude.{
  ℕ, Bool, true, false, not, ◌&&◌, ◌||◌, List, [], ◌∷◌, ◌++◌, Option, none, some, ℤ, pos, negsuc,
  ltb, ◌==◌, eq_ℤ, is_nonneg, pos_part, if◌then◌else◌, set_bit,
}
use termux_gamepad.Common.{default_socket, strlen}
use termux_gamepad.Gamepad.Net.{sun_path_size}
use termux_gamepad.Bridge.State.{Bridge, World}
use termux_gamepad.Bridge.Device.{XiDevice}
use termux_gamepad.Bridge.Protocol.{query_lorie_version}
use termux_gamepad.Bridge.Server.{PollResult, main}

-- What the program asks of the system and the X library outside its loop, oldest first.
pub data Act : Type 0 where
  display_opened display_closed : Act
  socket_made socket_closed socket_listening : ℕ → Act
  socket_bound : ℕ → List ℕ → Act
  path_unlinked : List ℕ → Act
  fcntl_called : ℕ → ℕ → ℕ → Act

-- What `fcntl` gives for F_GETFL, F_SETFL and F_GETFD.
pub record FcntlAnswers : Type 0 where
  pub flags : ℤ
  pub flags_set : Bool
  pub fd_flags : ℤ

-- `false` for the status -1. F_GETFL, F_SETFL with O_NONBLOCK, F_GETFD, F_SETFD with FD_CLOEXEC
unfoldable pub set_nonblocking : ℕ → FcntlAnswers → Bool × List Act
set_nonblocking fd a =
    let asked : List Act = fcntl_called fd 3 0 ∷ [] in
    let set = asked ++ (fcntl_called fd 4 (set_bit (pos_part a.flags) 11) ∷ []) in
    let asked_again = set ++ (fcntl_called fd 1 0 ∷ []) in
    if not (is_nonneg a.flags)
    then (false, asked)
    else if not a.flags_set
    then (false, set)
    else if is_nonneg a.fd_flags
    then (true, asked_again ++ (fcntl_called fd 2 (set_bit (pos_part a.fd_flags) 0) ∷ []))
    else (true, asked_again)

-- What `socket` gives (`none`: an error), `fcntl`, and whether `bind` and `listen` succeed.
pub record ServerAnswers : Type 0 where
  pub socket : Option ℕ
  pub fcntls : FcntlAnswers
  pub bound : Bool
  pub listening : Bool

-- The end of `create_server`: `bind`, then `listen`.
unfoldable pub publish_server : List ℕ → ServerAnswers → ℕ → Option ℕ × List Act
publish_server path a fd =
    let opened : List Act = socket_bound fd path ∷ [] in
    if not a.bound
    then (none, socket_closed fd ∷ [])
    else if not a.listening
    then (none, opened ++ (socket_closed fd ∷ []))
    else (some fd, opened ++ (socket_listening fd ∷ []))

-- `none` for the status -1.
unfoldable pub create_server : List ℕ → ServerAnswers → Option ℕ × List Act
create_server path a = if not (ltb (strlen path) sun_path_size) then (none, []) else elim a.socket [
  | none ↦ (none, [])
  | some fd ↦
      let (usable, calls) = set_nonblocking fd a.fcntls in
      let (server, acts) = publish_server path a fd in
      let before = socket_made fd ∷ calls in
      if usable
      then (server, before ++ (path_unlinked path ∷ acts))
      else (none, before ++ (socket_closed fd ∷ []))
]

-- `previous` is what the handler before gives, where there is one.
unfoldable pub handle_x_error : ℤ → ℕ → Option ℤ → ℤ
handle_x_error opcode request_code previous =
    if eq_ℤ (pos request_code) opcode
    then pos 0
    else elim previous [ none ↦ pos 0 | some status ↦ status ]

-- What `main` meets. `xi_major` is `none` for BadRequest; `opcode` is what XQueryExtension leaves
-- in the global, whether the extension is there or not; `version` is the reply to the query for it.
pub record Launch : Type 0 where
  pub path : Option (List ℕ)
  pub display : Bool
  pub xinput : Bool
  pub xi_major : Option ℕ
  pub controller : Bool
  pub opcode : ℤ
  pub version : Option (List ℕ)
  pub hierarchy : Bool
  pub devices : Option (List XiDevice)
  pub selected : Bool
  pub server : ServerAnswers
  pub polls : List PollResult

abbrev pub has_xinput2 : Launch → Bool
has_xinput2 l = l.xinput && elim l.xi_major [ none ↦ false | some major ↦ not (ltb major 2) ]

abbrev pub controller_opcode : Launch → ℤ
controller_opcode l =
    if l.controller && not (query_lorie_version l.version) then negsuc 0 else l.opcode

abbrev pub socket_path : Launch → List ℕ
socket_path l = elim l.path [ none ↦ default_socket | some path ↦ path ]

-- `bridge` is the globals at the end, where the loop is reached.
pub record Exit : Type 0 where
  pub status : ℕ
  pub acts : List Act
  pub bridge : Option Bridge

abbrev pub failed_with : List Act → Exit
failed_with acts = record { status = 1; acts = acts; bridge = none }

abbrev pub with_server : Launch → World → Option ℕ × List Act → Exit
with_server l w (none, acts) = failed_with (display_opened ∷ (acts ++ (display_closed ∷ [])))
with_server l w (some fd, acts) = record {
  status = 0;
  acts =
      display_opened
      ∷ (acts ++ (socket_closed fd ∷ path_unlinked (socket_path l) ∷ display_closed ∷ []));
  bridge = some (main (controller_opcode l) l.devices l.selected l.polls w);
}

unfoldable pub program : Launch → World → Exit
program l w =
    if not l.display
    then failed_with []
    else if not (has_xinput2 l) || not l.hierarchy
    then failed_with (display_opened ∷ display_closed ∷ [])
    else with_server l w (create_server (socket_path l) l.server)
