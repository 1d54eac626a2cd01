-- ===== src/Preload/Opening.antt =====
-- Opening the device nodes that src/evdev_preload.c stands in for: `tg_connect_device`,
-- `tg_open_common`, `openat`, `tg_fake_stat` and `stat`.
pub mod Served
use termux_gamepad.Prelude.{
  ℕ, Bool, true, false, not, ◌&&◌, List, [], ◌∷◌, Option, none, some, ℤ, pos, negsuc, ltb, ◌==◌,
  if◌then◌else◌, length, take, test_bit,
}
use termux_gamepad.Wire.{
  DeviceDescriptor, control_query_descriptor, decode_descriptor, device_descriptor_size,
}
use termux_gamepad.Common.{
  streq, strlen, socket_or_default, fake_devnode, fake_haptic_alias_node, fake_joydev_node,
}
use termux_gamepad.Gamepad.Net.{Outcome, no_socket, not_connected, connected, sun_path_size, enodev}
use termux_gamepad.Gamepad.Hotplug.{is_served}
use termux_gamepad.Preload.Fds.{FakeFd, add_fake_fd}
use termux_gamepad.Preload.Calls.{Shim, Answer, passed_on, answered, send_control, close}
use termux_gamepad.Preload.Setup.{Environment, backend_enabled}

-- How `socket` and `connect` go, and the bytes that `recv` with MSG_WAITALL gives (none on an
-- error). The request is sent as the next answer of `send` says.
pub record Attempt : Type 0 where
  pub outcome : Outcome
  pub reply : List ℕ

-- The descriptors that are handed to the C library's `close`, what errno is set to, and the calls
-- of `fcntl`.
pub record Opened : Type 0 where
  pub answer : Answer
  pub closed : List ℤ
  pub errno : Option ℕ
  pub fcntls : List (ℤ × ℕ × ℕ)
  pub shim : Shim

abbrev pub refused_open : List ℤ → Option ℕ → Shim → Opened
refused_open closed errno s = record {
  answer = answered (negsuc 0);
  closed = closed;
  errno = errno;
  fcntls = [];
  shim = s;
}

-- F_SETFL with O_NONBLOCK, where the flags have it, then F_SETFD with FD_CLOEXEC
abbrev pub open_fcntls : ℕ → ℤ → List (ℤ × ℕ × ℕ)
open_fcntls flags fd =
    let exec : List (ℤ × ℕ × ℕ) = (fd, 2, 1) ∷ [] in
    if test_bit flags 11 then (fd, 4, 2048) ∷ exec else exec

-- The socket is connected. The `close` is the one of this library.
unfoldable pub query_device : ℕ → Bool → ℤ → List ℕ → Shim → Opened
query_device flags joydev fd reply s =
    let (sent, s1) = send_control fd control_query_descriptor 0 0 0 s in
    let received = take device_descriptor_size reply in
    let d = decode_descriptor received in
    if sent && (length received == device_descriptor_size) && is_served d
    then record {
      answer = answered fd;
      closed = [];
      errno = none;
      fcntls = open_fcntls flags fd;
      shim = record s1 { fakes = add_fake_fd fd joydev d s1.fakes };
    }
    else refused_open (fd ∷ []) (some enodev) (close fd s1)

unfoldable pub connect_device : Environment → ℕ → Bool → Attempt → Shim → Opened
connect_device env flags joydev a s =
    if ltb (strlen (socket_or_default env.socket)) sun_path_size
    then elim a.outcome [
      | no_socket e ↦ refused_open [] none s
      | not_connected fd e ↦ refused_open (pos fd ∷ []) none (close (pos fd) s)
      | connected fd ↦ query_device flags joydev (pos fd) a.reply s
    ]
    else refused_open [] none s

-- Whether a path names one of the nodes, and if so, whether it is the joystick's.
unfoldable pub node_of : Option (List ℕ) → Option Bool
node_of path =
    if streq path (some fake_devnode)
    then some false
    else if streq path (some fake_haptic_alias_node)
    then some false
    else if streq path (some fake_joydev_node)
    then some true
    else none

abbrev pub open_elsewhere : Shim → Opened
open_elsewhere s = record { answer = passed_on; closed = []; errno = none; fcntls = []; shim = s }

-- `openat` and `__openat_2`
unfoldable pub openat : Environment → Option (List ℕ) → ℕ → Attempt → Shim → Opened
openat env path flags a s = elim (node_of path) [
  | none ↦ open_elsewhere s
  | some joydev ↦ connect_device env flags joydev a s
]

-- `open`, `open64` and `__open_2`; its log output is left out.
unfoldable pub open_common : Environment → Option (List ℕ) → ℕ → Attempt → Shim → Opened
open_common env path flags a s =
    if backend_enabled env
    then elim (node_of path) [
      | none ↦ open_elsewhere s
      | some joydev ↦ connect_device env flags joydev a s
    ]
    else open_elsewhere s

-- `struct tg_stat_layout`; the other fields are zero.
pub record Stat : Type 0 where
  pub st_dev : ℕ
  pub st_ino : ℕ
  pub st_mode : ℕ
  pub st_nlink : ℕ
  pub st_rdev : ℕ
  pub st_blksize : ℕ

-- S_IFCHR with rw-rw----, device 13:99
unfoldable pub fake_stat : Bool → Stat
fake_stat joydev = record {
  st_dev = 1;
  st_ino = if joydev then 199 else 99;
  st_mode = 8624;
  st_nlink = 1;
  st_rdev = 3427;
  st_blksize = 4096;
}

-- `stat` and `stat64`; `writable` is whether `output` is not NULL.
unfoldable pub stat : Option (List ℕ) → Bool → Answer × Option Stat
stat path writable = elim (node_of path) [
  | none ↦ (passed_on, none)
  | some joydev ↦
      if writable then (answered (pos 0), some (fake_stat joydev)) else (answered (negsuc 0), none)
]
