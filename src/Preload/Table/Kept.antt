-- ===== src/Preload/Table/Kept.antt =====
-- The table of src/evdev_preload.c through whole sequences of calls.
use termux_gamepad.Prelude.{
  ℕ, ◌-◌, ◌/◌, ltb, ◌≤◌, ◌<◌, ◌≡◌, refl, ◌∙◌, arith, Bool, true, not, ◌&&◌, ◌||◌, List, [], ◌∷◌,
  ◌++◌, Option, none, some, ℤ, pos, is_nonneg, ◌==◌, leb, length, length-append, length-take, take,
  All, if_cases, Option-cases, inl, inr,
}
use termux_gamepad.Wire.{
  DeviceDescriptor, input_event_size, decode_descriptor, device_descriptor_size,
  control_query_descriptor,
}
use termux_gamepad.Gamepad.Hotplug.{is_served}
use termux_gamepad.Gamepad.Net.{Outcome, no_socket, not_connected, connected}
use termux_gamepad.Preload.Fds.{FakeFd, max_fake_fds, find_fake_fd, add_fake_fd, del_fake_fd}
use termux_gamepad.Preload.Effects.{EffectSlot}
use termux_gamepad.Preload.Calls.{Shim, send_control, close}
use termux_gamepad.Preload.Joydev.{
  ReadAnswer, got, failed, JoyRead, joy_bytes, joy_loop, joy_read, JsEvent,
}
use termux_gamepad.Preload.Opening.{
  Attempt, Opened, query_device, connect_device, node_of, openat, open_common,
}
use termux_gamepad.Preload.Opening.Served.{fits}
use termux_gamepad.Preload.Reading.{read, replace_fake}
use termux_gamepad.Preload.Reports.{request_nr, request_size}
use termux_gamepad.Preload.Requests.{Reply, ioctl, ioctl_on, upload_reply, remove_reply}
use termux_gamepad.Preload.Setup.{Environment, backend_enabled}
use termux_gamepad.Preload.Table.{IsDistinct, del_fake_fd-IsDistinct}
use termux_gamepad.Preload.Table.Changes.{
  del_fake_fd-All, append-All, replace_fake-All, find_fake_fd-All, length-del_fake_fd,
  length-replace_fake, replace_fake-IsDistinct, add_fake_fd_cases, add_fake_fd-IsDistinct,
}
use termux_gamepad.Preload.Writing.{write-keeps}
use termux_gamepad.Preload.Trace.{
  Call, opens, opens_at, ioctls, reads, writes, closes, run_call, run_calls,
}

-- An entry is for a descriptor, and its buffer has room.
abbrev pub IsEntry : FakeFd → Type 0
IsEntry f = (is_nonneg f.fd ≡ true) × (length f.raw < input_event_size)

pub record IsTable (fs : List FakeFd) : Type 0 where
  pub distinct : IsDistinct fs
  pub bounded : length fs ≤ max_fake_fds
  pub entries : All IsEntry fs

add_fake_fd-IsTable :
    (fd : ℤ) (joydev : Bool) (d : DeviceDescriptor) (fs : List FakeFd)
    → IsTable fs
    → IsTable (add_fake_fd fd joydev d fs)
add_fake_fd-IsTable fd joydev d fs v = record {
  distinct = add_fake_fd-IsDistinct fd joydev d fs v.distinct;
  bounded =
      add_fake_fd_cases (λ (l : List FakeFd). length l ≤ max_fake_fds) fd joydev d fs v.bounded
        (λ _ _ room. omega (arith, room, length-append fs (_ ∷ [])));
  entries =
      add_fake_fd_cases (All IsEntry) fd joydev d fs v.entries
        (λ nonneg _ _. append-All IsEntry fs _ v.entries (nonneg, omega arith));
}

del_fake_fd-IsTable : (fd : ℤ) (fs : List FakeFd) → IsTable fs → IsTable (del_fake_fd fd fs)
del_fake_fd-IsTable fd fs v = record {
  distinct = (del_fake_fd-IsDistinct fd fs v.distinct).0;
  bounded = omega (arith, length-del_fake_fd fd fs, v.bounded);
  entries = del_fake_fd-All IsEntry fd fs v.entries;
}

replace_fake-IsTable :
    (fd : ℤ) (f' : FakeFd) (fs : List FakeFd)
    → f'.fd ≡ fd
    → IsEntry f'
    → IsTable fs
    → IsTable (replace_fake fd f' fs)
replace_fake-IsTable fd f' fs e entry v = record {
  distinct = replace_fake-IsDistinct fd f' fs e v.distinct;
  bounded = omega (arith, length-replace_fake fd f' fs, v.bounded);
  entries = replace_fake-All IsEntry fd f' fs v.entries entry;
}

abbrev HasRoom : JoyRead → Type 0
HasRoom q = length q.raw < input_event_size

joy_bytes-HasRoom : (bytes : List ℕ) (q : JoyRead) → HasRoom q → HasRoom (joy_bytes bytes q)
unfolding joy_bytes
joy_bytes-HasRoom bytes q h =
    let raw = q.raw ++ take (input_event_size - length q.raw) bytes in
    let joined = length-append q.raw (take (input_event_size - length q.raw) bytes) in
    let taken = length-take (input_event_size - length q.raw) bytes in
    if_cases HasRoom (length raw == input_event_size) _ _ (λ _. omega arith)
      (λ short. ground (arith, joined, taken))

joy_loop-HasRoom :
    (capacity : ℕ) (answers : List ReadAnswer) (q : JoyRead)
    → HasRoom q
    → HasRoom (joy_loop capacity answers q).1
unfolding joy_loop
joy_loop-HasRoom capacity [] q h = h
joy_loop-HasRoom capacity (got [] ∷ rest) q h = h
joy_loop-HasRoom capacity (failed ∷ rest) q h = h
joy_loop-HasRoom capacity (got (x ∷ bytes) ∷ rest) q h =
    if_cases (λ (r : ℤ × JoyRead). HasRoom r.1) (length q.events == capacity) _ _ (λ _. h)
      (λ _.
        joy_loop-HasRoom capacity rest (joy_bytes (x ∷ bytes) q)
          (joy_bytes-HasRoom (x ∷ bytes) q h))

abbrev Entered : FakeFd → ℤ × FakeFd × List JsEvent → Type 0
Entered f r = IsEntry r.1 × (r.1.fd ≡ f.fd)

joy_read-Entered :
    (given : Bool) (size : ℕ) (answers : List ReadAnswer) (f : FakeFd)
    → IsEntry f
    → Entered f (joy_read given size answers f)
unfolding joy_read
joy_read-Entered given size answers f v =
    let start : JoyRead = record { initializing = f.initializing; raw = f.raw; events = [] } in
    if_cases (Entered f) (not given || ltb size 8) _ _ (λ _. (v, refl))
      (λ _. ((v.0, joy_loop-HasRoom (size / 8) answers start v.1), refl))

-- The table of the globals.
abbrev pub Keeps : Shim → Type 0
Keeps s = IsTable s.fakes

abbrev ReplyKeeps : Reply → Type 0
ReplyKeeps r = Keeps r.2

abbrev OpenKeeps : Opened → Type 0
OpenKeeps r = Keeps r.shim

close-Keeps : (fd : ℤ) (s : Shim) → Keeps s → Keeps (close fd s)
unfolding close send_control
close-Keeps fd s v = elim (Option-cases (find_fake_fd fd s.fakes)) [
  | inl missing ↦ rw (missing, close) (del_fake_fd-IsTable fd s.fakes v)
  | inr (f, found) ↦
      rw (found, close)
        (if_cases Keeps f.joydev _ _ (λ _. del_fake_fd-IsTable fd s.fakes v)
          (λ _. del_fake_fd-IsTable fd s.fakes v))
]

read-Keeps :
    (env : Environment) (fd : ℤ) (given : Bool) (size : ℕ) (answers : List ReadAnswer) (s : Shim)
    → Keeps s
    → ReplyKeeps (read env fd given size answers s)
unfolding read
read-Keeps env fd given size answers s v = elim (Option-cases (find_fake_fd fd s.fakes)) [
  | inl missing ↦ rw (missing, read) v
  | inr (f, found) ↦
      let (entry, same) = find_fake_fd-All IsEntry fd s.fakes f found v.entries in
      let (entry', kept) = joy_read-Entered given size answers f entry in
      rw (found, read)
        (if_cases ReplyKeeps f.joydev _ _
          (λ _.
            replace_fake-IsTable fd (joy_read given size answers f).1 s.fakes (kept ∙ same) entry'
              v)
          (λ _. v))
]

upload_reply-Keeps :
    (o : Option (ℕ × List EffectSlot)) (mem : List ℕ) (s : Shim)
    → Keeps s
    → ReplyKeeps (upload_reply o mem s)
upload_reply-Keeps none mem s v = v
upload_reply-Keeps (some r) mem s v = v

remove_reply-Keeps :
    (o : Option (List EffectSlot)) (mem : List ℕ) (s : Shim)
    → Keeps s
    → ReplyKeeps (remove_reply o mem s)
remove_reply-Keeps none mem s v = v
remove_reply-Keeps (some slots) mem s v = v

ioctl-Keeps :
    (env : Environment) (fd : ℤ) (req arg : ℕ) (mem : List ℕ) (s : Shim)
    → Keeps s
    → Keeps (ioctl env fd req arg mem s).2
unfolding ioctl ioctl_on
ioctl-Keeps env fd req arg mem s v = elim (Option-cases (find_fake_fd fd s.fakes)) [
  | inl missing ↦ rw (missing, ioctl) v
  | inr (f, found) ↦
      let nr = request_nr req in
      let size = request_size req in
      rw (found, ioctl)
        (if_cases ReplyKeeps f.joydev _ _ (λ _. v)
          λ _.
            if_cases ReplyKeeps ((nr == 0x80) && not (arg == 0) && leb 48 size) _ _
              (λ _. upload_reply-Keeps _ mem s v)
              λ _.
                if_cases ReplyKeeps ((nr == 0x81) && leb 4 size) _ _
                  (λ _. remove_reply-Keeps _ mem s v) (λ _. v))
]

query_device-Keeps :
    (flags : ℕ) (joydev : Bool) (fd : ℤ) (reply : List ℕ) (s : Shim)
    → Keeps s
    → OpenKeeps (query_device flags joydev fd reply s)
unfolding query_device send_control
query_device-Keeps flags joydev fd reply s v =
    let received = take device_descriptor_size reply in
    let (sent, s1) = send_control fd control_query_descriptor 0 0 0 s in
    if_cases OpenKeeps
      (sent
        && (length received == device_descriptor_size)
        && is_served (decode_descriptor received))
      _ _ (λ _. add_fake_fd-IsTable fd joydev _ s.fakes v) (λ _. close-Keeps fd s1 v)

connect_device-Keeps :
    (env : Environment) (flags : ℕ) (joydev : Bool) (o : Outcome) (reply : List ℕ) (s : Shim)
    → Keeps s
    → OpenKeeps (connect_device env flags joydev (record { outcome = o; reply = reply }) s)
unfolding connect_device
connect_device-Keeps env flags joydev (no_socket e) reply s v =
    if_cases OpenKeeps (fits env) _ _ (λ _. v) (λ _. v)
connect_device-Keeps env flags joydev (not_connected fd e) reply s v =
    if_cases OpenKeeps (fits env) _ _ (λ _. close-Keeps (pos fd) s v) (λ _. v)
connect_device-Keeps env flags joydev (connected fd) reply s v =
    if_cases OpenKeeps (fits env) _ _ (λ _. query_device-Keeps flags joydev (pos fd) reply s v)
      (λ _. v)

openat-Keeps :
    (env : Environment) (path : Option (List ℕ)) (flags : ℕ) (a : Attempt) (s : Shim)
    → Keeps s
    → OpenKeeps (openat env path flags a s)
unfolding openat
openat-Keeps env path flags a s v = elim (Option-cases (node_of path)) [
  | inl elsewhere ↦ rw (elsewhere, openat) v
  | inr (joydev, node) ↦
      rw (node, openat) (connect_device-Keeps env flags joydev a.outcome a.reply s v)
]

open_common-Keeps :
    (env : Environment) (path : Option (List ℕ)) (flags : ℕ) (a : Attempt) (s : Shim)
    → Keeps s
    → OpenKeeps (open_common env path flags a s)
unfolding open_common openat
open_common-Keeps env path flags a s v =
    if_cases OpenKeeps (backend_enabled env) _ _ (λ _. openat-Keeps env path flags a s v) (λ _. v)

run_call-Keeps : (c : Call) (s : Shim) → Keeps s → Keeps (run_call c s)
unfolding run_call send_control
run_call-Keeps (opens env path flags a) s v = open_common-Keeps env path flags a s v
run_call-Keeps (opens_at env path flags a) s v = openat-Keeps env path flags a s v
run_call-Keeps (ioctls env fd req arg mem) s v = ioctl-Keeps env fd req arg mem s v
run_call-Keeps (reads env fd given size answers) s v = read-Keeps env fd given size answers s v
run_call-Keeps (writes fd buffer) s v =
    write-keeps Keeps (λ fd' command low high ms t h. h) (λ gain t h. h) fd buffer s v
run_call-Keeps (closes fd) s v = close-Keeps fd s v

-- Through any sequence of the calls that the preload stands in for, whatever the system and the
-- bridge answer, the table keeps to its 128 entries, has each descriptor once and none that is
-- negative, and no entry's buffer holds a whole event, so the next read has room.
pub run_calls-IsTable :
    (calls : List Call) (s : Shim) → IsTable s.fakes → IsTable (run_calls calls s).fakes
unfolding run_calls
run_calls-IsTable [] s v = v
run_calls-IsTable (c ∷ cs) s v = run_calls-IsTable cs (run_call c s) (run_call-Keeps c s v)
