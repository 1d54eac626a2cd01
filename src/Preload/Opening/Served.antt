-- ===== src/Preload/Opening/Served.antt =====
-- What an `open` of a device node in src/evdev_preload.c leaves behind, on each outcome.
use termux_gamepad.Prelude.{
  ℕ, ◌≡◌, ◌⊎◌, inl, inr, refl, arith, ap, ◌∙◌, Bool, true, false, List, [], ◌∷◌, ◌++◌, Option, none,
  some, ℤ, pos, negsuc, eq_ℤ, ltb, length, length-take, leb, min, ◌==◌, ◌&&◌, not, take, if_cases,
  Bool-cases, if◌then◌else◌,
}
use termux_gamepad.Wire.{
  DeviceDescriptor, decode_descriptor, device_descriptor_size, control_query_descriptor,
}
use termux_gamepad.Common.{strlen, socket_or_default}
use termux_gamepad.Gamepad.Net.{Outcome, no_socket, not_connected, connected, sun_path_size, enodev}
use termux_gamepad.Preload.Fds.{FakeFd, find_fake_fd, add_fake_fd, del_fake_fd}
use termux_gamepad.Preload.Calls.{Shim, answered, send_control, close, next_send}
use termux_gamepad.Preload.Setup.{Environment}
use termux_gamepad.Preload.Opening.{
  Attempt, Opened, query_device, connect_device, node_of, openat, refused_open,
}

del_fake_fd_missing :
    (fd : ℤ) (fs : List FakeFd) → find_fake_fd fd fs ≡ none → del_fake_fd fd fs ≡ fs
unfolding find_fake_fd del_fake_fd
del_fake_fd_missing fd [] h = refl
del_fake_fd_missing fd (f ∷ fs) h = elim (Bool-cases (eq_ℤ f.fd fd)) [
  | inl e ↦ let found : some f ≡ none = rw e at h in cc
  | inr e ↦
      let missing : find_fake_fd fd fs ≡ none = rw e at h in
      rw e (ap (◌∷◌ f) (del_fake_fd_missing fd fs missing))
]

send_control_fakes :
    (fd : ℤ) (command low high ms : ℕ) (s : Shim)
    → (send_control fd command low high ms s).1.fakes ≡ s.fakes
unfolding send_control
send_control_fakes fd command low high ms s = refl

-- The `close` of this library on a descriptor that it does not serve changes nothing of its own.
close_missing : (fd : ℤ) (s : Shim) → find_fake_fd fd s.fakes ≡ none → (close fd s).fakes ≡ s.fakes
unfolding close
close_missing fd s h = rw (h, close) (del_fake_fd_missing fd s.fakes h)

-- Whether the socket's path fits its address.
abbrev pub fits : Environment → Bool
fits env = ltb (strlen (socket_or_default env.socket)) sun_path_size

-- The descriptors that an attempt opens.
abbrev pub opened : Bool → Outcome → List ℤ
opened false o = []
opened true (no_socket e) = []
opened true (not_connected fd e) = pos fd ∷ []
opened true (connected fd) = pos fd ∷ []

-- What errno is set to where the bridge is reached and gives no descriptor.
abbrev pub unserved_errno : Bool → Outcome → Option ℕ
unserved_errno true (connected fd) = some enodev
unserved_errno _ _ = none

-- The bridge is reached, takes the request whole, and sends a whole descriptor of this version for
-- a gamepad that is present.
abbrev pub is_offered : Bool → Outcome → List ℕ → List ℕ → Bool
is_offered true (connected fd) sends reply =
    let d = decode_descriptor (take 88 reply) in
    (next_send sends == 16)
    && leb 88 (length reply)
    && ((d.magic == 0x54474456) && (d.version == 3) && not (d.present == 0))
is_offered _ _ sends reply = false

-- None of the descriptors is served.
abbrev pub AreFresh : List ℤ → List FakeFd → Type 0
AreFresh [] fakes = Unit
AreFresh (fd ∷ fds) fakes = (find_fake_fd fd fakes ≡ none) × AreFresh fds fakes

-- No descriptor is lost: all that the attempt opened are closed, or the one is returned.
abbrev pub Refused : List ℤ → Option ℕ → Shim → Opened → Type 0
Refused fds errno s r =
    (r.answer ≡ answered (negsuc 0))
    × (r.closed ≡ fds)
    × (r.errno ≡ errno)
    × (r.shim.fakes ≡ s.fakes)

abbrev pub new_fake : ℤ → Bool → DeviceDescriptor → FakeFd
new_fake fd joydev d = record {
  fd = fd;
  joydev = joydev;
  initializing = joydev;
  raw = [];
  descriptor = d;
}

-- The table after a socket is served: the new entry stands behind the others, and a table that has
-- its 128 entries stays as it was.
abbrev pub table_with : FakeFd → List FakeFd → List FakeFd
table_with f fs = if ltb (length fs) 128 then fs ++ (f ∷ []) else fs

add_fake_fd-table_with :
    (n : ℕ) (joydev : Bool) (d : DeviceDescriptor) (fs : List FakeFd)
    → find_fake_fd (pos n) fs ≡ none
    → add_fake_fd (pos n) joydev d fs ≡ table_with (new_fake (pos n) joydev d) fs
unfolding add_fake_fd
add_fake_fd-table_with n joydev d fs fresh = elim (Bool-cases (ltb (length fs) 128)) [
  | inl room ↦ rw (fresh, room) refl
  | inr full ↦ rw (fresh, full) refl
]

abbrev pub Accepted : List ℤ → Bool → List ℕ → Shim → Opened → Type 0
Accepted fds joydev reply s r =
    (fd : ℤ) × (fds ≡ fd ∷ [])
    × (r.answer ≡ answered fd)
    × (r.closed ≡ [])
    × (r.shim.fakes
        ≡ table_with (new_fake fd joydev (decode_descriptor (take device_descriptor_size reply)))
            s.fakes)

-- Which of the two depends on what the bridge offers.
abbrev pub Settled : List ℤ → Option ℕ → Bool → Bool → List ℕ → Shim → Opened → Type 0
Settled fds errno offered joydev reply s r =
    ((offered ≡ false) × Refused fds errno s r) ⊎ ((offered ≡ true) × Accepted fds joydev reply s r)

capped : (n : ℕ) → (min 88 n == 88) ≡ leb 88 n
capped n = ground arith

whole_reply :
    (reply : List ℕ)
    → (length (take device_descriptor_size reply) == device_descriptor_size) ≡ leb 88 (length reply)
whole_reply reply = ap (λ (n : ℕ). n == 88) (length-take 88 reply) ∙ capped (length reply)

query_device-outcome :
    (flags : ℕ) (joydev : Bool) (n : ℕ) (reply : List ℕ) (s : Shim)
    → find_fake_fd (pos n) s.fakes ≡ none
    → let fd = pos n in
      Settled
        (fd ∷ [])
        (some enodev)
        (is_offered true (connected n) s.sends reply)
        joydev
        reply
        s
        (query_device flags joydev fd reply s)
unfolding query_device send_control
query_device-outcome flags joydev n reply s fresh =
    let fd = pos n in
    let s1 = (send_control fd control_query_descriptor 0 0 0 s).1 in
    let same : s1.fakes ≡ s.fakes = send_control_fakes fd control_query_descriptor 0 0 0 s in
    let offered = is_offered true (connected n) s.sends reply in
    if_cases (Settled (fd ∷ []) (some enodev) offered joydev reply s) _ _ _
      (λ e. inr (
        rw (whole_reply reply) at e,
        (
          fd,
          refl,
          refl,
          refl,
          ap (add_fake_fd fd joydev _) same ∙ add_fake_fd-table_with n joydev _ s.fakes fresh,
        ),
      ))
      (λ e. inl (
        rw (whole_reply reply) at e,
        (refl, refl, refl, close_missing fd s1 (rw same fresh) ∙ same),
      ))

connect_device-outcome :
    (env : Environment) (flags : ℕ) (joydev : Bool) (o : Outcome) (reply : List ℕ) (s : Shim)
    → AreFresh (opened (fits env) o) s.fakes
    → Settled
        (opened (fits env) o)
        (unserved_errno (fits env) o)
        (is_offered (fits env) o s.sends reply)
        joydev
        reply
        s
        (connect_device env flags joydev (record { outcome = o; reply = reply }) s)
unfolding connect_device
connect_device-outcome env flags joydev o reply s fresh = elim (Bool-cases (fits env)) [
  | inr long ↦ rw long (inl (refl, (refl, refl, refl, refl)))
  | inl short ↦ rw short (settle o (rw short at fresh))
]
  where
    settle :
        (o' : Outcome)
        → AreFresh (opened true o') s.fakes
        → Settled
            (opened true o')
            (unserved_errno true o')
            (is_offered true o' s.sends reply)
            joydev
            reply
            s
            (elim o' [
              | no_socket e ↦ refused_open [] none s
              | not_connected fd e ↦ refused_open (pos fd ∷ []) none (close (pos fd) s)
              | connected fd ↦ query_device flags joydev (pos fd) reply s
            ])
    settle (no_socket e) h = inl (refl, (refl, refl, refl, refl))
    settle (not_connected fd e) h = inl (refl, (refl, refl, refl, close_missing (pos fd) s h.0))
    settle (connected fd) h = query_device-outcome flags joydev fd reply s h.0

-- An `openat` of a device node settles what it opened. If the bridge is reached, takes the request
-- whole and sends a whole descriptor of this version for a gamepad that is present, then it returns
-- the socket that it connected and closes nothing, and the table has one more entry, for that
-- socket, with the descriptor that the bridge sent, unless it has its 128 entries already: then it
-- stays as it was, though the socket is returned. Otherwise it returns -1, every descriptor that it
-- opened is closed again, errno is ENODEV if the bridge was reached, and the table of served
-- descriptors is as it was. What the system opens is not in the table yet.
pub openat-Settled :
    (env : Environment) (path : Option (List ℕ)) (flags : ℕ) (joydev : Bool) (a : Attempt)
    (s : Shim)
    → node_of path ≡ some joydev
    → AreFresh (opened (fits env) a.outcome) s.fakes
    → Settled
        (opened (fits env) a.outcome)
        (unserved_errno (fits env) a.outcome)
        (is_offered (fits env) a.outcome s.sends a.reply)
        joydev
        a.reply
        s
        (openat env path flags a s)
unfolding openat
openat-Settled env path flags joydev a s node fresh =
    rw (node, openat) (connect_device-outcome env flags joydev a.outcome a.reply s fresh)
