-- ===== src/Udev/Asking.antt =====
-- What src/libudev_fake.c leaves behind when it asks the bridge.
use termux_gamepad.Prelude.{
  ℕ, ◌≡◌, ◌⊎◌, inl, inr, refl, ap, ◌∙◌, sym, true, false, ◌&&◌, List, [], ◌∷◌, ◌++◌, ℤ, pos, negsuc,
  ◌==◌, length, take, take-append_exact, append-nil, if_cases, Bool-cases, is_nonneg,
}
use termux_gamepad.Wire.{
  DeviceDescriptor, encode_descriptor, control_query_descriptor, control_message_size,
  device_descriptor_size, decode_descriptor,
}
use termux_gamepad.Wire.RoundTrip.{
  IsDescriptor, length-encode_descriptor, decode_descriptor-encode_descriptor,
}
use termux_gamepad.Gamepad.Net.{Outcome, no_socket, not_connected, connected}
use termux_gamepad.Preload.Setup.{Environment}
use termux_gamepad.Preload.Opening.Served.{fits, opened}
use termux_gamepad.Udev.{
  Udev, Contact, udev_backend_enabled, connect_bridge, refresh_descriptor, update_descriptor,
  status_of, is_known, log_closed, send_request,
}

-- A descriptor that is returned is still open, and all others are closed.
abbrev Settles : List ℤ → Udev → ℤ × Udev → Type 0
Settles fds u r =
    ((is_nonneg r.0 ≡ false) × (r.1.closed ≡ u.closed ++ fds))
    ⊎ ((is_nonneg r.0 ≡ true) × (fds ≡ r.0 ∷ []) × (r.1.closed ≡ u.closed))

-- `connect_bridge` returns the socket that it connected and sent the request on, or a negative
-- number; in that case what it opened is closed again.
pub connect_bridge-Settles :
    (env : Environment) (command : ℕ) (c : Contact) (u : Udev)
    → udev_backend_enabled env ≡ true
    → Settles (opened (fits env) c.outcome) u (connect_bridge env command c u)
unfolding connect_bridge
connect_bridge-Settles env command c u enabled = elim (Bool-cases (fits env)) [
  | inr long ↦ rw (enabled, long, connect_bridge) (inl (refl, sym (append-nil u.closed)))
  | inl short ↦ rw (enabled, short, connect_bridge) (settle c.outcome)
]
  where
    settle :
        (o : Outcome)
        → Settles (opened true o) u (elim o [
          | no_socket e ↦ (negsuc 0, u)
          | not_connected fd e ↦ (negsuc 0, log_closed (pos fd) u)
          | connected fd ↦ send_request command (pos fd) c u
        ])
    settle (no_socket e) = inl (refl, sym (append-nil u.closed))
    settle (not_connected fd e) = inl (refl, refl)
    settle (connected fd) =
        if_cases (Settles (pos fd ∷ []) u) (c.sent == control_message_size) _ _
          (λ _. inr (refl, refl, refl)) (λ _. inl (refl, refl))

update_descriptor-closed :
    (env : Environment) (d : DeviceDescriptor) (u : Udev)
    → (update_descriptor env d u).closed ≡ u.closed
unfolding update_descriptor
update_descriptor-closed env d u =
    if_cases (λ (v : Udev). v.closed ≡ u.closed) _ _ _ (λ _. refl) (λ _. refl)

-- All that a call opened is closed when it returns.
abbrev pub Closes : List ℤ → Udev → ℤ × Udev → Type 0
Closes fds u r = r.1.closed ≡ u.closed ++ fds

-- However an attempt to learn of the gamepad goes, `refresh_descriptor` closes every descriptor
-- that it opened, and no other.
pub refresh_descriptor-Closes :
    (env : Environment) (c : Contact) (u : Udev)
    → udev_backend_enabled env ≡ true
    → Closes (opened (fits env) c.outcome) u (refresh_descriptor env c u)
unfolding refresh_descriptor
refresh_descriptor-Closes env c u enabled =
    let fds = opened (fits env) c.outcome in
    let (fd, u1) = connect_bridge env control_query_descriptor c u in
    let received = take device_descriptor_size c.reply in
    let d = decode_descriptor received in
    elim (connect_bridge-Settles env control_query_descriptor c u enabled) [
      | inl (none_left, closed) ↦ rw (none_left, refresh_descriptor) closed
      | inr (open_left, e, closed) ↦
          let both : (log_closed fd u1).closed ≡ u.closed ++ fds =
            ap (λ (l : List ℤ). l ++ (fd ∷ [])) closed ∙ ap (◌++◌ u.closed) (sym e) in
          rw (open_left, refresh_descriptor)
            (if_cases (Closes fds u) ((length received == device_descriptor_size) && is_known d) _ _
              (λ _. update_descriptor-closed env d (log_closed fd u1) ∙ both) (λ _. both))
    ]

-- If the bridge is reached and sends the descriptor of its device in full, `refresh_descriptor`
-- takes it over, and its status says whether there is a gamepad.
pub refresh_descriptor-answered :
    (env : Environment) (fd : ℕ) (d : DeviceDescriptor) (rest : List ℕ) (u : Udev)
    → udev_backend_enabled env ≡ true
    → fits env ≡ true
    → IsDescriptor d
    → is_known d ≡ true
    → let c : Contact = record {
      outcome = connected fd;
      sent = control_message_size;
      reply = encode_descriptor d ++ rest;
    } in
      let (status, u') = refresh_descriptor env c u in
      (status ≡ status_of d) × (u'.descriptor ≡ d) × (u'.matched_input ≡ u.matched_input)
unfolding refresh_descriptor connect_bridge update_descriptor
refresh_descriptor-answered env fd d rest u enabled short v known =
    let size = length-encode_descriptor d v.name_size in
    let whole = take-append_exact 88 (encode_descriptor d) rest size in
    rw (enabled, short, whole, size, decode_descriptor-encode_descriptor d v, known)
      (refl, refl, refl)
