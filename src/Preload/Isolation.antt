-- ===== src/Preload/Isolation.antt =====
-- Sequences of calls on the descriptors of src/evdev_preload.c, and the effects of each.
use native.Mathlib.Nat.{mul-le-mul_left}
use termux_gamepad.Prelude.{
  ℕ, ◌*◌, ◌≤◌, ◌<◌, ◌^◌, ◌≡◌, refl, ap, sym, subst, ◌∙◌, arith, Bool, true, false, not, ◌&&◌, List,
  [], ◌∷◌, Option, none, some, ℤ, pos, leb, length, take, ◌==◌, eq_ℤ, inl, inr, if_cases,
  Bool-cases, Option-cases, All,
}
use termux_gamepad.Wire.{control_query_descriptor, device_descriptor_size, decode_descriptor}
use termux_gamepad.Gamepad.Hotplug.{is_served}
use termux_gamepad.Gamepad.Net.{Outcome, no_socket, not_connected, connected}
use termux_gamepad.Preload.Fds.{FakeFd, find_fake_fd}
use termux_gamepad.Preload.Effects.{EffectSlot, effect_at}
use termux_gamepad.Preload.Calls.{Shim, send_control, write, close, with_gain}
use termux_gamepad.Preload.Joydev.{ReadAnswer}
use termux_gamepad.Preload.Opening.{
  Attempt, Opened, refused_open, query_device, connect_device, node_of, openat, open_common,
}
use termux_gamepad.Preload.Opening.Served.{fits, opened}
use termux_gamepad.Preload.Reading.{read}
use termux_gamepad.Preload.Reports.{request_nr, request_size}
use termux_gamepad.Preload.Requests.{Reply, ioctl, ioctl_on, upload_reply, remove_reply, effect_in}
use termux_gamepad.Preload.Setup.{Environment, backend_enabled}
use termux_gamepad.Preload.Ownership.{
  Spares, IfAny, upload_effect-Spares, remove_effect-Spares, clear_effects-Spares,
}
use termux_gamepad.Preload.Writing.{write-keeps}
use termux_gamepad.Preload.Trace.{
  Call, opens, opens_at, ioctls, reads, writes, closes, run_call, run_calls, touched,
}

abbrev Keeps : ℤ → Shim → Shim → Type 0
Keeps fd s s' = Spares fd s.effects s'.effects

unchanged : (fd : ℤ) (s s' : Shim) → s'.effects ≡ s.effects → Keeps fd s s'
unchanged fd s s' e k theirs = ap (λ slots. effect_at slots k) e

close-Keeps : (fd : ℤ) (s : Shim) → Keeps fd s (close fd s)
unfolding close send_control
close-Keeps fd s = elim (Option-cases (find_fake_fd fd s.fakes)) [
  | inl missing ↦ rw (missing, close) (unchanged fd s s refl)
  | inr (f, found) ↦
      rw (found, close)
        (if_cases (Keeps fd s) f.joydev _ _ (λ _. unchanged fd s s refl)
          (λ _. clear_effects-Spares fd s.effects))
]

write-Keeps : (fd : ℤ) (buffer : Option (List ℕ)) (s : Shim) → Keeps fd s (write fd buffer s).1
unfolding send_control
write-Keeps fd buffer s = unchanged fd s (write fd buffer s).1 (
    write-keeps (λ (t : Shim). t.effects ≡ s.effects) (λ fd' command low high ms t h. h)
      (λ gain t h. h) fd buffer s refl)

-- The memory and the answer do not matter here.
abbrev ReplyKeeps : ℤ → Shim → Reply → Type 0
ReplyKeeps fd s r = Keeps fd s r.2

upload_reply-Keeps :
    (fd : ℤ) (mem : List ℕ) (s : Shim) (o : Option (ℕ × List EffectSlot))
    → IfAny (λ (r : ℕ × List EffectSlot). Spares fd s.effects r.1) o
    → ReplyKeeps fd s (upload_reply o mem s)
upload_reply-Keeps fd mem s none h = unchanged fd s s refl
upload_reply-Keeps fd mem s (some r) h = h

remove_reply-Keeps :
    (fd : ℤ) (mem : List ℕ) (s : Shim) (o : Option (List EffectSlot))
    → IfAny (Spares fd s.effects) o
    → ReplyKeeps fd s (remove_reply o mem s)
remove_reply-Keeps fd mem s none h = unchanged fd s s refl
remove_reply-Keeps fd mem s (some slots) h = h

ioctl_on-Keeps :
    (env : Environment) (f : FakeFd) (fd : ℤ) (req arg : ℕ) (mem : List ℕ) (s : Shim)
    → ReplyKeeps fd s (ioctl_on env f fd req arg mem s)
unfolding ioctl_on
ioctl_on-Keeps env f fd req arg mem s =
    let nr = request_nr req in
    let size = request_size req in
    if_cases (ReplyKeeps fd s) f.joydev _ _ (λ _. unchanged fd s s refl)
      λ _.
        if_cases (ReplyKeeps fd s) ((nr == 0x80) && not (arg == 0) && leb 48 size) _ _
          (λ _. upload_reply-Keeps fd mem s _ (upload_effect-Spares fd (effect_in mem) s.effects))
          λ _.
            if_cases (ReplyKeeps fd s) ((nr == 0x81) && leb 4 size) _ _
              (λ _. remove_reply-Keeps fd mem s _ (remove_effect-Spares fd _ s.effects))
              λ _. unchanged fd s s refl

ioctl-Keeps :
    (env : Environment) (fd : ℤ) (req arg : ℕ) (mem : List ℕ) (s : Shim)
    → Keeps fd s (ioctl env fd req arg mem s).2
unfolding ioctl
ioctl-Keeps env fd req arg mem s = elim (Option-cases (find_fake_fd fd s.fakes)) [
  | inl missing ↦ rw (missing, ioctl) (unchanged fd s s refl)
  | inr (f, found) ↦ rw (found, ioctl) (ioctl_on-Keeps env f fd req arg mem s)
]

read_effects :
    (env : Environment) (fd : ℤ) (given : Bool) (size : ℕ) (answers : List ReadAnswer) (s : Shim)
    → (read env fd given size answers s).2.effects ≡ s.effects
unfolding read
read_effects env fd given size answers s = elim (Option-cases (find_fake_fd fd s.fakes)) [
  | inl missing ↦ rw (missing, read)
  | inr (f, found) ↦
      rw (found, read)
        (if_cases (λ (r : Reply). r.2.effects ≡ s.effects) f.joydev _ _ (λ _. refl) (λ _. refl))
]

-- Every effect of a descriptor that is not among `fds` is as before.
abbrev KeepsOthers : List ℤ → Shim → Shim → Type 0
KeepsOthers fds s s' =
    (k : ℕ)
    → (effect_at s.effects k).used ≡ true
    → All (λ (fd : ℤ). eq_ℤ (effect_at s.effects k).fd fd ≡ false) fds
    → effect_at s'.effects k ≡ effect_at s.effects k

others : (fd : ℤ) (s s' : Shim) → Keeps fd s s' → KeepsOthers (fd ∷ []) s s'
others fd s s' h k used theirs = h k (used, theirs.0)

all_kept : (fds : List ℤ) (s s' : Shim) → s'.effects ≡ s.effects → KeepsOthers fds s s'
all_kept fds s s' e k used theirs = ap (λ slots. effect_at slots k) e

abbrev OpenKeeps : List ℤ → Shim → Opened → Type 0
OpenKeeps fds s r = KeepsOthers fds s r.shim

query_device-Keeps :
    (flags : ℕ) (joydev : Bool) (fd : ℤ) (reply : List ℕ) (s : Shim)
    → OpenKeeps (fd ∷ []) s (query_device flags joydev fd reply s)
unfolding query_device send_control
query_device-Keeps flags joydev fd reply s =
    let received = take device_descriptor_size reply in
    let (sent, s1) = send_control fd control_query_descriptor 0 0 0 s in
    if_cases (OpenKeeps (fd ∷ []) s)
      (sent
        && (length received == device_descriptor_size)
        && is_served (decode_descriptor received))
      _ _ (λ _ k used theirs. refl) (λ _. others fd s (close fd s1) (close-Keeps fd s1))

connect_device-Keeps :
    (env : Environment) (flags : ℕ) (joydev : Bool) (o : Outcome) (reply : List ℕ) (s : Shim)
    → OpenKeeps
        (opened (fits env) o)
        s
        (connect_device env flags joydev (record { outcome = o; reply = reply }) s)
unfolding connect_device
connect_device-Keeps env flags joydev o reply s = elim (Bool-cases (fits env)) [
  | inr long ↦ rw long (all_kept [] s s refl)
  | inl short ↦ rw short (keep o)
]
  where
    keep :
        (o' : Outcome)
        → OpenKeeps (opened true o') s (elim o' [
          | no_socket e ↦ refused_open [] none s
          | not_connected fd e ↦ refused_open (pos fd ∷ []) none (close (pos fd) s)
          | connected fd ↦ query_device flags joydev (pos fd) reply s
        ])
    keep (no_socket e) = all_kept [] s s refl
    keep (not_connected fd e) = others (pos fd) s (close (pos fd) s) (close-Keeps (pos fd) s)
    keep (connected fd) = query_device-Keeps flags joydev (pos fd) reply s

openat-Keeps :
    (env : Environment) (path : Option (List ℕ)) (flags : ℕ) (a : Attempt) (s : Shim)
    → OpenKeeps (opened (fits env) a.outcome) s (openat env path flags a s)
unfolding openat
openat-Keeps env path flags a s = elim (Option-cases (node_of path)) [
  | inl elsewhere ↦ rw (elsewhere, openat) (all_kept _ s s refl)
  | inr (joydev, node) ↦
      rw (node, openat) (connect_device-Keeps env flags joydev a.outcome a.reply s)
]

open_common-Keeps :
    (env : Environment) (path : Option (List ℕ)) (flags : ℕ) (a : Attempt) (s : Shim)
    → OpenKeeps (opened (fits env) a.outcome) s (open_common env path flags a s)
unfolding open_common openat
open_common-Keeps env path flags a s =
    if_cases (OpenKeeps (opened (fits env) a.outcome) s) (backend_enabled env) _ _
      (λ _. openat-Keeps env path flags a s) (λ _. all_kept _ s s refl)

run_call-Keeps : (c : Call) (s : Shim) → KeepsOthers (touched c) s (run_call c s)
unfolding run_call
run_call-Keeps (opens env path flags a) s = open_common-Keeps env path flags a s
run_call-Keeps (opens_at env path flags a) s = openat-Keeps env path flags a s
run_call-Keeps (ioctls env fd req arg mem) s =
    others fd s (ioctl env fd req arg mem s).2 (ioctl-Keeps env fd req arg mem s)
run_call-Keeps (reads env fd given size answers) s =
    all_kept (fd ∷ []) s (read env fd given size answers s).2
      (read_effects env fd given size answers s)
run_call-Keeps (writes fd buffer) s = others fd s (write fd buffer s).1 (write-Keeps fd buffer s)
run_call-Keeps (closes fd) s = others fd s (close fd s) (close-Keeps fd s)

-- `owner` is not among the descriptors.
abbrev pub Avoids : ℤ → List ℤ → Type 0
Avoids owner fds = All (λ (fd : ℤ). eq_ℤ owner fd ≡ false) fds

-- Isolation: an effect that `owner` has uploaded stays as it is, in its slot and with its strength
-- and duration, through any sequence of the calls that the preload stands in for (openings of any
-- outcome, ioctls, reads, writes and closings), as long as they are made on other descriptors and
-- open others.
pub run_calls_isolated :
    (owner : ℤ) (k : ℕ) (calls : List Call) (s : Shim)
    → (effect_at s.effects k).used ≡ true
    → (effect_at s.effects k).fd ≡ owner
    → All (λ (c : Call). Avoids owner (touched c)) calls
    → effect_at (run_calls calls s).effects k ≡ effect_at s.effects k
unfolding run_calls
run_calls_isolated owner k [] s used owned others = refl
run_calls_isolated owner k (c ∷ calls) s used owned others =
    let step : effect_at (run_call c s).effects k ≡ effect_at s.effects k =
      run_call-Keeps c s k used (subst (λ (o : ℤ). Avoids o (touched c)) (sym owned) others.0) in
    run_calls_isolated owner k calls (run_call c s) (ap (λ (e : EffectSlot). e.used) step ∙ used)
      (ap (λ (e : EffectSlot). e.fd) step ∙ owned) others.1
    ∙ step

-- For 16-bit magnitudes and gains, the gain never makes an effect stronger, and the highest gain
-- leaves it as it is.
pub with_gain_bounds :
    (magnitude gain : ℕ)
    → magnitude < 2 ^ 16
    → gain < 2 ^ 16
    → (with_gain magnitude gain ≤ magnitude) × (with_gain magnitude 0xffff ≡ magnitude)
unfolding with_gain
with_gain_bounds magnitude gain h k =
    let scaled : magnitude * gain ≤ magnitude * 0xffff = mul-le-mul_left magnitude (omega arith) in
    (omega (arith, scaled, h), omega (arith, h))
