-- ===== src/Preload/Requests/Within.antt =====
-- Where `ioctl` of src/evdev_preload.c stores.
use termux_gamepad.Prelude.{
  ℕ, ◌≤◌, ◌≡◌, refl, ap, arith, zero, suc, Bool, true, not, ◌&&◌, List, [], ◌∷◌, Option, none, some,
  ℤ, leb, ◌==◌, length, length-le_bytes, le_bytes, if_cases, drop,
}
use termux_gamepad.Preload.Fds.{FakeFd, find_fake_fd}
use termux_gamepad.Preload.Effects.{EffectSlot}
use termux_gamepad.Preload.Calls.{Shim}
use termux_gamepad.Preload.Setup.{Environment}
use termux_gamepad.Preload.Reports.{request_nr, request_size}
use termux_gamepad.Preload.Reports.Memory.{
  Within, overwrite-Within, fake_ioctl-Within, fake_joy_ioctl-Within,
}
use termux_gamepad.Preload.Requests.{Reply, store_id, upload_reply, remove_reply, ioctl_on, ioctl}

store_id-Within : (size id : ℕ) (mem : List ℕ) → 4 ≤ size → Within size mem (store_id id mem)
unfolding le_bytes
store_id-Within zero id mem h = absurd (omega arith)
store_id-Within (suc zero) id mem h = absurd (omega arith)
store_id-Within (suc (suc size)) id [] h = (refl, refl)
store_id-Within (suc (suc size)) id (a ∷ []) h = (refl, refl)
store_id-Within (suc (suc size)) id (a ∷ b ∷ mem) h =
    let (behind, same) =
      overwrite-Within (le_bytes 2 id) mem size (omega (arith, length-le_bytes 2 id)) in
    (behind, ap suc (ap suc same))

abbrev ReplyWithin : ℕ → List ℕ → Reply → Type 0
ReplyWithin size mem r = Within size mem r.1

upload_reply-Within :
    (size : ℕ) (mem : List ℕ) (s : Shim) (o : Option (ℕ × List EffectSlot))
    → 4 ≤ size
    → ReplyWithin size mem (upload_reply o mem s)
upload_reply-Within size mem s none h = (refl, refl)
upload_reply-Within size mem s (some (id, slots)) h = store_id-Within size id mem h

remove_reply-Within :
    (size : ℕ) (mem : List ℕ) (s : Shim) (o : Option (List EffectSlot))
    → ReplyWithin size mem (remove_reply o mem s)
remove_reply-Within size mem s none = (refl, refl)
remove_reply-Within size mem s (some slots) = (refl, refl)

upload_size : (size : ℕ) (a b : Bool) → (a && b && leb 48 size) ≡ true → 4 ≤ size
upload_size size a b h = ground arith

-- An `ioctl` that this library answers stores nothing behind the size that its request names,
-- whatever the request, its argument and the mode: the caller's bytes from there on are as they
-- were. The descriptor is one that is served.
pub ioctl-Within :
    (env : Environment) (fd : ℤ) (f : FakeFd) (req arg : ℕ) (mem : List ℕ) (s : Shim)
    → find_fake_fd fd s.fakes ≡ some f
    → (mem' : List ℕ) × ((ioctl env fd req arg mem s).1 ≡ some mem')
      × (drop (request_size req) mem' ≡ drop (request_size req) mem)
      × (length mem' ≡ length mem)
unfolding ioctl ioctl_on
ioctl-Within env fd f req arg mem s found =
    let nr = request_nr req in
    let size = request_size req in
    let r = ioctl_on env f fd req arg mem s in
    let within : ReplyWithin size mem r =
      if_cases (ReplyWithin size mem) f.joydev _ _ (λ _. fake_joy_ioctl-Within env f req arg mem)
        λ _.
          if_cases (ReplyWithin size mem) ((nr == 0x80) && not (arg == 0) && leb 48 size) _ _
            (λ e.
              upload_reply-Within size mem s _ (upload_size size (nr == 0x80) (not (arg == 0)) e))
            λ _.
              if_cases (ReplyWithin size mem) ((nr == 0x81) && leb 4 size) _ _
                (λ _. remove_reply-Within size mem s _)
                (λ _. fake_ioctl-Within env f req arg mem) in
    (r.1, rw (found, ioctl) refl, within.0, within.1)
