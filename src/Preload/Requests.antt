-- ===== src/Preload/Requests.antt =====
-- `ioctl` of src/evdev_preload.c, and `struct tg_ff_effect` as it lies in the caller's memory.
pub mod Within
pub mod Layout
pub mod Played
use termux_gamepad.Prelude.{
  ℕ, ◌+◌, ◌%◌, ◌^◌, Bool, true, false, not, ◌&&◌, List, [], ◌∷◌, ◌++◌, Option, none, some, ℤ, pos,
  negsuc, leb, ◌==◌, if◌then◌else◌, le_bytes, read_le, take, drop, to_signed, u16_mod, u32_mod,
}
use termux_gamepad.Preload.Fds.{FakeFd, find_fake_fd}
use termux_gamepad.Preload.Effects.{
  EffectSlot, Effect, Force, rumble, constant, periodic, ramp, condition, other_force, Condition,
  upload_effect, remove_effect,
}
use termux_gamepad.Preload.Calls.{Shim, Answer, passed_on, answered}
use termux_gamepad.Preload.Setup.{Environment}
use termux_gamepad.Preload.Reports.{request_nr, request_size, overwrite, fake_ioctl, fake_joy_ioctl}

-- The 16-bit field at an offset, without and with a sign.
abbrev pub u16_at : List ℕ → ℕ → ℕ
u16_at mem offset = (read_le 2 (drop offset mem)).0

abbrev pub s16_at : List ℕ → ℕ → ℤ
s16_at mem offset = to_signed u16_mod (u16_at mem offset)

unfoldable pub condition_at : List ℕ → ℕ → Condition
condition_at mem offset = record {
  right_saturation = u16_at mem offset;
  left_saturation = u16_at mem (offset + 2);
  right_coeff = s16_at mem (offset + 4);
  left_coeff = s16_at mem (offset + 6);
}

-- FF_RUMBLE, FF_CONSTANT, FF_PERIODIC, FF_RAMP, and FF_SPRING, FF_FRICTION, FF_DAMPER, FF_INERTIA;
-- the union lies from byte 16 on.
unfoldable pub force_at : List ℕ → Force
force_at mem =
    let type = u16_at mem 0 in
    if type == 0x50
    then rumble (u16_at mem 16) (u16_at mem 18)
    else if type == 0x52
    then constant (s16_at mem 16)
    else if type == 0x51
    then periodic (s16_at mem 20)
    else if type == 0x57
    then ramp (s16_at mem 16) (s16_at mem 18)
    else if leb 0x53 type && leb type 0x56
    then condition (condition_at mem 16) (condition_at mem 28)
    else other_force

unfoldable pub effect_in : List ℕ → Effect
effect_in mem = record { id = s16_at mem 2; replay_length = u16_at mem 10; force = force_at mem }

-- `effect->id=(tg_s16)id`
abbrev pub store_id : ℕ → List ℕ → List ℕ
store_id id mem = take 2 mem ++ overwrite (le_bytes 2 id) (drop 2 mem)

abbrev pub Reply : Type 0
Reply = Answer × List ℕ × Shim

abbrev pub upload_reply : Option (ℕ × List EffectSlot) → List ℕ → Shim → Reply
upload_reply none mem s = (answered (negsuc 0), mem, s)
upload_reply (some (id, slots)) mem s =
    (answered (pos 0), store_id id mem, record s { effects = slots })

abbrev pub remove_reply : Option (List EffectSlot) → List ℕ → Shim → Reply
remove_reply none mem s = (answered (negsuc 0), mem, s)
remove_reply (some slots) mem s = (answered (pos 0), mem, record s { effects = slots })

abbrev pub report_reply : ℤ × List ℕ → Shim → Reply
report_reply (status, mem) s = (answered status, mem, s)

-- On a descriptor that is served; `arg` is the third argument, and `mem` the bytes it points to.
unfoldable pub ioctl_on : Environment → FakeFd → ℤ → ℕ → ℕ → List ℕ → Shim → Reply
ioctl_on env f fd req arg mem s =
    let nr = request_nr req in
    let size = request_size req in
    if f.joydev
    then report_reply (fake_joy_ioctl env f req arg mem) s
    else if (nr == 0x80) && not (arg == 0) && leb 48 size
    then upload_reply (upload_effect fd (effect_in mem) s.effects) mem s
    else if (nr == 0x81) && leb 4 size
    then remove_reply (remove_effect fd (to_signed u32_mod (arg % u32_mod)) s.effects) mem s
    else report_reply (fake_ioctl env f req arg mem) s

abbrev pub answered_by : Reply → Answer × Option (List ℕ) × Shim
answered_by r = (r.0, some r.1, r.2)

-- The memory behind a call that is passed on is what the C library's `ioctl` leaves there: `none`.
unfoldable pub ioctl : Environment → ℤ → ℕ → ℕ → List ℕ → Shim → Answer × Option (List ℕ) × Shim
ioctl env fd req arg mem s = elim (find_fake_fd fd s.fakes) [
  | none ↦ (passed_on, none, s)
  | some f ↦ answered_by (ioctl_on env f fd req arg mem s)
]
