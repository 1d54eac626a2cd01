-- ===== src/Preload/Reports.antt =====
-- The ioctls of src/evdev_preload.c that report what a device is: `tg_fill_bits`, `tg_fake_ioctl`
-- and `tg_fake_joy_ioctl`. The caller's memory at the third argument is a list of bytes.
pub mod Memory
pub mod Keys
pub mod Ranges
use termux_gamepad.Prelude.{
  ℕ, zero, suc, ◌+◌, ◌-◌, ◌/◌, ◌%◌, ◌^◌, Bool, true, false, not, ◌&&◌, ◌||◌, List, [], ◌∷◌, ◌++◌, ℤ,
  pos, negsuc, leb, ◌==◌, if◌then◌else◌, le_bytes, replicate, to_unsigned, u16_mod, u32_mod,
}
use termux_gamepad.Wire.{ev_syn, ev_key, ev_rel, ev_abs, ev_ff}
use termux_gamepad.Common.{copy, strlen, set_buffer_bit}
use termux_gamepad.Preload.Fds.{FakeFd}
use termux_gamepad.Preload.Setup.{Environment, is_dinput, device_name}

-- The fields of a request: `req >> TG_IOC_NRSHIFT` and so on.
abbrev pub request_nr : ℕ → ℕ
request_nr req = req % 256

abbrev pub request_type : ℕ → ℕ
request_type req = req / 2 ^ 8 % 256

abbrev pub request_size : ℕ → ℕ
request_size req = req / 2 ^ 16 % 2 ^ 14

-- A store of bytes at the front; what would lie behind the list is not stored.
abbrev pub overwrite : List ℕ → List ℕ → List ℕ
overwrite [] mem = mem
overwrite (b ∷ bs) [] = []
overwrite (b ∷ bs) (m ∷ mem) = b ∷ overwrite bs mem

-- BTN_SOUTH, BTN_EAST, BTN_WEST, BTN_NORTH, BTN_TL, BTN_TR, BTN_SELECT, BTN_START, BTN_MODE,
-- BTN_THUMBL, BTN_THUMBR, BTN_C
abbrev pub xinput_keys : List ℕ
xinput_keys =
    0x130 ∷ 0x131 ∷ 0x134 ∷ 0x133 ∷ 0x136 ∷ 0x137 ∷ 0x13a ∷ 0x13b ∷ 0x13c ∷ 0x13d ∷ 0x13e ∷ 0x132
    ∷ []

-- `count` codes from `code` on
abbrev pub codes_from : ℕ → ℕ → List ℕ
codes_from code zero = []
codes_from code (suc count) = code ∷ codes_from (code + 1) count

-- BTN_TRIGGER to BTN_BASE6
abbrev pub dinput_keys : List ℕ
dinput_keys = codes_from 0x120 12

-- ABS_X, ABS_Y, ABS_RX, ABS_RY, ABS_Z, ABS_RZ, ABS_HAT0X, ABS_HAT0Y
abbrev pub reported_axes : List ℕ
reported_axes = 0x00 ∷ 0x01 ∷ 0x03 ∷ 0x04 ∷ 0x02 ∷ 0x05 ∷ 0x10 ∷ 0x11 ∷ []

-- FF_CONSTANT, FF_SINE, FF_TRIANGLE, FF_SAW_UP, FF_SAW_DOWN, FF_RAMP, FF_SPRING, FF_DAMPER,
-- FF_INERTIA, FF_FRICTION
abbrev pub dinput_effects : List ℕ
dinput_effects = 0x52 ∷ 0x5a ∷ 0x59 ∷ 0x5b ∷ 0x5c ∷ 0x57 ∷ 0x53 ∷ 0x55 ∷ 0x56 ∷ 0x54 ∷ []

-- The bits that are set for a type of events, FF_RUMBLE and FF_GAIN the first of the effects.
unfoldable pub reported_codes : ℕ → Bool → List ℕ
reported_codes ev dinput =
    if ev == ev_key
    then (if dinput then dinput_keys else xinput_keys)
    else if ev == ev_abs
    then reported_axes
    else if ev == ev_ff
    then 0x50 ∷ 0x60 ∷ (if dinput then dinput_effects else [])
    else if ev == 0
    then ev_key ∷ ev_abs ∷ ev_syn ∷ ev_ff ∷ []
    else []

unfoldable pub set_bits : List ℕ → List ℕ → List ℕ
set_bits [] buf = buf
set_bits (code ∷ codes) buf = set_bits codes (set_buffer_bit buf code)

-- The buffer of `len` bytes that is left.
unfoldable pub fill_bits : ℕ → ℕ → Bool → List ℕ
fill_bits len ev dinput = set_bits (reported_codes ev dinput) (replicate len 0)

-- `struct tg_input_absinfo`
pub record AbsInfo : Type 0 where
  pub value : ℤ
  pub minimum : ℤ
  pub maximum : ℤ
  pub fuzz : ℤ
  pub flat : ℤ
  pub resolution : ℤ

abbrev pub abs_range : ℤ → ℤ → ℕ → AbsInfo
abs_range minimum maximum flat = record {
  value = pos 0;
  minimum = minimum;
  maximum = maximum;
  fuzz = pos 0;
  flat = pos flat;
  resolution = pos 0;
}

unfoldable pub abs_info : ℕ → AbsInfo
abs_info code =
    if (code == 0x02) || (code == 0x05)
    then abs_range (pos 0) (pos 255) 0
    else if (code == 0x10) || (code == 0x11)
    then abs_range (negsuc 0) (pos 1) 0
    else abs_range (negsuc 32767) (pos 32767) 4096

abbrev pub word : ℤ → List ℕ
word z = le_bytes 4 (to_unsigned u32_mod z)

pub encode_abs_info : AbsInfo → List ℕ
encode_abs_info a =
    word a.value
    ++ (word a.minimum ++ (word a.maximum ++ (word a.fuzz ++ (word a.flat ++ word a.resolution))))

-- `struct tg_input_id`
unfoldable pub input_id : Environment → FakeFd → List ℕ
input_id env f =
    let dinput = is_dinput env f in
    le_bytes 2 0x03
    ++ (le_bytes 2 (if dinput then 0x1209 else f.descriptor.vendor_id % u16_mod)
        ++ (le_bytes 2 (if dinput then 0x0001 else f.descriptor.product_id % u16_mod)
            ++ le_bytes 2 0x0114))

-- EV_SYN, EV_KEY, EV_REL, EV_ABS, EV_FF
abbrev pub has_bits : ℕ → Bool
has_bits nr =
    (nr == 0x20)
    || (nr == 0x20 + ev_key)
    || (nr == 0x20 + ev_rel)
    || (nr == 0x20 + ev_abs)
    || (nr == 0x20 + ev_ff)

-- The status -1, and nothing is stored.
abbrev pub unknown_request : List ℕ → ℤ × List ℕ
unknown_request mem = (negsuc 0, mem)

-- `tg_strlen(name)+1`
abbrev pub name_status : List ℕ → ℤ
name_status name = pos (strlen name + 1)

-- The status and the memory; `arg` is the address, 0 for NULL.
unfoldable pub fake_ioctl : Environment → FakeFd → ℕ → ℕ → List ℕ → ℤ × List ℕ
unfolding encode_abs_info
fake_ioctl env f req arg mem =
    let nr = request_nr req in
    let size = request_size req in
    let given = not (arg == 0) in
    if not (request_type req == b'E')
    then unknown_request mem
    else if (nr == 0x01) && given && leb 4 size
    then (pos 0, overwrite (le_bytes 4 0x010001) mem)
    else if (nr == 0x02) && given && leb 8 size
    then (pos 0, overwrite (input_id env f) mem)
    else if (nr == 0x06) && given && not (size == 0)
    then (name_status (device_name env f), copy mem (device_name env f) size)
    else if has_bits nr && given
    then (pos 0, overwrite (fill_bits size (nr - 0x20) (is_dinput env f)) mem)
    else if leb 0x40 nr && leb nr 0x7f && given && leb 24 size
    then (pos 0, overwrite (encode_abs_info (abs_info (nr - 0x40))) mem)
    else if (nr == 0x84) && given && leb 4 size
    then (pos 0, overwrite (le_bytes 4 16) mem)
    else unknown_request mem

unfoldable pub fake_joy_ioctl : Environment → FakeFd → ℕ → ℕ → List ℕ → ℤ × List ℕ
fake_joy_ioctl env f req arg mem =
    let nr = request_nr req in
    let size = request_size req in
    if not (request_type req == b'j') || (arg == 0)
    then unknown_request mem
    else if (nr == 0x01) && leb 4 size
    then (pos 0, overwrite (le_bytes 4 0x020100) mem)
    else if (nr == 0x11) && leb 1 size
    then (pos 0, overwrite (le_bytes 1 8) mem)
    else if (nr == 0x12) && leb 1 size
    then (pos 0, overwrite (le_bytes 1 12) mem)
    else if (nr == 0x13) && not (size == 0)
    then (name_status (device_name env f), copy mem (device_name env f) size)
    else unknown_request mem
