-- ===== src/Common.antt =====
-- The helpers of src/tg_common.h that the preload and the stand-in for libudev share, and the file
-- names that it gives. A C string is the bytes from its first on; behind the end of a list an array
-- holds a terminator. A NULL pointer is `none`.
pub mod Text
pub mod Bits
use Prim.Native.Char.{code}
use Prim.Native.String.{String}
use termux_gamepad.Prelude.{
  ℕ, zero, suc, ◌/◌, ◌%◌, ◌+◌, Bool, false, not, ◌&&◌, List, [], ◌∷◌, ◌++◌, Option, none, some, ltb,
  ◌==◌, if◌then◌else◌, length, get_or, set, set_bit, test_bit,
}
use termux_gamepad.Wire.Text.{head_or_nul, tail_of}

-- The bytes of a literal.
abbrev pub codes : String → List ℕ
codes String.[] = []
codes (String.◌∷◌ c s) = code c ∷ codes s

-- TG_FAKE_DEVNODE, TG_FAKE_HAPTIC_ALIAS_NODE, TG_FAKE_JOYDEV_NODE
abbrev pub fake_devnode : List ℕ
fake_devnode = codes "/dev/input/event99"

abbrev pub fake_haptic_alias_node : List ℕ
fake_haptic_alias_node = codes "/dev/input/event31"

abbrev pub fake_joydev_node : List ℕ
fake_joydev_node = codes "/dev/input/js99"

-- TG_FAKE_PARENT_SYSPATH, TG_FAKE_SYSPATH, TG_FAKE_JOYDEV_SYSPATH
abbrev pub fake_parent_syspath : List ℕ
fake_parent_syspath = codes "/sys/devices/virtual/termux-gamepad0/input/input99"

abbrev pub fake_syspath : List ℕ
fake_syspath = codes "/sys/devices/virtual/termux-gamepad0/input/input99/event99"

abbrev pub fake_joydev_syspath : List ℕ
fake_joydev_syspath = codes "/sys/devices/virtual/termux-gamepad0/input/input99/js99"

-- TG_DEFAULT_SOCKET
abbrev pub default_socket : List ℕ
default_socket = codes "/data/data/com.termux/files/usr/tmp/termux-gamepad-evdev.sock"

-- `if (!path || !*path) path=TG_DEFAULT_SOCKET;`
abbrev pub socket_or_default : Option (List ℕ) → List ℕ
socket_or_default none = default_socket
socket_or_default (some path) = if head_or_nul path == 0 then default_socket else path

-- TG_XINPUT_NAME, TG_DINPUT_NAME
abbrev pub xinput_name : List ℕ
xinput_name = codes "Termux Virtual Xbox Controller"

abbrev pub dinput_name : List ℕ
dinput_name = codes "Termux Virtual DirectInput Controller"

unfoldable pub strlen : List ℕ → ℕ
strlen [] = 0
strlen (x ∷ xs) = let rest = suc (strlen xs) in if x == 0 then 0 else rest

-- The loop of `tg_streq` and the test behind it.
unfoldable pub same_text : List ℕ → List ℕ → Bool
same_text [] b = head_or_nul b == 0
same_text (x ∷ a) b =
    let rest = same_text a (tail_of b) in
    if not (x == 0) && not (head_or_nul b == 0) && x == head_or_nul b
    then rest
    else x == 0 && head_or_nul b == 0

abbrev pub streq : Option (List ℕ) → Option (List ℕ) → Bool
streq none b = false
streq (some a) none = false
streq (some a) (some b) = same_text a b

-- `tg_copy` into `dst`: a write behind the end of the list changes nothing.
unfoldable pub copy : List ℕ → List ℕ → ℕ → List ℕ
copy dst src zero = dst
copy [] src (suc cap) = []
copy (d ∷ dst) src (suc zero) = 0 ∷ dst
copy (d ∷ dst) src (suc (suc cap)) =
    let rest = head_or_nul src ∷ copy dst (tail_of src) (suc cap) in
    if head_or_nul src == 0 then 0 ∷ dst else rest

-- `tg_set_bit` on a buffer of exactly `len` bytes.
unfoldable pub set_buffer_bit : List ℕ → ℕ → List ℕ
set_buffer_bit buf bit =
    if ltb (bit / 8) (length buf)
    then set buf (bit / 8) (set_bit (get_or buf (bit / 8) 0) (bit % 8))
    else buf

-- The bit that a reader of the buffer finds.
unfoldable pub buffer_bit : List ℕ → ℕ → Bool
buffer_bit buf bit = test_bit (get_or buf (bit / 8) 0) (bit % 8)
