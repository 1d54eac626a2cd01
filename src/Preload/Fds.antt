-- ===== src/Preload/Fds.antt =====
-- The table of descriptors that src/evdev_preload.c serves.
use termux_gamepad.Prelude.{
  ℕ, Bool, ◌||◌, List, [], ◌∷◌, ◌++◌, Option, none, some, ℤ, ltb, eq_ℤ, is_nonneg, not,
  if◌then◌else◌, length,
}
use termux_gamepad.Wire.{DeviceDescriptor}

abbrev pub max_fake_fds : ℕ
max_fake_fds = 128

-- `raw` is the first `raw_used` bytes of the buffer.
pub record FakeFd : Type 0 where
  pub fd : ℤ
  pub joydev : Bool
  pub initializing : Bool
  pub raw : List ℕ
  pub descriptor : DeviceDescriptor

unfoldable pub find_fake_fd : ℤ → List FakeFd → Option FakeFd
find_fake_fd fd [] = none
find_fake_fd fd (f ∷ fs) = let later = find_fake_fd fd fs in if eq_ℤ f.fd fd then some f else later

abbrev pub is_some {ℓ} : {A : Type ℓ} → Option A → Bool
is_some none = Bool.false
is_some (some a) = Bool.true

unfoldable pub add_fake_fd : ℤ → Bool → DeviceDescriptor → List FakeFd → List FakeFd
add_fake_fd fd joydev descriptor fakes =
    if not (is_nonneg fd)
      || is_some (find_fake_fd fd fakes)
      || not (ltb (length fakes) max_fake_fds)
    then fakes
    else fakes
      ++ (record {
        fd = fd;
        joydev = joydev;
        initializing = joydev;
        raw = [];
        descriptor = descriptor;
      }
          ∷ [])

abbrev pub last_of : FakeFd → List FakeFd → FakeFd
last_of f [] = f
last_of f (g ∷ gs) = last_of g gs

abbrev pub but_last : FakeFd → List FakeFd → List FakeFd
but_last f [] = []
but_last f (g ∷ gs) = f ∷ but_last g gs

-- What stands behind the entry that goes: its last comes in the entry's place.
abbrev pub close_gap : List FakeFd → List FakeFd
close_gap [] = []
close_gap (f ∷ fs) = last_of f fs ∷ but_last f fs

unfoldable pub del_fake_fd : ℤ → List FakeFd → List FakeFd
del_fake_fd fd [] = []
del_fake_fd fd (f ∷ fs) =
    let kept = f ∷ del_fake_fd fd fs in if eq_ℤ f.fd fd then close_gap fs else kept
