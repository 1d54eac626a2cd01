-- ===== src/Bridge/Protocol.antt =====
-- The answer of the X server to `query_lorie_version` of src/lorie_evdev_bridge.c, a structure of
-- src/lorie_controller_proto.h.
use termux_gamepad.Prelude.{ℕ, Bool, false, List, Option, none, some, ◌==◌, read_le}

-- LORIE_CONTROLLER_MAJOR_VERSION
abbrev pub major_version : ℕ
major_version = 1

-- The fields of `xLorieControllerQueryVersionReply` that are read.
pub record VersionReply : Type 0 where
  pub major : ℕ
  pub minor : ℕ

unfoldable pub decode_version : List ℕ → VersionReply
decode_version bs =
    let (type, b1) = read_le 1 bs in
    let (pad, b2) = read_le 1 b1 in
    let (sequence_number, b3) = read_le 2 b2 in
    let (length, b4) = read_le 4 b3 in
    let (major, b5) = read_le 2 b4 in
    let (minor, b6) = read_le 2 b5 in record { major = major; minor = minor }

-- The bytes of the reply, or `none` where the status is 0.
unfoldable pub query_lorie_version : Option (List ℕ) → Bool
query_lorie_version none = false
query_lorie_version (some reply) = (decode_version reply).major == major_version
