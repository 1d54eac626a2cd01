-- ===== src/Preload/Reports/Memory.antt =====
-- Where the reporting ioctls of src/evdev_preload.c store.
use termux_gamepad.Prelude.{
  ℕ, zero, suc, ◌≤◌, ◌≡◌, refl, ap, ◌∙◌, arith, Bool, true, not, ◌&&◌, ◌||◌, List, [], ◌∷◌, ℤ, pos,
  negsuc, leb, ◌==◌, length, length-le_bytes, length-replicate, le_bytes, drop, replicate, if_cases,
}
use termux_gamepad.Common.{set_buffer_bit, copy}
use termux_gamepad.Common.Text.{copy_within}
use termux_gamepad.Common.Bits.{length-set_buffer_bit}
use termux_gamepad.Preload.Fds.{FakeFd}
use termux_gamepad.Preload.Setup.{Environment, device_name}
use termux_gamepad.Preload.Reports.{
  request_size, request_nr, request_type, has_bits, overwrite, reported_codes, set_bits, fill_bits,
  abs_info, AbsInfo, encode_abs_info, input_id, fake_ioctl, fake_joy_ioctl,
}

-- At most the first `size` bytes differ.
abbrev pub Within : ℕ → List ℕ → List ℕ → Type 0
Within size mem mem' = (drop size mem' ≡ drop size mem) × (length mem' ≡ length mem)

pub overwrite-Within :
    (bs mem : List ℕ) (size : ℕ) → length bs ≤ size → Within size mem (overwrite bs mem)
overwrite-Within [] mem size h = (refl, refl)
overwrite-Within (b ∷ bs) [] size h = (refl, refl)
overwrite-Within (b ∷ bs) (m ∷ mem) zero h = absurd (omega arith)
overwrite-Within (b ∷ bs) (m ∷ mem) (suc size) h =
    let (behind, same) = overwrite-Within bs mem size (omega arith) in (behind, ap suc same)

pub length-set_bits : (codes buf : List ℕ) → length (set_bits codes buf) ≡ length buf
unfolding set_bits
length-set_bits [] buf = refl
length-set_bits (code ∷ codes) buf =
    length-set_bits codes (set_buffer_bit buf code) ∙ length-set_buffer_bit buf code

length-fill_bits : (len ev : ℕ) (dinput : Bool) → length (fill_bits len ev dinput) ≡ len
unfolding fill_bits
length-fill_bits len ev dinput =
    length-set_bits (reported_codes ev dinput) (replicate len 0) ∙ length-replicate len 0

length-input_id : (env : Environment) (f : FakeFd) → length (input_id env f) ≡ 8
unfolding input_id le_bytes
length-input_id env f = refl

length-encode_abs_info : (a : AbsInfo) → length (encode_abs_info a) ≡ 24
unfolding encode_abs_info le_bytes
length-encode_abs_info a = refl

fits_behind : (a b : Bool) (n size : ℕ) → (a && b && leb n size) ≡ true → n ≤ size
fits_behind a b n size h = ground arith

fits_after : (a : Bool) (n size : ℕ) → (a && leb n size) ≡ true → n ≤ size
fits_after a n size h = ground arith

fits_last : (a b c : Bool) (n size : ℕ) → (a && b && c && leb n size) ≡ true → n ≤ size
fits_last a b c n size h = ground arith

-- The memory that a request leaves, as a record: `P` in the chains below.
record IsWithin (size : ℕ) (mem : List ℕ) (r : ℤ × List ℕ) : Type 0 where
  within : Within size mem r.1

unstored : (size : ℕ) (mem : List ℕ) (status : ℤ) → IsWithin size mem (status, mem)
unstored size mem status = record { within = (refl, refl) }

stored :
    (bs : List ℕ) {n : ℕ} (size : ℕ) (mem : List ℕ) (status : ℤ)
    → length bs ≡ n
    → n ≤ size
    → IsWithin size mem (status, overwrite bs mem)
stored bs size mem status e h = record { within = overwrite-Within bs mem size (omega (arith, e)) }

copied :
    (size : ℕ) (mem name : List ℕ) (status : ℤ) → IsWithin size mem (status, copy mem name size)
copied size mem name status = record { within = copy_within mem name size }

fake_ioctl-IsWithin :
    (env : Environment) (f : FakeFd) (req arg : ℕ) (mem : List ℕ)
    → IsWithin (request_size req) mem (fake_ioctl env f req arg mem)
unfolding fake_ioctl
fake_ioctl-IsWithin env f req arg mem =
    let size = request_size req in
    let nr = request_nr req in
    let given = not (arg == 0) in
    if_cases (IsWithin (request_size req) mem) (not (request_type req == b'E')) _ _
      (λ _. unstored _ mem (negsuc 0))
      λ _.
        if_cases (IsWithin (request_size req) mem) ((nr == 0x01) && given && leb 4 size) _ _
          (λ e.
            stored _ size mem (pos 0) (length-le_bytes 4 0x010001)
              (fits_behind (nr == 0x01) given 4 size e))
          λ _.
            if_cases (IsWithin (request_size req) mem) ((nr == 0x02) && given && leb 8 size) _ _
              (λ e.
                stored _ size mem (pos 0) (length-input_id env f)
                  (fits_behind (nr == 0x02) given 8 size e))
              λ _.
                if_cases (IsWithin (request_size req) mem)
                  ((nr == 0x06) && given && not (size == 0)) _ _
                  (λ _. copied size mem (device_name env f) _)
                  λ _.
                    if_cases (IsWithin (request_size req) mem) (has_bits nr && given) _ _
                      (λ _. stored _ size mem (pos 0) (length-fill_bits size _ _) (omega arith))
                      λ _.
                        if_cases (IsWithin (request_size req) mem)
                          (leb 0x40 nr && leb nr 0x7f && given && leb 24 size) _ _
                          (λ e.
                            stored _ size mem (pos 0) (length-encode_abs_info (abs_info _))
                              (fits_last (leb 0x40 nr) (leb nr 0x7f) given 24 size e))
                          λ _.
                            if_cases (IsWithin (request_size req) mem)
                              ((nr == 0x84) && given && leb 4 size) _ _
                              (λ e.
                                stored _ size mem (pos 0) (length-le_bytes 4 16)
                                  (fits_behind (nr == 0x84) given 4 size e))
                              λ _. unstored _ mem (negsuc 0)

fake_joy_ioctl-IsWithin :
    (env : Environment) (f : FakeFd) (req arg : ℕ) (mem : List ℕ)
    → IsWithin (request_size req) mem (fake_joy_ioctl env f req arg mem)
unfolding fake_joy_ioctl
fake_joy_ioctl-IsWithin env f req arg mem =
    let size = request_size req in
    let nr = request_nr req in
    if_cases (IsWithin (request_size req) mem) (not (request_type req == b'j') || (arg == 0)) _ _
      (λ _. unstored _ mem (negsuc 0))
      λ _.
        if_cases (IsWithin (request_size req) mem) ((nr == 0x01) && leb 4 size) _ _
          (λ e.
            stored _ size mem (pos 0) (length-le_bytes 4 0x020100)
              (fits_after (nr == 0x01) 4 size e))
          λ _.
            if_cases (IsWithin (request_size req) mem) ((nr == 0x11) && leb 1 size) _ _
              (λ e.
                stored _ size mem (pos 0) (length-le_bytes 1 8) (fits_after (nr == 0x11) 1 size e))
              λ _.
                if_cases (IsWithin (request_size req) mem) ((nr == 0x12) && leb 1 size) _ _
                  (λ e.
                    stored _ size mem (pos 0) (length-le_bytes 1 12)
                      (fits_after (nr == 0x12) 1 size e))
                  λ _.
                    if_cases (IsWithin (request_size req) mem) ((nr == 0x13) && not (size == 0)) _ _
                      (λ _. copied size mem (device_name env f) _) λ _. unstored _ mem (negsuc 0)

-- What a device reports of itself stays within the size of the request.
pub fake_ioctl-Within :
    (env : Environment) (f : FakeFd) (req arg : ℕ) (mem : List ℕ)
    → Within (request_size req) mem (fake_ioctl env f req arg mem).1
fake_ioctl-Within env f req arg mem = (fake_ioctl-IsWithin env f req arg mem).within

pub fake_joy_ioctl-Within :
    (env : Environment) (f : FakeFd) (req arg : ℕ) (mem : List ℕ)
    → Within (request_size req) mem (fake_joy_ioctl env f req arg mem).1
fake_joy_ioctl-Within env f req arg mem = (fake_joy_ioctl-IsWithin env f req arg mem).within
