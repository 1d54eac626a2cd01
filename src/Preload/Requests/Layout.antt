-- ===== src/Preload/Requests/Layout.antt =====
-- `struct tg_ff_effect` of src/tg_common.h as programs fill it in: the kernel's `struct ff_effect`,
-- with the forces that the preload takes.
use termux_gamepad.Prelude.{
  ℕ, ◌*◌, ◌<◌, ◌^◌, ◌≡◌, ap, ap₂, ◌+◌, ◌/◌, ◌%◌, ◌∙◌, arith, List, ◌++◌, some, ℤ, pos, negsuc, max,
  min, pos_part, neg_part, ltb, if◌then◌else◌, to_unsigned, to_signed, u16_mod, IsS16, le_bytes,
  read_le, word_read, to_unsigned-lt_u16, cast_s16-of_IsS16,
}
use termux_gamepad.Preload.Effects.{
  Condition, condition, magnitudes, scaled_abs, stronger, condition_strength,
}
use termux_gamepad.Preload.Requests.{condition_at, force_at, effect_in}

-- FF_SPRING, FF_FRICTION, FF_DAMPER, FF_INERTIA
pub data Resistance : Type 0 where
  spring friction damper inertia : Resistance

-- How an axis resists, on either side.
pub record AxisCondition : Type 0 where
  pub right_saturation : ℕ
  pub left_saturation : ℕ
  pub right_coeff : ℤ
  pub left_coeff : ℤ
  pub deadband : ℕ
  pub center : ℤ

-- What a program asks for: both strengths, one level, a wave of a height, a level that changes, or
-- a resistance of the two axes.
pub data UploadedForce : Type 0 where
  rumble_force : (strong weak : ℕ) → UploadedForce
  constant_force : (level : ℤ) → UploadedForce
  periodic_force : (waveform period : ℕ) (magnitude : ℤ) → UploadedForce
  ramp_force : (first last : ℤ) → UploadedForce
  condition_force : Resistance → (x y : AxisCondition) → UploadedForce

pub record UploadedEffect : Type 0 where
  pub id : ℤ
  pub direction : ℕ
  pub button : ℕ
  pub interval : ℕ
  pub replay_length : ℕ
  pub replay_delay : ℕ
  pub force : UploadedForce

abbrev pub resistance_code : Resistance → ℕ
resistance_code spring = 0x53
resistance_code friction = 0x54
resistance_code damper = 0x55
resistance_code inertia = 0x56

-- FF_RUMBLE, FF_CONSTANT, FF_PERIODIC, FF_RAMP
abbrev pub type_code : UploadedForce → ℕ
type_code (rumble_force strong weak) = 0x50
type_code (constant_force level) = 0x52
type_code (periodic_force waveform period magnitude) = 0x51
type_code (ramp_force first last) = 0x57
type_code (condition_force resistance x y) = resistance_code resistance

abbrev pub word : ℕ → List ℕ
word n = le_bytes 2 n

abbrev pub signed_word : ℤ → List ℕ
signed_word z = word (to_unsigned u16_mod z)

abbrev pub condition_bytes : AxisCondition → List ℕ → List ℕ
condition_bytes c rest =
    word c.right_saturation
    ++ (word c.left_saturation
        ++ (signed_word c.right_coeff
            ++ (signed_word c.left_coeff ++ (word c.deadband ++ (signed_word c.center ++ rest)))))

-- The union's bytes, `rest` being those that nobody reads.
abbrev pub union_bytes : UploadedForce → List ℕ → List ℕ
union_bytes (rumble_force strong weak) rest = word strong ++ (word weak ++ rest)
union_bytes (constant_force level) rest = signed_word level ++ rest
union_bytes (periodic_force waveform period magnitude) rest =
    word waveform ++ (word period ++ (signed_word magnitude ++ rest))
union_bytes (ramp_force first last) rest = signed_word first ++ (signed_word last ++ rest)
union_bytes (condition_force resistance x y) rest = condition_bytes x (condition_bytes y rest)

-- The whole structure with a type, with two bytes of padding before the union.
abbrev pub typed_bytes : ℕ → UploadedEffect → List ℕ → List ℕ
typed_bytes type e rest =
    word type
    ++ (signed_word e.id
        ++ (word e.direction
            ++ (word e.button
                ++ (word e.interval
                    ++ (word e.replay_length
                        ++ (word e.replay_delay ++ (word 0 ++ union_bytes e.force rest)))))))

abbrev pub effect_bytes : UploadedEffect → List ℕ → List ℕ
effect_bytes e = typed_bytes (type_code e.force) e

-- A level is signed, and 32767 is the highest; a motor's strength goes to twice that.
abbrev pub loudness : ℤ → ℕ
loudness level = 2 * min 32767 (max (pos_part level) (neg_part level))

-- The strongest of a condition's saturations and coefficients.
abbrev pub hardest : AxisCondition → ℕ
hardest c =
    max (max c.right_saturation c.left_saturation)
      (max (loudness c.right_coeff) (loudness c.left_coeff))

-- The strengths of the strong motor and of the weak one.
abbrev pub asked : UploadedForce → ℕ × ℕ
asked (rumble_force strong weak) = (strong, weak)
asked (constant_force level) = (loudness level, loudness level)
asked (periodic_force waveform period magnitude) = (loudness magnitude, loudness magnitude)
asked (ramp_force first last) =
    (max (loudness first) (loudness last), max (loudness first) (loudness last))
asked (condition_force resistance x y) = (hardest x, hardest y)

-- The fields that are read lie in the range of their C types.
abbrev pub IsCondition : AxisCondition → Type 0
IsCondition c =
    (c.right_saturation < 2 ^ 16)
    × (c.left_saturation < 2 ^ 16)
    × IsS16 c.right_coeff
    × IsS16 c.left_coeff

abbrev pub IsForce : UploadedForce → Type 0
IsForce (rumble_force strong weak) = (strong < 2 ^ 16) × (weak < 2 ^ 16)
IsForce (constant_force level) = IsS16 level
IsForce (periodic_force waveform period magnitude) = IsS16 magnitude
IsForce (ramp_force first last) = IsS16 first × IsS16 last
IsForce (condition_force resistance x y) = IsCondition x × IsCondition y

pub record IsUploaded (e : UploadedEffect) : Type 0 where
  pub id_fits : IsS16 e.id
  pub length_fits : e.replay_length < 2 ^ 16
  pub force_fits : IsForce e.force

scaled_abs-loudness : (level : ℤ) → scaled_abs level ≡ loudness level
unfolding scaled_abs
scaled_abs-loudness (pos n) = ground arith
scaled_abs-loudness (negsuc n) = ground arith

strongest : (a b c d : ℕ) → stronger (stronger (stronger a b) c) d ≡ max (max a b) (max c d)
strongest a b c d = ground arith

louder : (a b : ℕ) → (if ltb b a then a else b) ≡ max a b
louder a b = ground arith

hardest_strength :
    (c : Condition) (rc lc : ℤ) (a b : ℕ)
    → c.right_saturation ≡ a
    → c.left_saturation ≡ b
    → c.right_coeff ≡ rc
    → c.left_coeff ≡ lc
    → condition_strength c ≡ max (max a b) (max (loudness rc) (loudness lc))
unfolding condition_strength
hardest_strength c rc lc a b ea eb erc elc =
    rw (ea, eb, erc, elc, scaled_abs-loudness rc, scaled_abs-loudness lc)
      (strongest a b (loudness rc) (loudness lc))

signed_read :
    (z : ℤ)
    → IsS16 z
    → to_signed u16_mod
        (to_unsigned u16_mod z % 256 + 256 * (to_unsigned u16_mod z / 256 % 256 + 256 * 0))
      ≡ z
signed_read z h =
    ap (to_signed u16_mod) (word_read (to_unsigned u16_mod z) (to_unsigned-lt_u16 z))
    ∙ cast_s16-of_IsS16 z h

conditions_read :
    (type : ℕ) (e : UploadedEffect) (resistance : Resistance) (x y : AxisCondition) (rest : List ℕ)
    → IsCondition x
    → IsCondition y
    → let mem = typed_bytes type (record e { force = condition_force resistance x y }) rest in
      magnitudes (condition (condition_at mem 16) (condition_at mem 28))
      ≡ some (hardest x, hardest y)
unfolding magnitudes condition_at le_bytes read_le
conditions_read type e resistance x y rest (xr, xl, xrc, xlc) (yr, yl, yrc, ylc) =
    ap₂ (λ (m n : ℕ). some (m, n))
      (hardest_strength _ x.right_coeff x.left_coeff x.right_saturation x.left_saturation
        (word_read x.right_saturation xr) (word_read x.left_saturation xl)
        (signed_read x.right_coeff xrc) (signed_read x.left_coeff xlc))
      (hardest_strength _ y.right_coeff y.left_coeff y.right_saturation y.left_saturation
        (word_read y.right_saturation yr) (word_read y.left_saturation yl)
        (signed_read y.right_coeff yrc) (signed_read y.left_coeff ylc))

pub force_at-effect_bytes :
    (e : UploadedEffect) (rest : List ℕ)
    → IsForce e.force
    → magnitudes (force_at (effect_bytes e rest)) ≡ some (asked e.force)
unfolding magnitudes force_at le_bytes read_le
force_at-effect_bytes e rest v = read e.force v
  where
    read :
        (force : UploadedForce)
        → IsForce force
        → magnitudes (force_at (effect_bytes (record e { force = force }) rest))
          ≡ some (asked force)
    read (rumble_force strong weak) (s, w) = rw (word_read strong s, word_read weak w)
    read (constant_force level) l = rw (
      word_read (to_unsigned u16_mod level) (to_unsigned-lt_u16 level),
      cast_s16-of_IsS16 level l,
      scaled_abs-loudness level,
    )
    read (periodic_force waveform period magnitude) m = rw (
      word_read (to_unsigned u16_mod magnitude) (to_unsigned-lt_u16 magnitude),
      cast_s16-of_IsS16 magnitude m,
      scaled_abs-loudness magnitude,
    )
    read (ramp_force first last) (f, l) =
        rw
          (
            word_read (to_unsigned u16_mod first) (to_unsigned-lt_u16 first),
            word_read (to_unsigned u16_mod last) (to_unsigned-lt_u16 last),
            cast_s16-of_IsS16 first f,
            cast_s16-of_IsS16 last l,
            scaled_abs-loudness first,
            scaled_abs-loudness last,
          )
          (ap (λ (n : ℕ). some (n, n)) (louder (loudness first) (loudness last)))
    read (condition_force spring x y) (u, v) = conditions_read 0x53 e spring x y rest u v
    read (condition_force friction x y) (u, v) = conditions_read 0x54 e friction x y rest u v
    read (condition_force damper x y) (u, v) = conditions_read 0x55 e damper x y rest u v
    read (condition_force inertia x y) (u, v) = conditions_read 0x56 e inertia x y rest u v

pub length_in-effect_bytes :
    (e : UploadedEffect) (rest : List ℕ)
    → IsUploaded e
    → (effect_in (effect_bytes e rest)).replay_length ≡ e.replay_length
unfolding effect_in le_bytes read_le
length_in-effect_bytes e rest v = word_read e.replay_length v.length_fits

pub id_in-effect_bytes :
    (e : UploadedEffect) (rest : List ℕ)
    → IsUploaded e
    → (effect_in (effect_bytes e rest)).id ≡ e.id
unfolding effect_in le_bytes read_le
id_in-effect_bytes e rest v =
    ap (to_signed u16_mod) (word_read (to_unsigned u16_mod e.id) (to_unsigned-lt_u16 e.id))
    ∙ cast_s16-of_IsS16 e.id v.id_fits

hardest_fits : (c : AxisCondition) → IsCondition c → hardest c < 2 ^ 16
hardest_fits c (r, l, rc, lc) = ground arith

-- A force that fits its C types asks for strengths that fit 16 bits.
pub asked_fits :
    (force : UploadedForce)
    → IsForce force
    → ((asked force).0 < 2 ^ 16) × ((asked force).1 < 2 ^ 16)
asked_fits (rumble_force strong weak) v = v
asked_fits (constant_force level) v = (omega arith, omega arith)
asked_fits (periodic_force waveform period magnitude) v = (omega arith, omega arith)
asked_fits (ramp_force first last) v = (omega arith, omega arith)
asked_fits (condition_force resistance x y) (u, v) = (hardest_fits x u, hardest_fits y v)
