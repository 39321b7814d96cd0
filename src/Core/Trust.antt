-- ===== src/Core/Trust.antt =====
-- forge-core/src/trust.rs. An `f64` is its IEEE 754 bit pattern, a number below 2 ^ 64; its
-- comparisons are those of the standard.
pub mod Range
pub mod Version
pub mod Display
use apeiron.Base.{
  ℕ, ◌/◌, ◌%◌, ◌^◌, Bool, true, false, not, ◌&&◌, ◌||◌, [], ◌∷◌, ◌++◌, ltb, leb, ◌==◌,
  if◌then◌else◌, Text,
}
use apeiron.Core.CoreError.{CoreError, invalid_trust_score}
use apeiron.Std.Decimal.{show_ℕ}

pub record SemVer : Type 0 where
  pub major : ℕ
  pub minor : ℕ
  pub patch : ℕ

abbrev pub new_sem_ver : ℕ → ℕ → ℕ → SemVer
new_sem_ver major minor patch = record { major = major; minor = minor; patch = patch }

-- `Display for SemVer`: `{}.{}.{}`
unfoldable pub display_version : SemVer → Text
display_version v = show_ℕ v.major ++ b'.' ∷ (show_ℕ v.minor ++ b'.' ∷ show_ℕ v.patch)

pub data TrustLevel : Type 0 where
  level_zero level_one level_two level_three : TrustLevel

abbrev pub F64 : Type 0
F64 = ℕ

-- All bits but the sign.
abbrev pub magnitude : F64 → ℕ
magnitude x = x % 2 ^ 63

abbrev pub is_negative : F64 → Bool
is_negative x = x / 2 ^ 63 == 1

-- Past the pattern of infinity.
unfoldable pub is_nan : F64 → Bool
is_nan x = ltb 0x7ff0_0000_0000_0000 (magnitude x)

-- `<=` on `f64`: false at a NaN, and the two zeros are equal.
unfoldable pub le_f64 : F64 → F64 → Bool
unfolding is_nan
le_f64 x y =
    if is_nan x || is_nan y
    then false
    else if is_negative x
    then (if is_negative y then leb (magnitude y) (magnitude x) else true)
    else if is_negative y
    then magnitude x == 0 && magnitude y == 0
    else leb (magnitude x) (magnitude y)

abbrev pub f64_zero : F64
f64_zero = 0

abbrev pub f64_one : F64
f64_one = 0x3ff0_0000_0000_0000

pub record TrustScore : Type 0 where
  pub score : F64

pub data Checked {ℓ} (A : Type ℓ) : Type ℓ where
  ok : A → Checked A
  err : CoreError → Checked A

-- `(0.0..=1.0).contains(&value)`
unfoldable pub in_unit_range : F64 → Bool
unfolding le_f64
in_unit_range value = le_f64 f64_zero value && le_f64 value f64_one

unfoldable pub new_trust_score : F64 → Checked TrustScore
unfolding is_nan in_unit_range
new_trust_score value =
    if is_nan value || not (in_unit_range value)
    then err (invalid_trust_score value)
    else ok (record { score = value })

-- `value`
unfoldable pub trust_value : TrustScore → F64
trust_value score = score.score

-- `TryFrom<f64> for TrustScore`
unfoldable pub try_from : F64 → Checked TrustScore
try_from value = new_trust_score value
