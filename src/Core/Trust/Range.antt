-- ===== src/Core/Trust/Range.antt =====
-- Which floating-point numbers are trust scores.
use apeiron.Base.{◌^◌, ◌<◌, ◌≡◌, ◌||◌, arith, leb, ◌==◌, if◌then◌else◌}
use apeiron.Core.CoreError.{invalid_trust_score}
use apeiron.Core.Trust.{F64, f64_one, ok, err, new_trust_score}

-- The pattern of -0.0.
abbrev pub negative_zero : F64
negative_zero = 2 ^ 63

-- Of the 64-bit patterns, a trust score is made exactly of those from 0.0 to 1.0, in their order
-- as numbers, and of -0.0; it keeps the value. Every other `f64` (NaN, infinities, values outside)
-- is refused by an error that names the value.
pub new_trust_score_lem :
    (x : F64)
    → x < 2 ^ 64
    → new_trust_score x ≡ (
        if leb x f64_one || x == negative_zero
        then ok (record { score = x })
        else err (invalid_trust_score x))
unfolding new_trust_score
new_trust_score_lem x h = ground arith
