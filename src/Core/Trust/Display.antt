-- ===== src/Core/Trust/Display.antt =====
-- `Display for TrustScore` (forge-core/src/trust.rs): `{:.4}` prints the exact value of an `f64`, rounded
-- to four places; a value in the middle goes to the even digit.
use apeiron.Base.{
  ℕ, ◌+◌, ◌-◌, ◌*◌, ◌/◌, ◌%◌, ◌^◌, ◌≡◌, zero, suc, refl, [], ◌∷◌, ◌++◌, ltb, ◌==◌, if◌then◌else◌,
  Text, codes,
}
use apeiron.Std.Decimal.{show_ℕ}
use apeiron.Core.Trust.{F64, TrustScore, magnitude, is_negative}

-- The biased exponent. The value of a finite number is `mantissa x / 2 ^ shift x`, up to its sign, where
-- it is below 2 ^ 52.
abbrev exponent : F64 → ℕ
exponent x = magnitude x / 2 ^ 52

unfoldable pub mantissa : F64 → ℕ
mantissa x = if exponent x == 0 then magnitude x else 2 ^ 52 + magnitude x % 2 ^ 52

unfoldable pub shift : F64 → ℕ
shift x = if exponent x == 0 then 1074 else 1075 - exponent x

-- The quotient, rounded to the nearest number, and to the even one of two.
unfoldable pub round_half_even : ℕ → ℕ → ℕ
round_half_even n d =
    let q = n / d in
    let r = n % d in
    if ltb (2 * r) d then q else if ltb d (2 * r) then q + 1 else if q % 2 == 0 then q else q + 1

-- How many ten thousandths are printed.
unfoldable pub ten_thousandths : F64 → ℕ
ten_thousandths x = round_half_even (mantissa x * 10000) (2 ^ shift x)

unfoldable pub four_digits : ℕ → Text
four_digits n =
    (b'0' + n / 1000 % 10) ∷ (b'0' + n / 100 % 10) ∷ (b'0' + n / 10 % 10) ∷ (b'0' + n % 10) ∷ []

-- `n / 10000` with its four decimal places.
unfoldable pub show_places : ℕ → Text
show_places n = show_ℕ (n / 10000) ++ b'.' ∷ four_digits n

unfoldable pub display_score : TrustScore → Text
display_score score =
    let places = show_places (ten_thousandths score.score) in
    if is_negative score.score then b'-' ∷ places else places

half : display_score (record { score = 0x3fe0_0000_0000_0000 }) ≡ codes "0.5000"
unfolding display_score show_places ten_thousandths round_half_even mantissa shift four_digits
    show_ℕ
half = refl

tie_to_even : display_score (record { score = 0x3fa0_0000_0000_0000 }) ≡ codes "0.0312"
unfolding display_score show_places ten_thousandths round_half_even mantissa shift four_digits
    show_ℕ
tie_to_even = refl

one : display_score (record { score = 0x3ff0_0000_0000_0000 }) ≡ codes "1.0000"
unfolding display_score show_places ten_thousandths round_half_even mantissa shift four_digits
    show_ℕ
one = refl

least : display_score (record { score = 1 }) ≡ codes "0.0000"
unfolding display_score show_places ten_thousandths round_half_even mantissa shift four_digits
    show_ℕ
least = refl

-- What IEEE 754 says of a number that is finite and not negative, in units of 2 ^ -1074, from its biased
-- exponent and its fraction.
pub value_of : ℕ → ℕ → ℕ
value_of zero fraction = fraction
value_of (suc e) fraction = (2 ^ 52 + fraction) * 2 ^ e
