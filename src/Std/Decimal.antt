-- ===== src/Std/Decimal.antt =====
-- Decimal numbers: `Display` of the unsigned integers and of `i32`, and `str::parse::<i32>`.
pub mod RoundTrip
use apeiron.Base.{
  ℕ, zero, suc, ◌+◌, ◌-◌, ◌*◌, ◌/◌, ◌%◌, ◌^◌, ◌≡◌, refl, Bool, ◌||◌, Option, none, some, List, [],
  ◌∷◌, ltb, ◌==◌, if◌then◌else◌, map_option, Text, codes,
}
use apeiron.Base.Int.{ℤ, pos, negsuc, negate}

-- The digits of `n` before `acc`, at most `fuel` of them.
digits : ℕ → ℕ → Text → Text
digits zero n acc = acc
digits (suc fuel) n acc =
    let acc' = (b'0' + n % 10) ∷ acc in
    let rest = digits fuel (n / 10) acc' in if ltb n 10 then acc' else rest

-- `Display` of an unsigned integer. A number has at most as many digits as its value plus one.
unfoldable pub show_ℕ : ℕ → Text
unfolding digits
show_ℕ n = digits (suc n) n []

-- `Display` of `i32`
unfoldable pub show_i32 : ℤ → Text
unfolding show_ℕ
show_i32 (pos n) = show_ℕ n
show_i32 (negsuc n) = b'-' ∷ show_ℕ (suc n)

-- The value of digits after `acc`, by checked operations: `none` at another character, and when the
-- value would pass `limit`.
scan : ℕ → ℕ → Text → Option ℕ
scan limit acc [] = some acc
scan limit acc (c ∷ s) =
    let next = acc * 10 + (c - b'0') in
    let rest = scan limit next s in
    if ltb c b'0' || ltb b'9' c then none else if ltb limit next then none else rest

magnitude : ℕ → Text → Option ℕ
unfolding scan
magnitude limit [] = none
magnitude limit (c ∷ s) = scan limit 0 (c ∷ s)

-- `text.parse::<i32>().ok()`
unfoldable pub parse_i32 : Text → Option ℤ
unfolding magnitude
parse_i32 [] = none
parse_i32 (c ∷ s) =
    if c == b'-'
    then map_option negate (magnitude (2 ^ 31) s)
    else if c == b'+'
    then map_option pos (magnitude (2 ^ 31 - 1) s)
    else map_option pos (magnitude (2 ^ 31 - 1) (c ∷ s))

parses_least : parse_i32 (codes "-2147483648") ≡ some (negsuc 2147483647)
unfolding parse_i32
parses_least = refl

rejects_overflow : parse_i32 (codes "2147483648") ≡ none
unfolding parse_i32
rejects_overflow = refl

rejects_sign : parse_i32 (codes "-") ≡ none
unfolding parse_i32
rejects_sign = refl

shows_least : show_i32 (negsuc 2147483647) ≡ codes "-2147483648"
unfolding show_i32
shows_least = refl
