-- ===== src/Std/Decimal/RoundTrip.antt =====
-- A number is read back from its decimal print, and what is read is an `i32`.
use mathlib.Core.Path.{subst}
use apeiron.Base.{
  ℕ, zero, suc, ◌+◌, ◌-◌, ◌*◌, ◌/◌, ◌%◌, ◌^◌, ◌≤◌, ◌<◌, ◌≡◌, refl, ◌∙◌, ◌||◌, ◌++◌, Option, none,
  some, [], ◌∷◌, arith, ltb, ◌==◌, map_option, Text, All, inl, inr, ◌⊎◌, true, false, if◌then◌else◌,
  Bool-cases,
}
use apeiron.Base.Int.{ℤ, pos, negsuc, negate, IsI32}
use apeiron.Std.Decimal.{digits, show_ℕ, show_i32, scan, magnitude, parse_i32}

scan-digits :
    (fuel limit n : ℕ) (acc : Text)
    → n < fuel
    → n ≤ limit
    → scan limit 0 (digits fuel n acc) ≡ scan limit n acc
unfolding scan digits
scan-digits zero limit n acc h fits = absurd (omega arith)
scan-digits (suc fuel) limit n acc h fits =
    ground (arith, scan-digits fuel limit (n / 10) ((b'0' + n % 10) ∷ acc))

abbrev pub IsDigit : ℕ → Type 0
IsDigit c = (b'0' ≤ c) × (c ≤ b'9')

digits-IsDigit : (fuel n : ℕ) (acc : Text) → All IsDigit acc → All IsDigit (digits fuel n acc)
unfolding digits
digits-IsDigit zero n acc h = h
digits-IsDigit (suc fuel) n acc h =
    ground (arith, digits-IsDigit fuel (n / 10) ((b'0' + n % 10) ∷ acc))

digits-cons : (fuel n d : ℕ) (acc : Text) → (c : ℕ) × (s : Text) × (digits fuel n (d ∷ acc) ≡ c ∷ s)
unfolding digits
digits-cons zero n d acc = (d, acc, refl)
digits-cons (suc fuel) n d acc = elim (Bool-cases (ltb n 10)) [
  | inl e ↦ (b'0' + n % 10, d ∷ acc, rw e)
  | inr e ↦ rw e (digits-cons fuel (n / 10) (b'0' + n % 10) (d ∷ acc))
]

pub show_ℕ-IsDigit : (n : ℕ) → All IsDigit (show_ℕ n)
unfolding show_ℕ
show_ℕ-IsDigit n = digits-IsDigit (suc n) n [] tt

abbrev IsSome-cons : Text → Type 0
IsSome-cons t = (c : ℕ) × (s : Text) × (t ≡ c ∷ s)

show_ℕ-cons : (n : ℕ) → IsSome-cons (show_ℕ n)
unfolding show_ℕ digits
show_ℕ-cons n = elim (Bool-cases (ltb n 10)) [
  | inl e ↦ (b'0' + n % 10, [], rw e)
  | inr e ↦ rw e (digits-cons n (n / 10) (b'0' + n % 10) [])
]

magnitude-show_ℕ : (limit n : ℕ) → n ≤ limit → magnitude limit (show_ℕ n) ≡ some n
unfolding magnitude show_ℕ
magnitude-show_ℕ limit n h =
    let (c, s, e) = show_ℕ-cons n in
    ground (arith, e, scan-digits (suc n) limit n [] (omega arith) h)

-- Digits with no sign are a value that is not negative.
parse_i32-digits :
    (c : ℕ) (s : Text)
    → IsDigit c
    → parse_i32 (c ∷ s) ≡ map_option pos (magnitude (2 ^ 31 - 1) (c ∷ s))
unfolding parse_i32
parse_i32-digits c s h = ground arith

show_i32-pos : (n : ℕ) → show_i32 (pos n) ≡ show_ℕ n
unfolding show_i32
show_i32-pos n = refl

show_i32-negsuc : (n : ℕ) → show_i32 (negsuc n) ≡ b'-' ∷ show_ℕ (suc n)
unfolding show_i32
show_i32-negsuc n = refl

parse_i32-show_ℕ : (n : ℕ) → n < 2 ^ 31 → parse_i32 (show_ℕ n) ≡ some (pos n)
parse_i32-show_ℕ n h =
    let (c, s, e) = show_ℕ-cons n in
    let d : All IsDigit (c ∷ s) = subst (All IsDigit) e (show_ℕ-IsDigit n) in
    cc (e, parse_i32-digits c s d.0, magnitude-show_ℕ (2 ^ 31 - 1) n (omega arith))

parse_i32_minus : (s : Text) → parse_i32 (b'-' ∷ s) ≡ map_option negate (magnitude (2 ^ 31) s)
unfolding parse_i32
parse_i32_minus s = refl

-- Every `i32` is read back from its print.
pub parse_i32-show_i32 : (v : ℤ) → IsI32 v → parse_i32 (show_i32 v) ≡ some v
parse_i32-show_i32 (pos n) h = rw show_i32-pos (parse_i32-show_ℕ n h)
parse_i32-show_i32 (negsuc n) h =
    rw (show_i32-negsuc, parse_i32_minus, magnitude-show_ℕ (2 ^ 31) (suc n) (omega arith))

scan_bound :
    (limit acc : ℕ) (s : Text) (n : ℕ) → acc ≤ limit → scan limit acc s ≡ some n → n ≤ limit
unfolding scan
scan_bound limit acc [] n h e = ground arith
scan_bound limit acc (c ∷ s) n h e = ground (arith, scan_bound limit (acc * 10 + (c - b'0')) s n)

magnitude_bound : (limit : ℕ) (s : Text) (n : ℕ) → magnitude limit s ≡ some n → n ≤ limit
unfolding magnitude
magnitude_bound limit [] n e = cc
magnitude_bound limit (c ∷ s) n e = scan_bound limit 0 (c ∷ s) n (omega arith) e

negate-IsI32 : (n : ℕ) → n ≤ 2 ^ 31 → IsI32 (negate n)
negate-IsI32 zero h = omega arith
negate-IsI32 (suc n) h = omega arith

map-negate-IsI32 :
    (o : Option ℕ) (v : ℤ)
    → ((n : ℕ) → o ≡ some n → n ≤ 2 ^ 31)
    → map_option negate o ≡ some v
    → IsI32 v
map-negate-IsI32 none v h e = cc
map-negate-IsI32 (some n) v h e =
    let q : negate n ≡ v = cc in subst IsI32 q (negate-IsI32 n (h n refl))

map-pos-IsI32 :
    (o : Option ℕ) (v : ℤ)
    → ((n : ℕ) → o ≡ some n → n ≤ 2 ^ 31 - 1)
    → map_option pos o ≡ some v
    → IsI32 v
map-pos-IsI32 none v h e = cc
map-pos-IsI32 (some n) v h e =
    let k = h n refl in let q : pos n ≡ v = cc in subst IsI32 q (omega arith)

-- What is read is an `i32`: a text past its range is refused, and nothing wraps around.
pub parse_i32-IsI32 : (s : Text) (v : ℤ) → parse_i32 s ≡ some v → IsI32 v
unfolding parse_i32
parse_i32-IsI32 [] v e = cc
parse_i32-IsI32 (c ∷ s) v e = elim (Bool-cases (c == b'-')) [
  | inl m ↦ map-negate-IsI32 _ v (magnitude_bound (2 ^ 31) s) (rw m at e)
  | inr m ↦ parse_unsigned (Bool-cases (c == b'+')) (rw m at e)
]
  where
    parse_unsigned :
        ((c == b'+') ≡ true) ⊎ ((c == b'+') ≡ false)
        → (if c == b'+'
            then map_option pos (magnitude (2 ^ 31 - 1) s)
            else map_option pos (magnitude (2 ^ 31 - 1) (c ∷ s)))
          ≡ some v
        → IsI32 v
    parse_unsigned (inl p) e' = map-pos-IsI32 _ v (magnitude_bound (2 ^ 31 - 1) s) (rw p at e')
    parse_unsigned (inr p) e' =
        map-pos-IsI32 _ v (magnitude_bound (2 ^ 31 - 1) (c ∷ s)) (rw p at e')

digits-visible : (s : Text) → All IsDigit s → All (λ c. (32 < c) × (c < 127)) s
digits-visible [] h = tt
digits-visible (c ∷ s) (hc, h) = (ground arith, digits-visible s h)

-- The print of an `i32` is made of visible ASCII characters.
pub show_i32-visible : (v : ℤ) → All (λ c. (32 < c) × (c < 127)) (show_i32 v)
show_i32-visible (pos n) = rw show_i32-pos (digits-visible _ (show_ℕ-IsDigit n))
show_i32-visible (negsuc n) =
    rw show_i32-negsuc (omega arith, digits-visible _ (show_ℕ-IsDigit (suc n)))

-- A reader of the digits at the front of a text: their value after `acc`, and what follows them.
pub read_number : ℕ → Text → ℕ
read_number acc [] = acc
read_number acc (c ∷ s) =
    let more = read_number (acc * 10 + (c - b'0')) s in
    if ltb c b'0' || ltb b'9' c then acc else more

pub rest_of : Text → Text
rest_of [] = []
rest_of (c ∷ s) = if ltb c b'0' || ltb b'9' c then c ∷ s else rest_of s

-- What follows a number: nothing, or a character that is no digit.
abbrev pub NoDigitFirst : Text → Type 0
NoDigitFirst [] = Unit
NoDigitFirst (c ∷ s) = (ltb c b'0' || ltb b'9' c) ≡ true

read_number-digits :
    (fuel n : ℕ) (acc rest : Text)
    → n < fuel
    → read_number 0 (digits fuel n acc ++ rest) ≡ read_number n (acc ++ rest)
unfolding read_number digits
read_number-digits zero n acc rest h = absurd (omega arith)
read_number-digits (suc fuel) n acc rest h =
    ground (arith, read_number-digits fuel (n / 10) ((b'0' + n % 10) ∷ acc) rest)

read_number_stop : (n : ℕ) (rest : Text) → NoDigitFirst rest → read_number n rest ≡ n
unfolding read_number
read_number_stop n [] h = refl
read_number_stop n (c ∷ s) h = rw h

pub read_number-show_ℕ :
    (n : ℕ) (rest : Text) → NoDigitFirst rest → read_number 0 (show_ℕ n ++ rest) ≡ n
unfolding show_ℕ
read_number-show_ℕ n rest h =
    read_number-digits (suc n) n [] rest (omega arith) ∙ read_number_stop n rest h

rest_of-digits : (s rest : Text) → All IsDigit s → NoDigitFirst rest → rest_of (s ++ rest) ≡ rest
unfolding rest_of
rest_of-digits [] [] hs h = refl
rest_of-digits [] (c ∷ rest) hs h = rw h
rest_of-digits (d ∷ s) rest (hd, hs) h = ground (arith, rest_of-digits s rest hs h)

pub rest_of-show_ℕ : (n : ℕ) (rest : Text) → NoDigitFirst rest → rest_of (show_ℕ n ++ rest) ≡ rest
rest_of-show_ℕ n rest h = rest_of-digits (show_ℕ n) rest (show_ℕ-IsDigit n) h
