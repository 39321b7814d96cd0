-- ===== src/Std/Utf8.antt =====
-- `std::str::from_utf8` and `String::from_utf8_lossy`, byte by byte. A `Partial` is what is known
-- of a character that has begun: the bytes still needed, the bits so far, and the range of the
-- next byte, which excludes overlong forms, surrogates and values past U+10FFFF.
pub mod Encode
pub mod RoundTrip
use mathlib.Core.Path.{subst}
use apeiron.Base.{
  ℕ, ◌+◌, ◌-◌, ◌*◌, ◌<◌, ◌≡◌, refl, ap, inl, inr, ◌&&◌, Option, none, some, [], ◌∷◌, ◌++◌, arith,
  leb, ltb, ◌==◌, if◌then◌else◌, map_option, and_then, Bytes, Text, All, Bool-cases, Option-cases,
}

pub record Partial : Type 0 where
  pub needed : ℕ
  pub bits : ℕ
  pub lo : ℕ
  pub hi : ℕ

abbrev pub between : Partial
between = record { needed = 0; bits = 0; lo = 0x80; hi = 0xbf }

abbrev begin : ℕ → ℕ → ℕ → ℕ → Option (Partial × Text)
begin needed bits lo hi = some (record { needed = needed; bits = bits; lo = lo; hi = hi }, [])

-- The first byte of a character.
lead : ℕ → Option (Partial × Text)
lead b =
    if ltb b 0x80
    then some (between, b ∷ [])
    else if ltb b 0xc2
    then none
    else if ltb b 0xe0
    then begin 1 (b - 0xc0) 0x80 0xbf
    else if b == 0xe0
    then begin 2 0 0xa0 0xbf
    else if b == 0xed
    then begin 2 0xd 0x80 0x9f
    else if ltb b 0xf0
    then begin 2 (b - 0xe0) 0x80 0xbf
    else if b == 0xf0
    then begin 3 0 0x90 0xbf
    else if ltb b 0xf4
    then begin 3 (b - 0xf0) 0x80 0xbf
    else if b == 0xf4
    then begin 3 4 0x80 0x8f
    else none

-- A later byte; the character is complete when no more are needed.
continuation : Partial → ℕ → Option (Partial × Text)
continuation p b =
    if leb p.lo b && leb b p.hi
    then (if p.needed == 1
        then some (between, (p.bits * 64 + (b - 0x80)) ∷ [])
        else begin (p.needed - 1) (p.bits * 64 + (b - 0x80)) 0x80 0xbf)
    else none

-- One byte: the state after it and the characters that it completes; `none` if it is not valid.
unfoldable pub utf8_step : Partial → ℕ → Option (Partial × Text)
unfolding lead continuation
utf8_step p b = if p.needed == 0 then lead b else continuation p b

decode : Partial → Bytes → Option Text
decode p [] = if p.needed == 0 then some [] else none
decode p (b ∷ bs) = and_then (utf8_step p b) λ r. map_option (λ t. r.1 ++ t) (decode r.0 bs)

-- `std::str::from_utf8(bytes).ok()`
unfoldable pub from_utf8 : Bytes → Option Text
unfolding decode utf8_step
from_utf8 = decode between

-- `text.len()`: the number of bytes in UTF-8.
unfoldable pub utf8_len : Text → ℕ
utf8_len [] = 0
utf8_len (c ∷ s) =
    (if ltb c 0x80 then 1 else if ltb c 0x800 then 2 else if ltb c 0x1_0000 then 3 else 4)
    + utf8_len s

abbrev pub replacement_character : ℕ
replacement_character = 0xfffd

or_replacement : Option (Partial × Text) → Partial × Text
or_replacement none = (between, replacement_character ∷ [])
or_replacement (some r) = r

-- A byte that cannot go on ends the character as an error and is read anew.
lossy_step : Partial → ℕ → Partial × Text
unfolding or_replacement
lossy_step p b = elim (utf8_step p b) [
  | some r ↦ r
  | none ↦
      if p.needed == 0
      then (between, replacement_character ∷ [])
      else (let r = or_replacement (utf8_step between b) in (r.0, replacement_character ∷ r.1))
]

decode_lossy : Partial → Bytes → Text
decode_lossy p [] = if p.needed == 0 then [] else replacement_character ∷ []
decode_lossy p (b ∷ bs) = let r = lossy_step p b in r.1 ++ decode_lossy r.0 bs

-- `String::from_utf8_lossy(bytes).into_owned()`
unfoldable pub from_utf8_lossy : Bytes → Text
unfolding decode_lossy lossy_step utf8_step
from_utf8_lossy = decode_lossy between

abbrev Agree : Option Text → Text → Type 0
Agree none u = Unit
Agree (some t) u = u ≡ t

Agree-append :
    (s : Text) (o : Option Text) (u : Text)
    → Agree o u
    → Agree (map_option (λ t. s ++ t) o) (s ++ u)
Agree-append s none u h = tt
Agree-append s (some t) u h = ap (λ v. s ++ v) h

lossy_step_valid :
    (p : Partial) (b : ℕ) (r : Partial × Text) → utf8_step p b ≡ some r → lossy_step p b ≡ r
unfolding lossy_step
lossy_step_valid p b r e = rw (e, lossy_step)

decode-Agree : (p : Partial) (bs : Bytes) → Agree (decode p bs) (decode_lossy p bs)
unfolding decode decode_lossy
decode-Agree p [] = elim (Bool-cases (p.needed == 0)) [ inl e ↦ rw e | inr e ↦ rw e tt ]
decode-Agree p (b ∷ bs) = elim (Option-cases (utf8_step p b)) [
  | inl e ↦ rw e tt
  | inr (r, e) ↦
      rw (e, lossy_step_valid p b r e) (Agree-append r.1 (decode r.0 bs) _ (decode-Agree r.0 bs))
]

-- On valid UTF-8 nothing is lost.
pub from_utf8_lossy-from_utf8 :
    (bs : Bytes) (t : Text) → from_utf8 bs ≡ some t → from_utf8_lossy bs ≡ t
unfolding from_utf8 from_utf8_lossy
from_utf8_lossy-from_utf8 bs t h =
    subst (λ o. Agree o (decode_lossy between bs)) h (decode-Agree between bs)

abbrev pub IsAscii : Bytes → Type 0
IsAscii = All (λ b. b < 128)

-- ASCII bytes are their own characters.
pub from_utf8-ascii : (bs : Bytes) → IsAscii bs → from_utf8 bs ≡ some bs
unfolding from_utf8
from_utf8-ascii [] h = refl
from_utf8-ascii (b ∷ bs) (hb, h) = ground (arith, from_utf8-ascii bs h)

decodes_euro : from_utf8 (0xe2 ∷ 0x82 ∷ 0xac ∷ 0x61 ∷ []) ≡ some (0x20ac ∷ 0x61 ∷ [])
unfolding from_utf8
decodes_euro = refl

rejects_overlong : from_utf8 (0xc0 ∷ 0x80 ∷ []) ≡ none
unfolding from_utf8
rejects_overlong = refl

replaces_each_part : from_utf8_lossy (0xe2 ∷ 0x82 ∷ 0x61 ∷ 0xff ∷ []) ≡ 0xfffd ∷ 0x61 ∷ 0xfffd ∷ []
unfolding from_utf8_lossy
replaces_each_part = refl
