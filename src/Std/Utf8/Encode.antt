-- ===== src/Std/Utf8/Encode.antt =====
-- The bytes of a text in UTF-8, and how many they are.
use apeiron.Base.{
  ℕ, ◌+◌, ◌/◌, ◌%◌, ◌<◌, ◌≤◌, ◌≡◌, refl, ◌⊎◌, [], ◌∷◌, ◌++◌, arith, ltb, if◌then◌else◌, Bytes, Text,
  length,
}
use apeiron.Std.Utf8.{utf8_len}

-- A `char` of Rust: no surrogate.
abbrev pub IsScalar : ℕ → Type 0
IsScalar c = (c < 0xd800) ⊎ ((0xe000 ≤ c) × (c < 0x11_0000))

unfoldable pub encode_char : ℕ → Bytes
encode_char c =
    if ltb c 0x80
    then c ∷ []
    else if ltb c 0x800
    then (0xc0 + c / 64) ∷ (0x80 + c % 64) ∷ []
    else if ltb c 0x1_0000
    then (0xe0 + c / 4096) ∷ (0x80 + c / 64 % 64) ∷ (0x80 + c % 64) ∷ []
    else (0xf0 + c / 262144) ∷ (0x80 + c / 4096 % 64) ∷ (0x80 + c / 64 % 64) ∷ (0x80 + c % 64) ∷ []

unfoldable pub encode : Text → Bytes
encode [] = []
encode (c ∷ s) = encode_char c ++ encode s

pub length-encode : (s : Text) → length (encode s) ≡ utf8_len s
unfolding encode encode_char utf8_len
length-encode [] = refl
length-encode (c ∷ s) = ground (arith, length-encode s)
