-- ===== src/Core/Id/Hex.antt =====
-- The hexadecimal print of a content hash.
use apeiron.Base.{
  ℕ, ◌+◌, ◌-◌, ◌*◌, ◌/◌, ◌%◌, ◌≤◌, ◌<◌, ◌≡◌, refl, ◌⊎◌, ◌∷◌, [], arith, ltb, if◌then◌else◌, length,
  Bytes, Text, All,
}
use apeiron.Core.Id.{ContentHash, hex_digit, hex_bytes, display_hash}

-- A SHA-256 value: 32 bytes.
pub record IsHash (hash : ContentHash) : Type 0 where
  pub size : length hash.bytes ≡ 32
  pub range : All (λ b. b < 256) hash.bytes

abbrev pub IsHexDigit : ℕ → Type 0
IsHexDigit c = ((b'0' ≤ c) × (c ≤ b'9')) ⊎ ((b'a' ≤ c) × (c ≤ b'f'))

hex_digit-IsHexDigit : (d : ℕ) → d < 16 → IsHexDigit (hex_digit d)
unfolding hex_digit
hex_digit-IsHexDigit d h = ground arith

hex_bytes-IsHexDigit : (bs : Bytes) → All (λ b. b < 256) bs → All IsHexDigit (hex_bytes bs)
unfolding hex_bytes
hex_bytes-IsHexDigit [] h = tt
hex_bytes-IsHexDigit (b ∷ bs) (hb, h) = (
  hex_digit-IsHexDigit (b / 16) (omega arith),
  (hex_digit-IsHexDigit (b % 16) (omega arith), hex_bytes-IsHexDigit bs h),
)

length-hex_bytes : (bs : Bytes) → length (hex_bytes bs) ≡ 2 * length bs
unfolding hex_bytes
length-hex_bytes [] = omega arith
length-hex_bytes (b ∷ bs) = omega (arith, length-hex_bytes bs)

-- The print of a content hash of 32 bytes is 64 characters, each a lower-case hexadecimal digit.
pub display_hash-IsHex :
    (hash : ContentHash)
    → IsHash hash
    → (length (display_hash hash) ≡ 64) × All IsHexDigit (display_hash hash)
unfolding display_hash
display_hash-IsHex hash h =
    (omega (arith, length-hex_bytes hash.bytes), hex_bytes-IsHexDigit hash.bytes h.range)

digit_value : ℕ → ℕ
digit_value c = if ltb c b'a' then c - b'0' else c - b'a' + 10

read_hex : Text → Bytes
unfolding digit_value
read_hex [] = []
read_hex (c ∷ []) = []
read_hex (c ∷ d ∷ s) = (digit_value c * 16 + digit_value d) ∷ read_hex s

digit_value-hex_digit : (d : ℕ) → d < 16 → digit_value (hex_digit d) ≡ d
unfolding digit_value hex_digit
digit_value-hex_digit d h = ground arith

read-hex_bytes : (bs : Bytes) → All (λ b. b < 256) bs → read_hex (hex_bytes bs) ≡ bs
unfolding read_hex hex_bytes
read-hex_bytes [] h = refl
read-hex_bytes (b ∷ bs) (hb, h) = ground (arith, read-hex_bytes bs h)

-- Two content hashes of 32 bytes that print alike are equal.
pub display_hash-injective :
    (a b : ContentHash) → IsHash a → IsHash b → display_hash a ≡ display_hash b → a ≡ b
unfolding display_hash
display_hash-injective a b ha hb e =
    let ea = read-hex_bytes a.bytes ha.range in
    let eb = read-hex_bytes b.bytes hb.range in
    let same : a.bytes ≡ b.bytes = cc (ea, eb) in λ i. record { bytes = same i }
