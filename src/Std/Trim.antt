-- ===== src/Std/Trim.antt =====
-- `str::trim`.
use apeiron.Base.{
  ℕ, ◌<◌, ◌≡◌, refl, Bool, true, false, ◌&&◌, ◌||◌, [], ◌∷◌, arith, leb, ◌==◌, if◌then◌else◌, Text,
  All,
}

-- `char::is_whitespace`: the code points with the Unicode property White_Space.
unfoldable pub is_whitespace : ℕ → Bool
is_whitespace c =
    (leb 9 c && leb c 13)
    || c == 0x20
    || c == 0x85
    || c == 0xa0
    || c == 0x1680
    || (leb 0x2000 c && leb c 0x200a)
    || c == 0x2028
    || c == 0x2029
    || c == 0x202f
    || c == 0x205f
    || c == 0x3000

unfoldable pub trim_start : Text → Text
trim_start [] = []
trim_start (c ∷ s) = if is_whitespace c then trim_start s else c ∷ s

is_empty : Text → Bool
is_empty [] = true
is_empty (c ∷ s) = false

unfoldable pub trim_end : Text → Text
unfolding is_empty
trim_end [] = []
trim_end (c ∷ s) =
    let rest = trim_end s in if is_empty rest && is_whitespace c then [] else c ∷ rest

unfoldable pub trim : Text → Text
unfolding trim_start trim_end is_whitespace
trim s = trim_end (trim_start s)

abbrev HasNoSpace : Text → Type 0
HasNoSpace = All (λ c. is_whitespace c ≡ false)

trim_start_id : (s : Text) → HasNoSpace s → trim_start s ≡ s
unfolding trim_start
trim_start_id [] h = refl
trim_start_id (c ∷ s) h = rw h.0

trim_end_id : (s : Text) → HasNoSpace s → trim_end s ≡ s
unfolding trim_end
trim_end_id [] h = refl
trim_end_id (c ∷ s) h = ground (arith, trim_end_id s h.1)

visible-HasNoSpace : (s : Text) → All (λ c. (32 < c) × (c < 127)) s → HasNoSpace s
unfolding is_whitespace
visible-HasNoSpace [] h = tt
visible-HasNoSpace (c ∷ s) (hc, h) = (ground arith, visible-HasNoSpace s h)

-- Nothing is trimmed from visible ASCII characters.
pub trim_visible : (s : Text) → All (λ c. (32 < c) × (c < 127)) s → trim s ≡ s
unfolding trim
trim_visible s h = let h' = visible-HasNoSpace s h in rw (trim_start_id s h', trim_end_id s h')
