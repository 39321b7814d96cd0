-- ===== src/Serial/Search/Find.antt =====
-- The search for a marker, described with no windows and no indices, and the proof that the
-- search by `windows` and `position` is this one.
use apeiron.Base.{
  ℕ, suc, ◌≤◌, ◌<◌, ◌≡◌, ◌≢◌, refl, inl, inr, Bool, true, false, ◌&&◌, Option, none, some, [], ◌∷◌,
  arith, ◌==◌, if◌then◌else◌, length, take, map_option, Bytes, text_eq, lt→leb, le→leb, le-cases,
  ==_iff,
}
use apeiron.Serial.Search.{windows, position}

-- Whether `xs` begins with the bytes of `w`.
unfoldable pub starts_with : Bytes → Bytes → Bool
starts_with [] xs = true
starts_with (c ∷ w) [] = false
starts_with (c ∷ w) (x ∷ xs) = c == x && starts_with w xs

-- The first place at which `w` is read.
unfoldable pub find : Bytes → Bytes → Option ℕ
find w [] = none
find w (x ∷ xs) = if starts_with w (x ∷ xs) then some 0 else map_option suc (find w xs)

starts_with_short : (w xs : Bytes) → length xs < length w → starts_with w xs ≡ false
unfolding starts_with
starts_with_short [] xs h = absurd (omega arith)
starts_with_short (c ∷ w) [] h = refl
starts_with_short (c ∷ w) (x ∷ xs) h = ground (arith, starts_with_short w xs (omega arith))

find_short : (w xs : Bytes) → length xs < length w → find w xs ≡ none
unfolding find
find_short w [] h = refl
find_short w (x ∷ xs) h = rw (starts_with_short w (x ∷ xs) h, find_short w xs (omega arith))

text_eq-take :
    (w xs : Bytes) → length w ≤ length xs → text_eq (take (length w) xs) w ≡ starts_with w xs
unfolding text_eq starts_with
text_eq-take [] xs h = refl
text_eq-take (c ∷ w) [] h = absurd (omega arith)
text_eq-take (c ∷ w) (x ∷ xs) h =
    ground (arith, text_eq-take w xs (omega arith), ==_iff x c, ==_iff c x)

-- The search through the windows of a marker's length is `find`.
pub position-windows :
    (w xs : Bytes) → w ≢ [] → position (λ v. text_eq v w) (windows (length w) xs) ≡ find w xs
unfolding position windows find
position-windows w [] h = refl
position-windows w (x ∷ xs) h = elim (le-cases (length w) (length (x ∷ xs))) [
  | inl fits ↦ rw (le→leb _ _ fits, text_eq-take w (x ∷ xs) fits, position-windows w xs h) refl
  | inr short ↦
      rw (lt→leb _ _ short, starts_with_short w (x ∷ xs) short, find_short w xs (omega arith)) refl
]
