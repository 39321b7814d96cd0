-- ===== src/Core/Trust/Version.antt =====
-- The print of a version.
use apeiron.Base.{ℕ, ◌≡◌, refl, sym, ap, ◌∙◌, [], ◌∷◌, append-nil, Text}
use apeiron.Std.Decimal.{show_ℕ}
use apeiron.Std.Decimal.RoundTrip.{read_number, rest_of, read_number-show_ℕ, rest_of-show_ℕ}
use apeiron.Core.Trust.{SemVer, display_version}

skip_dot : Text → Text
skip_dot [] = []
skip_dot (c ∷ s) = s

-- A reader of versions, only to show that the print determines the version.
read_version : Text → SemVer
read_version s =
    let t = skip_dot (rest_of s) in
    record {
      major = read_number 0 s;
      minor = read_number 0 t;
      patch = read_number 0 (skip_dot (rest_of t));
    }

read_number_alone : (n : ℕ) → read_number 0 (show_ℕ n) ≡ n
read_number_alone n = sym (ap (read_number 0) (append-nil (show_ℕ n))) ∙ read_number-show_ℕ n [] tt

read-display_version : (v : SemVer) → read_version (display_version v) ≡ v
unfolding read_version display_version skip_dot
read-display_version v = rw (
  rest_of-show_ℕ v.major _ refl,
  read_number-show_ℕ v.major _ refl,
  rest_of-show_ℕ v.minor _ refl,
  read_number-show_ℕ v.minor _ refl,
  read_number_alone v.patch,
)

-- Two versions that print alike are equal.
pub display_version-injective : (v w : SemVer) → display_version v ≡ display_version w → v ≡ w
display_version-injective v w e = cc (read-display_version v, read-display_version w)
