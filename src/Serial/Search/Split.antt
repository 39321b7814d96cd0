-- ===== src/Serial/Search/Split.antt =====
-- Cutting a byte string at the first occurrence of a marker: what stands before it and what
-- follows it, and how the search goes on over a concatenation.
use Prim.Native.Nat.add
use apeiron.Base.{
  ℕ, zero, suc, ◌+◌, ◌≤◌, ◌≡◌, refl, ◌∙◌, inl, inr, true, false, Option, none, some, [], ◌∷◌, ◌++◌,
  arith, if◌then◌else◌, length, take, drop, map_option, Bytes, Lacks, Bool-cases,
}
use apeiron.Serial.Search.Find.{starts_with, find}

-- What follows the first `w`.
unfoldable pub after : Bytes → Bytes → Option Bytes
after w [] = none
after w (x ∷ xs) = if starts_with w (x ∷ xs) then some (drop (length w) (x ∷ xs)) else after w xs

-- What stands before the first `w`.
unfoldable pub before : Bytes → Bytes → Option Bytes
before w [] = none
before w (x ∷ xs) =
    if starts_with w (x ∷ xs) then some [] else map_option (λ t. x ∷ t) (before w xs)

starts_with-le : (w xs : Bytes) → starts_with w xs ≡ true → length w ≤ length xs
unfolding starts_with
starts_with-le [] xs h = omega arith
starts_with-le (c ∷ w) [] h = cc
starts_with-le (c ∷ w) (x ∷ xs) h = ground (arith, starts_with-le w xs)

-- A place that is found leaves room for the marker.
pub find_bounds : (w xs : Bytes) (n : ℕ) → find w xs ≡ some n → n + length w ≤ length xs
unfolding find
find_bounds w [] n h = cc
find_bounds w (x ∷ xs) zero h = ground (arith, starts_with-le w (x ∷ xs))
find_bounds w (x ∷ xs) (suc n) h = ground (arith, find_bounds w xs n)

drop-shift :
    (k : ℕ) (x : ℕ) (xs : Bytes) (o : Option ℕ)
    → map_option (λ n. drop (n + k) (x ∷ xs)) (map_option suc o)
      ≡ map_option (λ n. drop (n + k) xs) o
drop-shift k x xs none = refl
drop-shift k x xs (some n) = rw (add.suc n k)

pub after-find : (w xs : Bytes) → after w xs ≡ map_option (λ n. drop (n + length w) xs) (find w xs)
unfolding after find
after-find w [] = refl
after-find w (x ∷ xs) = elim (Bool-cases (starts_with w (x ∷ xs))) [
  | inl e ↦ rw (e, add.zero (length w))
  | inr e ↦ rw (e, drop-shift (length w) x xs (find w xs), after-find w xs)
]

pub before-find : (w xs : Bytes) → before w xs ≡ map_option (λ n. take n xs) (find w xs)
unfolding before find
before-find w [] = refl
before-find w (x ∷ xs) = ground (arith, before-find w xs)

starts_with-Lacks : (v w xs : Bytes) (c : ℕ) → Lacks c xs → starts_with (v ++ c ∷ w) xs ≡ false
unfolding starts_with
starts_with-Lacks [] w [] c h = refl
starts_with-Lacks [] w (x ∷ xs) c h = ground arith
starts_with-Lacks (d ∷ v) w [] c h = refl
starts_with-Lacks (d ∷ v) w (x ∷ xs) c h = ground (arith, starts_with-Lacks v w xs c)

-- A marker does not begin in a text that lacks one of its bytes.
pub find-Lacks : (v w xs : Bytes) (c : ℕ) → Lacks c xs → find (v ++ c ∷ w) xs ≡ none
unfolding find
find-Lacks v w [] c h = refl
find-Lacks v w (x ∷ xs) c (hx, h) =
    rw (starts_with-Lacks v w (x ∷ xs) c (hx, h), find-Lacks v w xs c h)

starts_with-append :
    (w a b : Bytes) (c : ℕ) → Lacks c w → starts_with w (a ++ c ∷ b) ≡ starts_with w a
unfolding starts_with
starts_with-append [] a b c h = refl
starts_with-append (d ∷ w) [] b c h = ground arith
starts_with-append (d ∷ w) (x ∷ a) b c h = ground (arith, starts_with-append w a b c)

find-none_head : (w xs : Bytes) (x : ℕ) → find w (x ∷ xs) ≡ none → starts_with w (x ∷ xs) ≡ false
unfolding find
find-none_head w xs x h = ground arith

find-none_tail : (w xs : Bytes) (x : ℕ) → find w (x ∷ xs) ≡ none → find w xs ≡ none
unfolding find
find-none_tail w xs x h = ground arith

starts_with_seam :
    (c : ℕ) (w a b : Bytes) (x : ℕ)
    → Lacks c w
    → starts_with (c ∷ w) (x ∷ a) ≡ false
    → starts_with (c ∷ w) (x ∷ a ++ c ∷ b) ≡ false
unfolding starts_with
starts_with_seam c w a b x h e = ground (arith, starts_with-append w a b c h)

after_past : (x : ℕ) (xs w : Bytes) → starts_with w (x ∷ xs) ≡ false → after w (x ∷ xs) ≡ after w xs
unfolding after
after_past x xs w e = rw e

before_past :
    (x : ℕ) (xs w : Bytes)
    → starts_with w (x ∷ xs) ≡ false
    → before w (x ∷ xs) ≡ map_option (λ t. x ∷ t) (before w xs)
unfolding before
before_past x xs w e = rw e

map-map_cons :
    (x : ℕ) (a : Bytes) (o : Option Bytes)
    → map_option (λ t. x ∷ t) (map_option (λ t. a ++ t) o) ≡ map_option (λ t. x ∷ a ++ t) o
map-map_cons x a none = refl
map-map_cons x a (some t) = refl

map_id : (o : Option Bytes) → o ≡ map_option (λ t. t) o
map_id none = refl
map_id (some t) = refl

-- A marker whose first byte occurs in it only once is not read across the seam between a text and
-- one that begins with that byte: the search goes on in the second text.
pub after-append :
    (c : ℕ) (w a b : Bytes)
    → Lacks c w
    → find (c ∷ w) a ≡ none
    → after (c ∷ w) (a ++ c ∷ b) ≡ after (c ∷ w) (c ∷ b)
after-append c w [] b h e = refl
after-append c w (x ∷ a) b h e =
    after_past x (a ++ c ∷ b) (c ∷ w) (starts_with_seam c w a b x h (find-none_head (c ∷ w) a x e))
    ∙ after-append c w a b h (find-none_tail (c ∷ w) a x e)

pub before-append :
    (c : ℕ) (w a b : Bytes)
    → Lacks c w
    → find (c ∷ w) a ≡ none
    → before (c ∷ w) (a ++ c ∷ b) ≡ map_option (λ t. a ++ t) (before (c ∷ w) (c ∷ b))
before-append c w [] b h e = map_id (before (c ∷ w) (c ∷ b))
before-append c w (x ∷ a) b h e =
    rw
      (
        before_past x (a ++ c ∷ b) (c ∷ w)
            (starts_with_seam c w a b x h (find-none_head (c ∷ w) a x e)),
        before-append c w a b h (find-none_tail (c ∷ w) a x e),
      )
      (map-map_cons x a (before (c ∷ w) (c ∷ b)))
