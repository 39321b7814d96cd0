-- ===== src/Std/BTreeSet.antt =====
-- `std::collections::BTreeSet` of numbers: an ascending list.
use apeiron.Base.{
  ℕ, ◌+◌, ◌<◌, ◌≡◌, refl, Bool, true, false, not, ◌&&◌, ◌||◌, List, [], ◌∷◌, arith, ltb, ◌==◌,
  if◌then◌else◌, length, All,
}

unfoldable pub insert : ℕ → List ℕ → List ℕ
insert a [] = a ∷ []
insert a (x ∷ xs) = if ltb a x then a ∷ x ∷ xs else if a == x then x ∷ xs else x ∷ insert a xs

unfoldable pub remove : ℕ → List ℕ → List ℕ
remove a [] = []
remove a (x ∷ xs) = if a == x then xs else x ∷ remove a xs

unfoldable pub contains : ℕ → List ℕ → Bool
contains a [] = false
contains a (x ∷ xs) = a == x || contains a xs

abbrev pub IsAscending : List ℕ → Type 0
IsAscending [] = Unit
IsAscending (x ∷ xs) = All (λ y. x < y) xs × IsAscending xs

pub contains-insert : (j a : ℕ) (xs : List ℕ) → contains j (insert a xs) ≡ (j == a || contains j xs)
unfolding contains insert
contains-insert j a [] = refl
contains-insert j a (x ∷ xs) = ground (arith, contains-insert j a xs)

All-lt_trans : (x y : ℕ) (xs : List ℕ) → x < y → All (λ z. y < z) xs → All (λ z. x < z) xs
All-lt_trans x y [] h k = tt
All-lt_trans x y (z ∷ xs) h (k, ks) = (omega arith, All-lt_trans x y xs h ks)

not-contains_above : (a : ℕ) (xs : List ℕ) → All (λ y. a < y) xs → contains a xs ≡ false
unfolding contains
not-contains_above a [] h = refl
not-contains_above a (x ∷ xs) (h, hs) = ground (arith, not-contains_above a xs hs)

pub contains-remove :
    (j a : ℕ) (xs : List ℕ)
    → IsAscending xs
    → contains j (remove a xs) ≡ (not (j == a) && contains j xs)
unfolding contains remove
contains-remove j a [] h = ground arith
contains-remove j a (x ∷ xs) (hx, h) =
    ground (arith, contains-remove j a xs h, not-contains_above x xs hx, not-contains_above j xs)

All-insert : (x a : ℕ) (xs : List ℕ) → x < a → All (λ y. x < y) xs → All (λ y. x < y) (insert a xs)
unfolding insert
All-insert x a [] h k = (h, tt)
All-insert x a (y ∷ xs) h (ky, k) = ground (arith, All-insert x a xs h k)

All-remove : (x a : ℕ) (xs : List ℕ) → All (λ y. x < y) xs → All (λ y. x < y) (remove a xs)
unfolding remove
All-remove x a [] k = tt
All-remove x a (y ∷ xs) (ky, k) = ground (arith, All-remove x a xs k)

pub insert-IsAscending : (a : ℕ) (xs : List ℕ) → IsAscending xs → IsAscending (insert a xs)
unfolding insert
insert-IsAscending a [] h = (tt, tt)
insert-IsAscending a (x ∷ xs) (hx, h) =
    ground (arith, insert-IsAscending a xs h, All-insert x a xs, All-lt_trans a x xs)

pub remove-IsAscending : (a : ℕ) (xs : List ℕ) → IsAscending xs → IsAscending (remove a xs)
unfolding remove
remove-IsAscending a [] h = tt
remove-IsAscending a (x ∷ xs) (hx, h) =
    ground (arith, remove-IsAscending a xs h, All-remove x a xs hx)

pub length-insert :
    (a : ℕ) (xs : List ℕ)
    → IsAscending xs
    → length (insert a xs) ≡ (if contains a xs then length xs else length xs + 1)
unfolding insert contains
length-insert a [] h = refl
length-insert a (x ∷ xs) (hx, h) =
    ground (arith, length-insert a xs h, not-contains_above a xs, All-lt_trans a x xs)

pub length-remove :
    (a : ℕ) (xs : List ℕ) → contains a xs ≡ true → length (remove a xs) + 1 ≡ length xs
unfolding remove contains
length-remove a [] h = cc
length-remove a (x ∷ xs) h = ground (arith, length-remove a xs)
