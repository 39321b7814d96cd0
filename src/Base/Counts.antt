-- ===== src/Base/Counts.antt =====
-- Lists counted: an element that is taken out of a list, and how often each number is in what is left.
use apeiron.Base.{
  ℕ, zero, suc, ◌≡◌, List, [], ◌∷◌, Option, none, some, map, arith, length, ap, Option-cases, inl,
  inr, count,
}

-- The element at an index, and the list without it.
unfoldable pub pick {ℓ} : {A : Type ℓ} → ℕ → List A → Option (A × List A)
pick n [] = none
pick zero (x ∷ xs) = some (x, xs)
pick (suc n) (x ∷ xs) = elim (pick n xs) [ none ↦ none | some (y, ys) ↦ some (y, x ∷ ys) ]

module _ {A : Type 0} where
  -- What a pick behind the first element is.
  pick_behind :
      (n : ℕ) (b : A) (xs : List A) (a : A) (rest : List A)
      → pick (suc n) (b ∷ xs) ≡ some (a, rest)
      → (ys : List A) × (pick n xs ≡ some (a, ys)) × (rest ≡ b ∷ ys)
  unfolding pick
  pick_behind n b xs a rest e = elim (Option-cases (pick n xs)) [
    | inl q ↦ (let e' : ◌≡◌ {A = Option (A × List A)} none (some (a, rest)) = rw q at e in cc)
    | inr ((y, ys), q) ↦
        (let e' : ◌≡◌ {A = Option (A × List A)} (some (y, b ∷ ys)) (some (a, rest)) = rw q at e in
          (ys, cc, cc))
  ]

  pub pick-count :
      (f : A → ℕ) (x : ℕ) (n : ℕ) (xs : List A) (a : A) (rest : List A)
      → pick n xs ≡ some (a, rest)
      → count x (map f xs) ≡ count x (f a ∷ map f rest)
  unfolding pick
  pick-count f x n [] a rest e = cc
  pick-count f x zero (b ∷ bs) a rest e =
      ap (λ o. elim o [ none ↦ 0 | some (c, cs) ↦ count x (f c ∷ map f cs) ]) e
  pick-count f x (suc n) (b ∷ bs) a rest e =
      let (ys, q, p) = pick_behind n b bs a rest e in
      rw p (ground (arith, pick-count f x n bs a ys q))

  pub pick-length :
      (n : ℕ) (xs : List A) (a : A) (rest : List A)
      → pick n xs ≡ some (a, rest)
      → length xs ≡ suc (length rest)
  unfolding pick
  pick-length n [] a rest e = cc
  pick-length zero (b ∷ bs) a rest e =
      ap (λ o. elim o [ none ↦ 0 | some (c, cs) ↦ suc (length cs) ]) e
  pick-length (suc n) (b ∷ bs) a rest e =
      let (ys, q, p) = pick_behind n b bs a rest e in rw p (ap suc (pick-length n bs a ys q))
