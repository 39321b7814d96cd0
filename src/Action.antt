-- ===== src/Action.antt =====
-- A function that changes a state and may fail or panic: from a state to a result and a state. What
-- was done before an error stays done, so the state comes back beside the error too. `E` is the type
-- of the errors.
pub mod Rules

pub data Result {ℓ} (E A : Type ℓ) : Type ℓ where
  ok : A → Result E A
  err : E → Result E A
  panicked : Result E A

abbrev pub Action {ℓ} : Type ℓ → Type ℓ → Type ℓ → Type ℓ
Action E S A = S → Result E A × S

module _ {ℓ} {E S A : Type ℓ} where
  abbrev pub pure : A → Action E S A
  pure a s = (ok a, s)

  abbrev pub fail : E → Action E S A
  fail e s = (err e, s)

  abbrev pub lift : Result E A → Action E S A
  lift r s = (r, s)

-- `result.map_err(f)`
abbrev pub map_result {ℓ} : {E A : Type ℓ} → (E → E) → Result E A → Result E A
map_result f (ok a) = ok a
map_result f (err e) = err (f e)
map_result f panicked = panicked

abbrev pub map_err {ℓ} : {E S A : Type ℓ} → (E → E) → Action E S A → Action E S A
map_err f m s = let (r, s') = m s in (map_result f r, s')

module _ {ℓ} {E S A B : Type ℓ} where
  abbrev pub continue : Result E A → (A → Action E S B) → Action E S B
  continue (ok a) f s = f a s
  continue (err e) f s = (err e, s)
  continue panicked f s = (panicked, s)

  infixl 10 ◌>>=◌ ◌>>◌
  abbrev pub ◌>>=◌ : Action E S A → (A → Action E S B) → Action E S B
  ◌>>=◌ m f s = let (r, s') = m s in continue r f s'

  abbrev pub ◌>>◌ : Action E S A → Action E S B → Action E S B
  m >> n = m >>= λ _. n

-- A call whose result is kept: `let result = f().await;`.
abbrev pub attempt {ℓ} : {E S A : Type ℓ} → Action E S A → Action E S (Result E A)
attempt m s = let (r, s') = m s in (ok r, s')
