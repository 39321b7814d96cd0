-- ===== src/Base/Outcome.antt =====
-- The result of code that may panic: an index or a slice out of bounds, or an `expect` that fails.
use mathlib.Core.Option.{Option, none, some}
use apeiron.Base.{◌≡◌, refl, ◌⊎◌, inl, inr}

pub data Outcome {ℓ} (A : Type ℓ) : Type ℓ where
  value : A → Outcome A
  panic : Outcome A

infixl 5 ◌>>=◌
abbrev pub ◌>>=◌ {ℓ κ} : {A : Type ℓ} {B : Type κ} → Outcome A → (A → Outcome B) → Outcome B
value a >>= f = f a
panic >>= f = panic

-- `?` on an `Option`, in a function that returns an `Option` and may panic.
abbrev pub try {ℓ κ} :
    {A : Type ℓ} {B : Type κ} → Option A → (A → Outcome (Option B)) → Outcome (Option B)
try none f = value none
try (some a) f = f a

pub Outcome-cases : {A : Type 0} (o : Outcome A) → (o ≡ panic) ⊎ ((a : A) × (o ≡ value a))
Outcome-cases panic = inl refl
Outcome-cases (value a) = inr (a, refl)
