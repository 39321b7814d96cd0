-- ===== src/Base/Families.antt =====
-- Families over the natural numbers, such as the places of tasks, of which one value changes.
use Prim.Native.Nat.{ℕ}
use mathlib.Core.Path.{◌≡◌, refl}
use mathlib.Core.Logic.{◌≢◌, inl, inr}
use mathlib.Core.Bool.{true, false}
use native.Mathlib.Omega.{arith}
use apeiron.Base.Tests.{◌==◌, if◌then◌else◌, Bool-cases, ==_iff}

pub differ : (a b : ℕ) → (a == b) ≡ false → a ≢ b
differ a b h = grind arith

pub same : (a b : ℕ) → (a == b) ≡ true → a ≡ b
same a b = (==_iff a b).0

pub eq_self : (a : ℕ) → (a == a) ≡ true
eq_self a = ground arith

eq_other : (a b : ℕ) → a ≢ b → (a == b) ≡ false
eq_other a b h = ground arith

module _ {ℓ} {A : Type ℓ} where
  abbrev pub update : (ℕ → A) → ℕ → A → ℕ → A
  update family i a j = if j == i then a else family j

  pub update_same : (family : ℕ → A) (i : ℕ) (a : A) → update family i a i ≡ a
  update_same family i a = rw (eq_self i) refl

  pub update_other : (family : ℕ → A) (i j : ℕ) (a : A) → j ≢ i → update family i a j ≡ family j
  update_other family i j a h = rw (eq_other j i h) refl

  pub update_all :
      (P : A → Type 0) (family : ℕ → A) (i : ℕ) (a : A)
      → ((j : ℕ) → P (family j))
      → P a
      → (j : ℕ) → P (update family i a j)
  update_all P family i a h k j = elim (Bool-cases (j == i)) [ inl q ↦ rw q k | inr q ↦ rw q (h j) ]
