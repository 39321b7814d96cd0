-- ===== src/Serial/Search.antt =====
-- The slice operations of the standard library that the parser of the serial console uses
-- (forge-executor/src/firecracker.rs): `windows`, `position`, and slicing by a range.
pub mod Find
pub mod Split
use apeiron.Base.{
  ℕ, suc, ◌-◌, Bool, ◌&&◌, Option, none, some, List, [], ◌∷◌, leb, if◌then◌else◌, length, take,
  drop, map_option, Bytes,
}
use apeiron.Base.Outcome.{Outcome, value, panic}

-- `slice.windows(n)`, for n > 0.
unfoldable pub windows : ℕ → Bytes → List Bytes
windows n [] = []
windows n (x ∷ xs) = if leb n (length (x ∷ xs)) then take n (x ∷ xs) ∷ windows n xs else []

-- `iter.position(p)`
unfoldable pub position {ℓ} : {A : Type ℓ} → (A → Bool) → List A → Option ℕ
position p [] = none
position p (x ∷ xs) = if p x then some 0 else map_option suc (position p xs)

-- `&xs[i..]`
unfoldable pub slice_from : ℕ → Bytes → Outcome Bytes
slice_from i xs = if leb i (length xs) then value (drop i xs) else panic

-- `&xs[i..j]`
unfoldable pub slice : ℕ → ℕ → Bytes → Outcome Bytes
slice i j xs = if leb i j && leb j (length xs) then value (take (j - i) (drop i xs)) else panic
