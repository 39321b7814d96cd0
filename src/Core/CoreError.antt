-- ===== src/Core/CoreError.antt =====
-- forge-core/src/error.rs
use apeiron.Base.{ℕ, Text}

-- An `f64` is its bit pattern (Core/Trust).
pub data CoreError : Type 0 where
  invalid_trust_score : ℕ → CoreError
  invalid_block_id : Text → CoreError
  manifest_validation : Text → Text → CoreError
