-- ===== src/Tests/Suites.antt =====
-- The program's tests at concrete inputs.
use apeiron.Base.{ℕ}

-- Three quarters.
abbrev three_quarters : ℕ
three_quarters = 0x3fe8_0000_0000_0000
