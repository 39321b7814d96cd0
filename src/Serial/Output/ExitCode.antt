-- ===== src/Serial/Output/ExitCode.antt =====
-- The exit code that `extract_exit_code` (forge-executor/src/firecracker.rs) returns.
use apeiron.Base.{◌≡◌, sym, ◌∙◌, Option, none, some, and_then, Bytes, Text}
use apeiron.Base.Int.{ℤ, IsI32}
use apeiron.Base.Outcome.{value}
use apeiron.Std.Utf8.{from_utf8}
use apeiron.Std.Trim.{trim}
use apeiron.Std.Decimal.{parse_i32}
use apeiron.Std.Decimal.RoundTrip.{parse_i32-IsI32}
use apeiron.Serial.Search.Split.{after}
use apeiron.Serial.Output.{exit_marker, parse_line, extract_exit_code}
use apeiron.Serial.Output.Sections.{first_line, extract_exit_code_lem}

text_IsI32 :
    (o : Option Text) (v : ℤ) → and_then o (λ text. parse_i32 (trim text)) ≡ some v → IsI32 v
text_IsI32 none v e = cc
text_IsI32 (some text) v e = parse_i32-IsI32 (trim text) v e

parse_line-IsI32 : (line : Bytes) (v : ℤ) → parse_line line ≡ some v → IsI32 v
unfolding parse_line
parse_line-IsI32 line v e = text_IsI32 (from_utf8 line) v e

line_IsI32 :
    (o : Option Bytes) (v : ℤ)
    → and_then o (λ rest. parse_line (first_line rest)) ≡ some v
    → IsI32 v
line_IsI32 none v e = cc
line_IsI32 (some rest) v e = parse_line-IsI32 (first_line rest) v e

value_injective : {A : Type 0} (a b : A) → value a ≡ value b → a ≡ b
value_injective a b e = cc

-- An exit code that is extracted is an `i32`: digits past its range make the extraction fail, and
-- nothing wraps around.
extract_exit_code-IsI32 : (raw : Bytes) (v : ℤ) → extract_exit_code raw ≡ value (some v) → IsI32 v
extract_exit_code-IsI32 raw v e =
    line_IsI32 (after exit_marker raw) v
      (value_injective _ (some v) (sym (extract_exit_code_lem raw) ∙ e))
