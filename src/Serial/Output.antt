-- ===== src/Serial/Output.antt =====
-- `parse_execution_output`, `extract_b64_section` and `extract_exit_code` of
-- forge-executor/src/firecracker.rs. A slice out of range panics, so each of them is an `Outcome`.
-- The decoder of the crate `base64` is the parameter `decode`.
pub mod Sections
pub mod ExitCode
pub mod Line
pub mod Cuts
pub mod Report
use apeiron.Base.{
  ℕ, ◌+◌, Bool, ◌||◌, Option, none, some, List, [], ◌∷◌, ◌++◌, ◌==◌, if◌then◌else◌, length,
  map_option, and_then, unwrap_or, Bytes, codes, text_eq,
}
use apeiron.Base.Int.{ℤ, negsuc}
use apeiron.Base.Outcome.{Outcome, value, try, ◌>>=◌}
use apeiron.Std.Utf8.{from_utf8}
use apeiron.Std.Trim.{trim}
use apeiron.Std.Decimal.{parse_i32}
use apeiron.Serial.Search.{windows, position, slice_from, slice}

abbrev pub crlf : Bytes
crlf = 13 ∷ 10 ∷ []

unfoldable pub is_line_break : ℕ → Bool
is_line_break b = b == 13 || b == 10

-- Base64 lines are split by the shell.
unfoldable pub strip_line_breaks : Bytes → Bytes
strip_line_breaks [] = []
strip_line_breaks (b ∷ bs) =
    if is_line_break b then strip_line_breaks bs else b ∷ strip_line_breaks bs

-- `xs.windows(w.len()).position(|v| v == w)`
unfoldable pub position_of : Bytes → Bytes → Option ℕ
unfolding windows position
position_of w xs = position (λ v. text_eq v w) (windows (length w) xs)

module _ (decode : Bytes → Option Bytes) where
  unfoldable pub extract_b64_section : Bytes → Bytes → Bytes → Outcome (Option Bytes)
  extract_b64_section raw start_marker end_marker =
      let start_with_crlf = start_marker ++ crlf in
      try (map_option (λ p. p + length start_with_crlf) (position_of start_with_crlf raw))
        λ content_start. do
          rest ← slice_from content_start raw
          try (map_option (λ p. p + content_start) (position_of end_marker rest)) λ content_end. do
            section ← slice content_start content_end raw
            value (decode (strip_line_breaks section))

abbrev pub exit_marker : Bytes
exit_marker = codes "FORGE_EXIT:"

-- `&rest[..end]`, then `from_utf8(…).ok()?.trim().parse().ok()`.
unfoldable pub parse_line : Bytes → Option ℤ
parse_line line = and_then (from_utf8 line) λ text. parse_i32 (trim text)

unfoldable pub extract_exit_code : Bytes → Outcome (Option ℤ)
extract_exit_code raw =
    try (map_option (λ p. p + length exit_marker) (position_of exit_marker raw)) λ value_start. do
      rest ← slice_from value_start raw
      let value_end = unwrap_or (length rest) (position is_line_break rest)
      line ← slice 0 value_end rest
      value (parse_line line)

abbrev pub stdout_start : Bytes
stdout_start = codes "FORGE_STDOUT_B64_START"

abbrev pub stdout_end : Bytes
stdout_end = codes "FORGE_STDOUT_B64_END"

abbrev pub stderr_start : Bytes
stderr_start = codes "FORGE_STDERR_B64_START"

abbrev pub stderr_end : Bytes
stderr_end = codes "FORGE_STDERR_B64_END"

-- `(stdout, stderr, exit_code)`
abbrev pub Parsed : Type 0
Parsed = Bytes × Bytes × ℤ

-- The final `match`: all three parts, or the raw bytes with the exit code -1.
unfoldable pub all_or_raw : Bytes → Option Bytes → Option Bytes → Option ℤ → Parsed
all_or_raw raw (some out) (some err) (some exit_code) = (out, err, exit_code)
all_or_raw raw _ _ _ = (raw, [], negsuc 0)

module _ (decode : Bytes → Option Bytes) where
  unfoldable pub parse_execution_output : Bytes → Outcome Parsed
  unfolding all_or_raw
  parse_execution_output raw = do
    stdout ← extract_b64_section decode raw stdout_start stdout_end
    stderr ← extract_b64_section decode raw stderr_start stderr_end
    exit_code ← extract_exit_code raw
    value (all_or_raw raw stdout stderr exit_code)
