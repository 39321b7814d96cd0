-- ===== src/Suite/Serial.antt =====
-- The unit tests of the parser of the serial console (forge-executor/src/firecracker.rs).
pub mod Passes
use apeiron.Base.{
  ℕ, zero, suc, ◌+◌, ◌-◌, ◌≤◌, ◌<◌, ◌≡◌, refl, sym, ap, ◌∙◌, arith, Bool, true, false, not, ◌&&◌,
  Option, none, some, [], ◌∷◌, ◌++◌, append_assoc, append-nil, ◌^◌, ltb, ◌==◌, is_some, Bytes, All,
  codes, text_eq, text_eq_refl,
}
use apeiron.Base.Int.{ℤ, pos, negsuc, IsI32}
use apeiron.Base.Outcome.{Outcome, value, panic, ◌>>=◌}
use apeiron.Std.Decimal.{show_i32}
use apeiron.Serial.Search.Find.{find}
use apeiron.Serial.Output.{
  crlf, is_line_break, strip_line_breaks, exit_marker, parse_execution_output, extract_b64_section,
  extract_exit_code, stdout_start, stdout_end, stderr_start, stderr_end,
}
use apeiron.Serial.Output.Line.{extract_exit_code-printed}
use apeiron.Serial.Output.Report.{Base64, report, section, parse_execution_output-report}

abbrev pub same_int : ℤ → ℤ → Bool
same_int (pos m) (pos n) = m == n
same_int (negsuc m) (negsuc n) = m == n
same_int _ _ = false

abbrev pub same_code : Option ℤ → Option ℤ → Bool
same_code (some a) (some b) = same_int a b
same_code none none = true
same_code _ _ = false

-- The numbers from `start` on.
pub from : ℕ → ℕ → Bytes
from zero start = []
from (suc n) start = start ∷ from n (start + 1)

module _ (b : Base64) where
  open b use {encode, decode}

  unfoldable pub make_b64_output : Bytes → Bytes → ℤ → Bytes
  make_b64_output stdout stderr exit_code =
      let stdout_b64 = encode stdout in
      let stderr_b64 = encode stderr in
      codes "kernel boot noise"
      ++ (crlf
          ++ (stdout_start
              ++ (crlf
                  ++ (stdout_b64
                      ++ (crlf
                          ++ (stdout_end
                              ++ (crlf
                                  ++ (stderr_start
                                      ++ (crlf
                                          ++ (stderr_b64
                                              ++ (crlf
                                                  ++ (stderr_end
                                                      ++ (crlf
                                                          ++ (exit_marker
                                                            ++ (show_i32 exit_code
                                                            ++ crlf)))))))))))))))

  unfoldable pub parse_execution_output_extracts_stdout_and_stderr : Outcome Bool
  unfolding make_b64_output
  parse_execution_output_extracts_stdout_and_stderr =
      let raw = make_b64_output (codes "hello stdout\n") (codes "hello stderr\n") (pos 0) in
      do
        (stdout, stderr, exit_code) ← parse_execution_output decode raw
        value (text_eq stdout (codes "hello stdout\n") && text_eq stderr (codes "hello stderr\n"))

  unfoldable pub parse_execution_output_decodes_base64 : Outcome Bool
  unfolding make_b64_output from
  parse_execution_output_decodes_base64 =
      let raw = make_b64_output (from 256 0) [] (pos 0) in
      do
        (stdout, stderr, exit_code) ← parse_execution_output decode raw
        value (text_eq stdout (from 256 0))

  unfoldable pub parse_execution_output_fallback_on_missing_markers : Outcome Bool
  parse_execution_output_fallback_on_missing_markers =
      let raw = codes "raw serial output without any markers" in
      do
        (stdout, stderr, exit_code) ← parse_execution_output decode raw
        value (text_eq stdout raw && text_eq stderr [] && same_int exit_code (negsuc 0))

  unfoldable pub parse_execution_output_extracts_exit_code : Outcome Bool
  unfolding make_b64_output
  parse_execution_output_extracts_exit_code =
      let raw = make_b64_output (codes "out") (codes "err") (pos 42) in
      do
        (stdout, stderr, exit_code) ← parse_execution_output decode raw
        value (same_int exit_code (pos 42))

  unfoldable pub extract_exit_code_negative_value_is_parsed : Outcome Bool
  extract_exit_code_negative_value_is_parsed = do
    code ← extract_exit_code (codes "FORGE_EXIT:-1" ++ crlf)
    value (same_code code (some (negsuc 0)))

  unfoldable pub extract_exit_code_missing_marker_returns_none : Outcome Bool
  extract_exit_code_missing_marker_returns_none = do
    code ← extract_exit_code (codes "no marker here")
    value (same_code code none)

  unfoldable pub extract_b64_section_missing_start_returns_none : Outcome Bool
  extract_b64_section_missing_start_returns_none = do
    result ←
        extract_b64_section decode (codes "FORGE_STDOUT_B64_END" ++ crlf) stdout_start stdout_end
    value (not (is_some result))

  unfoldable pub parse_execution_output_empty_stdout_and_stderr : Outcome Bool
  unfolding make_b64_output
  parse_execution_output_empty_stdout_and_stderr =
      let raw = make_b64_output [] [] (pos 0) in
      do
        (stdout, stderr, exit_code) ← parse_execution_output decode raw
        value (text_eq stdout [] && text_eq stderr [] && same_int exit_code (pos 0))

  unfoldable pub proptest_exit_code_roundtrip : ℤ → Outcome Bool
  proptest_exit_code_roundtrip code = do
    extracted ← extract_exit_code (exit_marker ++ (show_i32 code ++ crlf))
    value (same_code extracted (some code))

  pub decoded_is : Bytes → Option Bytes → Outcome Bool
  decoded_is bytes none = panic
  decoded_is bytes (some decoded) = value (text_eq decoded bytes)

  unfoldable pub proptest_base64_roundtrip : Bytes → Outcome Bool
  unfolding decoded_is
  proptest_base64_roundtrip bytes = decoded_is bytes (decode (encode bytes))
