-- ===== src/Suite/Serial/Passes.antt =====
-- The unit tests of the parser of the serial console pass (forge-executor/src/firecracker.rs).
use apeiron.Base.{
  ℕ, ◌<◌, ◌≡◌, refl, ap, ◌∙◌, arith, Bool, true, false, ◌&&◌, none, [], ◌∷◌, ◌++◌, append_assoc,
  ◌^◌, ltb, Bytes, All, codes, text_eq, text_eq_refl,
}
use apeiron.Base.Int.{ℤ, pos, negsuc, IsI32}
use apeiron.Base.Outcome.{value}
use apeiron.Std.Decimal.{show_i32}
use apeiron.Serial.Search.Find.{find}
use apeiron.Serial.Output.{
  crlf, is_line_break, strip_line_breaks, exit_marker, parse_execution_output, extract_b64_section,
  extract_exit_code, stdout_start, stdout_end, stderr_start, stderr_end,
}
use apeiron.Serial.Output.Line.{extract_exit_code-printed}
use apeiron.Serial.Output.Report.{Base64, report, parse_execution_output-report}
use apeiron.Suite.Serial.{
  same_int, make_b64_output, from, parse_execution_output_extracts_stdout_and_stderr,
  parse_execution_output_decodes_base64, parse_execution_output_fallback_on_missing_markers,
  parse_execution_output_extracts_exit_code, extract_exit_code_negative_value_is_parsed,
  extract_exit_code_missing_marker_returns_none, extract_b64_section_missing_start_returns_none,
  parse_execution_output_empty_stdout_and_stderr, proptest_exit_code_roundtrip,
  proptest_base64_roundtrip,
}

same_int_refl : (v : ℤ) → same_int v v ≡ true
same_int_refl (pos n) = ground arith
same_int_refl (negsuc n) = ground arith

in_range : Bytes → Bool
in_range [] = true
in_range (c ∷ bs) = ltb c 256 && in_range bs

bytes_in_range : (bs : Bytes) → in_range bs ≡ true → All (λ c. c < 256) bs
unfolding in_range
bytes_in_range [] h = tt
bytes_in_range (c ∷ bs) h = (ground arith, bytes_in_range bs (ground arith))

strip_unbroken :
    (bs : Bytes) → All (λ c. is_line_break c ≡ false) bs → strip_line_breaks (bs ++ crlf) ≡ bs
unfolding strip_line_breaks is_line_break
strip_unbroken [] h = refl
strip_unbroken (c ∷ bs) (hc, h) = rw (hc, strip_unbroken bs h)

noise_lacks :
    (find (stdout_start ++ crlf) (codes "kernel boot noise" ++ crlf) ≡ none)
    × (find (stderr_start ++ crlf) (codes "kernel boot noise" ++ crlf) ≡ none)
    × (find exit_marker (codes "kernel boot noise" ++ crlf) ≡ none)
unfolding find apeiron.Serial.Search.Find.starts_with
noise_lacks = (refl, refl, refl)

module _ (b : Base64) where
  open b use {encode, decode}

  make_b64_output-report :
      (stdout stderr : Bytes) (exit_code : ℤ)
      → make_b64_output b stdout stderr exit_code
        ≡ report
            (codes "kernel boot noise" ++ crlf)
            (encode stdout ++ crlf)
            (encode stderr ++ crlf)
            exit_code
            []
  unfolding make_b64_output
  make_b64_output-report stdout stderr exit_code =
      rw (append_assoc (encode stdout) crlf, append_assoc (encode stderr) crlf)

  -- What the test helper `make_b64_output` prints is parsed to the outputs and the exit code that it was
  -- given, for all outputs that are bytes and every exit code that is an `i32`.
  parse_execution_output-make_b64_output :
      (stdout stderr : Bytes) (exit_code : ℤ)
      → All (λ c. c < 256) stdout
      → All (λ c. c < 256) stderr
      → IsI32 exit_code
      → parse_execution_output decode (make_b64_output b stdout stderr exit_code)
        ≡ value (stdout, stderr, exit_code)
  parse_execution_output-make_b64_output stdout stderr exit_code ho he hc =
      let (q0, q1, q2) = noise_lacks in
      ap (parse_execution_output decode) (make_b64_output-report stdout stderr exit_code)
      ∙ parse_execution_output-report b (codes "kernel boot noise" ++ crlf) stdout stderr
          (encode stdout ++ crlf) (encode stderr ++ crlf) [] exit_code ho he hc
          (strip_unbroken (encode stdout) (b.encode_unbroken stdout))
          (strip_unbroken (encode stderr) (b.encode_unbroken stderr)) q0 q1 q2

  -- The property test of the exit code passes for every `i32`.
  pub exit_code_test : (code : ℤ) → IsI32 code → proptest_exit_code_roundtrip b code ≡ value true
  unfolding proptest_exit_code_roundtrip
  exit_code_test code h = rw (extract_exit_code-printed code h) (ap value (same_int_refl code))

  -- The property test of the decoder passes for all bytes.
  pub base64_test :
      (bytes : Bytes) → All (λ c. c < 256) bytes → proptest_base64_roundtrip b bytes ≡ value true
  unfolding proptest_base64_roundtrip
  base64_test bytes h = rw (b.decode-encode bytes h) (ap value (text_eq_refl bytes))

  printed_by :
      (stdout stderr : Bytes) (n : ℕ)
      → in_range stdout ≡ true
      → in_range stderr ≡ true
      → n < 2 ^ 31
      → parse_execution_output decode (make_b64_output b stdout stderr (pos n))
        ≡ value (stdout, stderr, pos n)
  printed_by stdout stderr n ho he hn =
      parse_execution_output-make_b64_output stdout stderr (pos n) (bytes_in_range stdout ho)
        (bytes_in_range stderr he) hn

  -- The tests of the parser that give it a report.
  report_tests :
      (parse_execution_output_extracts_stdout_and_stderr b ≡ value true)
      × (parse_execution_output_decodes_base64 b ≡ value true)
      × (parse_execution_output_extracts_exit_code b ≡ value true)
      × (parse_execution_output_empty_stdout_and_stderr b ≡ value true)
  unfolding parse_execution_output_extracts_stdout_and_stderr parse_execution_output_decodes_base64
      parse_execution_output_extracts_exit_code parse_execution_output_empty_stdout_and_stderr
      in_range from text_eq
  report_tests = (
    rw (printed_by (codes "hello stdout\n") (codes "hello stderr\n") 0 refl refl (omega arith))
        refl,
    rw (printed_by (from 256 0) [] 0 refl refl (omega arith)) refl,
    rw (printed_by (codes "out") (codes "err") 42 refl refl (omega arith)) refl,
    rw (printed_by [] [] 0 refl refl (omega arith)) refl,
  )

  -- The tests of the parser that leave a marker out, and the one of a negative exit code.
  marker_tests :
      (parse_execution_output_fallback_on_missing_markers b ≡ value true)
      × (extract_exit_code_negative_value_is_parsed b ≡ value true)
      × (extract_exit_code_missing_marker_returns_none b ≡ value true)
      × (extract_b64_section_missing_start_returns_none b ≡ value true)
  unfolding parse_execution_output_fallback_on_missing_markers
      extract_exit_code_negative_value_is_parsed extract_exit_code_missing_marker_returns_none
      extract_b64_section_missing_start_returns_none parse_execution_output extract_exit_code
      extract_b64_section text_eq apeiron.Serial.Output.position_of apeiron.Serial.Search.slice_from
      apeiron.Serial.Search.slice is_line_break apeiron.Serial.Output.parse_line
      apeiron.Std.Utf8.from_utf8 apeiron.Std.Decimal.parse_i32 apeiron.Std.Trim.trim
  marker_tests = (refl, refl, refl, refl)
