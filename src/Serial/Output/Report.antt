-- ===== src/Serial/Output/Report.antt =====
-- What the init script of `execute_command` (forge-executor/src/firecracker.rs) prints on the serial
-- console, and that the parser reads it back.
use mathlib.Core.Path.{subst}
use apeiron.Base.{
  ℕ, ◌<◌, ◌≡◌, ◌≢◌, refl, sym, false, Option, none, some, [], ◌∷◌, ◌++◌, arith, Bytes, All, Lacks,
  codes, Bool-cases, inl, inr,
}
use apeiron.Base.Int.{ℤ, IsI32}
use apeiron.Base.Outcome.{value}
use apeiron.Std.Decimal.{show_i32}
use apeiron.Std.Decimal.RoundTrip.{show_i32-visible}
use apeiron.Serial.Search.Find.{find}
use apeiron.Serial.Search.Split.{after-append}
use apeiron.Serial.Output.{
  crlf, is_line_break, strip_line_breaks, exit_marker, parse_execution_output, all_or_raw,
  stdout_start, stdout_end, stderr_start, stderr_end,
}
use apeiron.Serial.Output.Sections.{
  section_between, decoded_section, exit_code_of, parse_execution_output-all_or_raw,
}
use apeiron.Serial.Output.Line.{first_line-append, parse_line-show_i32, exit_cut}
use apeiron.Serial.Output.Cuts.{
  stdout_cut, stderr_cut, stdout_stop, stderr_stop, stderr_not_in_stdout, exit_not_in_stdout,
  exit_not_in_stderr, ends_have_no_marker, skip_stderr, skip_exit,
}

-- The crate `base64` with its standard alphabet, which has no underscore and no line break.
pub record Base64 : Type 0 where
  pub encode : Bytes → Bytes
  pub decode : Bytes → Option Bytes
  pub decode-encode : (bs : Bytes) → All (λ b. b < 256) bs → decode (encode bs) ≡ some bs
  pub encode-Lacks : (bs : Bytes) → Lacks b'_' (encode bs)
  pub encode_unbroken : (bs : Bytes) → All (λ c. is_line_break c ≡ false) (encode bs)

-- The lines of the script, each ended by the console with `\r\n`. The body is the output of `base64`.
abbrev pub section : Bytes → Bytes → Bytes → Bytes → Bytes
section start body end rest = start ++ (crlf ++ (body ++ (end ++ (crlf ++ rest))))

abbrev pub report : Bytes → Bytes → Bytes → ℤ → Bytes → Bytes
report noise out_body err_body exit_code rest =
    noise
    ++ section stdout_start out_body stdout_end (
        section stderr_start err_body stderr_end
          (exit_marker ++ (show_i32 exit_code ++ (crlf ++ rest))))

Lacks-keep :
    (b c : ℕ) (bs : Bytes)
    → is_line_break b ≡ false
    → Lacks c (strip_line_breaks (b ∷ bs))
    → (b ≢ c) × Lacks c (strip_line_breaks bs)
unfolding strip_line_breaks
Lacks-keep b c bs k h = rw k at h

Lacks-strip :
    (c : ℕ) (bs : Bytes) → is_line_break c ≡ false → Lacks c (strip_line_breaks bs) → Lacks c bs
unfolding strip_line_breaks
Lacks-strip c [] e h = tt
Lacks-strip c (b ∷ bs) e h = elim (Bool-cases (is_line_break b)) [
  | inl k ↦ (λ p. cc, Lacks-strip c bs e (rw k at h))
  | inr k ↦ let (hb, t) = Lacks-keep b c bs k h in (hb, Lacks-strip c bs e t)
]

module _ (noise out_body err_body rest : Bytes) (exit_code : ℤ) (out_Lacks : Lacks b'_' out_body)
    (err_Lacks : Lacks b'_' err_body) where
  stdout_section :
      find (stdout_start ++ crlf) noise ≡ none
      → section_between stdout_start stdout_end (report noise out_body err_body exit_code rest)
        ≡ some out_body
  unfolding section_between
  stdout_section quiet =
      rw
        (
          after-append b'F' (codes "ORGE_STDOUT_B64_START" ++ crlf) noise _ (omega arith) quiet,
          stdout_cut _,
        )
        (stdout_stop out_body _ out_Lacks)

  stderr_section :
      find (stderr_start ++ crlf) noise ≡ none
      → section_between stderr_start stderr_end (report noise out_body err_body exit_code rest)
        ≡ some err_body
  unfolding section_between
  stderr_section quiet =
      rw
        (
          skip_stderr noise _ quiet,
          skip_stderr (stdout_start ++ (crlf ++ out_body)) _
              (stderr_not_in_stdout out_body out_Lacks),
          skip_stderr (stdout_end ++ crlf) _ ends_have_no_marker.0,
          stderr_cut _,
        )
        (stderr_stop err_body _ err_Lacks)

  exit_code_read :
      find exit_marker noise ≡ none
      → IsI32 exit_code
      → exit_code_of (report noise out_body err_body exit_code rest) ≡ some exit_code
  unfolding exit_code_of
  exit_code_read quiet fits =
      rw
        (
          skip_exit noise _ quiet,
          skip_exit (stdout_start ++ (crlf ++ out_body)) _ (exit_not_in_stdout out_body out_Lacks),
          skip_exit (stdout_end ++ crlf) _ ends_have_no_marker.1,
          skip_exit (stderr_start ++ (crlf ++ err_body)) _ (exit_not_in_stderr err_body err_Lacks),
          skip_exit (stderr_end ++ crlf) _ ends_have_no_marker.2,
          exit_cut _,
          first_line-append (show_i32 exit_code) (10 ∷ rest) (show_i32-visible exit_code),
        )
        (parse_line-show_i32 exit_code fits)

module _ (b : Base64) where
  open b use {encode, decode}

  Lacks-body : (body bs : Bytes) → strip_line_breaks body ≡ encode bs → Lacks b'_' body
  Lacks-body body bs e =
      Lacks-strip b'_' body not_break (subst (Lacks b'_') (sym e) (b.encode-Lacks bs))
    where
      not_break : is_line_break b'_' ≡ false
      not_break = unfold is_line_break in refl

  decoded-body :
      (sm em raw body bs : Bytes)
      → section_between sm em raw ≡ some body
      → strip_line_breaks body ≡ encode bs
      → All (λ c. c < 256) bs
      → decoded_section decode sm em raw ≡ some bs
  unfolding decoded_section
  decoded-body sm em raw body bs cut e h = rw (cut, e) (b.decode-encode bs h)

  -- What the init script prints is read back: the parser returns the command's two outputs, byte
  -- for byte, and its exit code. The outputs are bytes and the exit code is an `i32`; the bodies
  -- are the Base64 text of the outputs, broken into lines in any way; before the report the
  -- console may have written anything in which no start marker and no exit marker stands, and
  -- anything may follow.
  pub parse_execution_output-report :
      (noise stdout stderr out_body err_body rest : Bytes) (exit_code : ℤ)
      → All (λ c. c < 256) stdout
      → All (λ c. c < 256) stderr
      → IsI32 exit_code
      → strip_line_breaks out_body ≡ encode stdout
      → strip_line_breaks err_body ≡ encode stderr
      → find (stdout_start ++ crlf) noise ≡ none
      → find (stderr_start ++ crlf) noise ≡ none
      → find exit_marker noise ≡ none
      → parse_execution_output decode (report noise out_body err_body exit_code rest)
        ≡ value (stdout, stderr, exit_code)
  unfolding all_or_raw
  parse_execution_output-report noise stdout stderr ob eb rest code hout herr hcode eo ee q0 q1 q2 =
      let lo = Lacks-body ob stdout eo in
      let le = Lacks-body eb stderr ee in
      let raw = report noise ob eb code rest in
      rw (
        parse_execution_output-all_or_raw decode raw,
        decoded-body stdout_start stdout_end raw ob stdout
            (stdout_section noise ob eb rest code lo le q0) eo hout,
        decoded-body stderr_start stderr_end raw eb stderr
            (stderr_section noise ob eb rest code lo le q1) ee herr,
        exit_code_read noise ob eb rest code lo le q2 hcode,
      )
