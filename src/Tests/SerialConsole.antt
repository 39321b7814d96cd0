-- ===== src/Tests/SerialConsole.antt =====
-- The parser of the serial console (forge-executor/src/firecracker.rs) at concrete reports.
use apeiron.Base.{
  ℕ, ◌+◌, ◌-◌, ◌*◌, ◌/◌, ◌%◌, ◌<◌, ◌≡◌, refl, Option, none, some, map_option, and_then, [], ◌∷◌,
  ◌++◌, ◌⊎◌, arith, Bytes, All, Lacks, codes, false,
}
use apeiron.Base.Int.{pos, negsuc}
use apeiron.Base.Outcome.{value}
use apeiron.Serial.Search.Find.{find}
use apeiron.Serial.Search.Split.{after}
use apeiron.Serial.Output.{
  is_line_break, crlf, strip_line_breaks, extract_b64_section, extract_exit_code, exit_marker,
  parse_line, parse_execution_output, all_or_raw, stdout_start, stdout_end, stderr_start,
  stderr_end,
}
use apeiron.Serial.Output.Sections.{
  section_between, first_line, extract_b64_section_lem, extract_exit_code_lem,
  parse_execution_output_lem, Whole, Lacking,
}
use apeiron.Serial.Output.Report.{Base64, report, parse_execution_output-report}

-- An encoder in the place of Base64: two of the letters `A` to `P` for each byte.
unfoldable pub letters : Bytes → Bytes
letters [] = []
letters (b ∷ bs) = (b'A' + b / 16 % 16) ∷ (b'A' + b % 16) ∷ letters bs

unfoldable pub unletters : Bytes → Option Bytes
unletters [] = some []
unletters (c ∷ []) = none
unletters (c ∷ d ∷ s) = map_option (λ bs. ((c - b'A') * 16 + (d - b'A')) ∷ bs) (unletters s)

pub unletters-letters : (bs : Bytes) → All (λ b. b < 256) bs → unletters (letters bs) ≡ some bs
unfolding letters unletters
unletters-letters [] h = refl
unletters-letters (b ∷ bs) (hb, h) = ground (arith, unletters-letters bs h)

pub letters-Lacks : (bs : Bytes) → Lacks b'_' (letters bs)
unfolding letters
letters-Lacks [] = tt
letters-Lacks (b ∷ bs) = ((λ e. omega arith), ((λ e. omega arith), letters-Lacks bs))

pub letters_unbroken : (bs : Bytes) → All (λ c. is_line_break c ≡ false) (letters bs)
unfolding letters is_line_break
letters_unbroken [] = tt
letters_unbroken (b ∷ bs) = (ground arith, (ground arith, letters_unbroken bs))

abbrev pub base64 : Base64
base64 = record {
  encode = letters;
  decode = unletters;
  decode-encode = unletters-letters;
  encode-Lacks = letters-Lacks;
  encode_unbroken = letters_unbroken;
}

-- `hi` on stdout, broken after its first byte; `x` on stderr; the exit code 3.
abbrev pub noise : Bytes
noise = codes "[    0.1] Booting FORGE_" ++ crlf

abbrev pub out_body : Bytes
out_body = codes "GI" ++ (crlf ++ (codes "GJ" ++ crlf))

abbrev pub err_body : Bytes
err_body = codes "HI" ++ crlf

abbrev pub console : Bytes
console = report noise out_body err_body (pos 3) (codes "bye")

parse_execution_output-report_example :
    parse_execution_output unletters console ≡ value (codes "hi", codes "x", pos 3)
unfolding strip_line_breaks letters find apeiron.Serial.Output.is_line_break
    apeiron.Serial.Search.Find.starts_with
parse_execution_output-report_example =
    parse_execution_output-report base64 noise (codes "hi") (codes "x") out_body err_body
      (codes "bye") (pos 3) (omega arith, (omega arith, tt)) (omega arith, tt) (omega arith) refl
      refl refl refl refl

parse_execution_output_lem_example :
    Whole unletters console (parse_execution_output unletters console)
    ⊎ (Lacking unletters console
        × (parse_execution_output unletters console ≡ value (console, [], negsuc 0)))
parse_execution_output_lem_example = parse_execution_output_lem unletters console

extract_b64_section_lem_example :
    extract_b64_section unletters console stdout_start stdout_end
    ≡ value (
        and_then
          (section_between stdout_start stdout_end console)
          λ content. unletters (strip_line_breaks content))
extract_b64_section_lem_example =
    extract_b64_section_lem unletters console stdout_start stdout_end (cc)

extract_exit_code_lem_example :
    extract_exit_code console
    ≡ value (and_then (after exit_marker console) λ rest. parse_line (first_line rest))
extract_exit_code_lem_example = extract_exit_code_lem console

minimum_read : extract_exit_code (codes "FORGE_EXIT:-2147483648") ≡ value (some (negsuc 2147483647))
unfolding extract_exit_code apeiron.Serial.Output.position_of apeiron.Base.text_eq
    apeiron.Serial.Search.slice_from apeiron.Serial.Search.slice apeiron.Serial.Output.is_line_break
    parse_line apeiron.Std.Utf8.from_utf8 apeiron.Std.Decimal.parse_i32 apeiron.Std.Trim.trim
minimum_read = refl
