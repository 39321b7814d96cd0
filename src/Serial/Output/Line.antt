-- ===== src/Serial/Output/Line.antt =====
-- A printed exit code is read back from its line (forge-executor/src/firecracker.rs).
use apeiron.Base.{◌<◌, ◌≡◌, refl, some, [], ◌∷◌, ◌++◌, arith, Bytes, Text, All}
use apeiron.Base.Int.{ℤ, IsI32}
use apeiron.Base.Outcome.{value}
use apeiron.Std.Utf8.{from_utf8-ascii, IsAscii}
use apeiron.Std.Trim.{trim_visible}
use apeiron.Std.Decimal.{show_i32}
use apeiron.Std.Decimal.RoundTrip.{parse_i32-show_i32, show_i32-visible}
use apeiron.Serial.Search.Find.{starts_with}
use apeiron.Serial.Search.Split.{after}
use apeiron.Serial.Output.{crlf, exit_marker, extract_exit_code, parse_line}
use apeiron.Serial.Output.Sections.{extract_exit_code_lem, first_line}

pub first_line-append :
    (s rest : Bytes) → All (λ c. (32 < c) × (c < 127)) s → first_line (s ++ 13 ∷ rest) ≡ s
unfolding first_line
first_line-append [] rest h = refl
first_line-append (c ∷ s) rest (hc, h) = ground (arith, first_line-append s rest h)

visible-IsAscii : (s : Text) → All (λ c. (32 < c) × (c < 127)) s → IsAscii s
visible-IsAscii [] h = tt
visible-IsAscii (c ∷ s) (hc, h) = (omega arith, visible-IsAscii s h)

pub parse_line-show_i32 : (v : ℤ) → IsI32 v → parse_line (show_i32 v) ≡ some v
unfolding parse_line
parse_line-show_i32 v h =
    let s = show_i32 v in
    let vis = show_i32-visible v in
    rw (from_utf8-ascii s (visible-IsAscii s vis), trim_visible s vis) (parse_i32-show_i32 v h)

pub exit_cut : (x : Bytes) → after exit_marker (exit_marker ++ x) ≡ some x
unfolding after starts_with
exit_cut x = refl

-- The line that the init script ends with is read back, whatever the exit code.
pub extract_exit_code-printed :
    (v : ℤ) → IsI32 v → extract_exit_code (exit_marker ++ (show_i32 v ++ crlf)) ≡ value (some v)
extract_exit_code-printed v h =
    rw
      (
        extract_exit_code_lem (exit_marker ++ (show_i32 v ++ crlf)),
        exit_cut (show_i32 v ++ crlf),
        first_line-append (show_i32 v) (10 ∷ []) (show_i32-visible v),
        parse_line-show_i32 v h,
      )
      refl
