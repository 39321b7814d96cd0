-- ===== src/Serial/Output/Sections.antt =====
-- Each extraction is a search and a cut, and no slice in it is out of range.
use native.Mathlib.Nat.{sub-zero}
use apeiron.Base.{
  ℕ, zero, suc, ◌+◌, ◌-◌, ◌≤◌, ◌≡◌, ◌≢◌, refl, ap, ◌∙◌, inl, inr, ◌⊎◌, Option, none, some, [], ◌∷◌,
  ◌++◌, arith, if◌then◌else◌, length, take, drop, map_option, and_then, unwrap_or, Bytes, le→leb,
  Option-cases, Bool-cases,
}
use apeiron.Base.Int.{ℤ, negsuc}
use apeiron.Base.Outcome.{Outcome, value, try, ◌>>=◌}
use apeiron.Serial.Search.{position, slice_from, slice}
use apeiron.Serial.Search.Find.{find, position-windows}
use apeiron.Serial.Search.Split.{after, before, find_bounds, after-find, before-find}
use apeiron.Serial.Output.{
  Parsed, crlf, is_line_break, strip_line_breaks, position_of, extract_b64_section,
  extract_exit_code, exit_marker, parse_line, parse_execution_output, all_or_raw, stdout_start,
  stdout_end, stderr_start, stderr_end,
}

-- What stands between the first `start_marker` at the end of a line and the next `end_marker`.
unfoldable pub section_between : Bytes → Bytes → Bytes → Option Bytes
section_between start_marker end_marker raw =
    and_then (after (start_marker ++ crlf) raw) λ rest. before end_marker rest

length-drop : (n : ℕ) (xs : Bytes) → length (drop n xs) ≡ length xs - n
length-drop zero xs = omega arith
length-drop (suc n) [] = omega arith
length-drop (suc n) (x ∷ xs) = omega (arith, length-drop n xs)

slice_from_fits : (n : ℕ) (xs : Bytes) → n ≤ length xs → slice_from n xs ≡ value (drop n xs)
unfolding slice_from
slice_from_fits n xs h = rw (le→leb n (length xs) h)

slice_fits :
    (i j : ℕ) (xs : Bytes) → i ≤ j → j ≤ length xs → slice i j xs ≡ value (take (j - i) (drop i xs))
unfolding slice
slice_fits i j xs h k = rw (le→leb i j h, le→leb j (length xs) k)

position_of-find : (w xs : Bytes) → w ≢ [] → position_of w xs ≡ find w xs
unfolding position_of
position_of-find w xs h = position-windows w xs h

-- The content that ends `n` bytes after `start`.
slice-add :
    (start n : ℕ) (raw : Bytes)
    → n ≤ length (drop start raw)
    → start ≤ length raw
    → slice start (n + start) raw ≡ value (take n (drop start raw))
slice-add start n raw h k =
    let len = length-drop start raw in
    slice_fits start (n + start) raw (omega arith) (omega arith)
    ∙ ap (λ m. value (take m (drop start raw))) (omega arith)

module _ (decode : Bytes → Option Bytes) (raw end_marker : Bytes) where
  -- The content that the search for the end marker finds, decoded.
  content_decoded :
      (start : ℕ) (o : Option ℕ)
      → start ≤ length raw
      → ((n : ℕ) → o ≡ some n → n ≤ length (drop start raw))
      → try
          (map_option (λ p. p + start) o)
          (λ end. slice start end raw >>= λ section. value (decode (strip_line_breaks section)))
        ≡ value (
            and_then
              (map_option (λ n. take n (drop start raw)) o)
              λ c. decode (strip_line_breaks c))
  content_decoded start none k h = refl
  content_decoded start (some n) k h = rw (slice-add start n raw (h n refl) k)

  -- From the content's start on.
  section_tail :
      (start : ℕ)
      → end_marker ≢ []
      → start ≤ length raw
      → (slice_from start raw >>= λ rest.
          try
            (map_option (λ p. p + start) (position_of end_marker rest))
            λ end. slice start end raw >>= λ section. value (decode (strip_line_breaks section)))
        ≡ value (and_then (before end_marker (drop start raw)) λ c. decode (strip_line_breaks c))
  section_tail start ne k =
      rw
        (
          slice_from_fits start raw k,
          position_of-find end_marker (drop start raw) ne,
          before-find end_marker (drop start raw),
        )
        (content_decoded start (find end_marker (drop start raw)) k
          λ n e. let b = find_bounds end_marker (drop start raw) n e in omega arith)

crlf-ne-nil : (w : Bytes) → w ++ crlf ≢ []
crlf-ne-nil [] = cc
crlf-ne-nil (x ∷ w) = cc

module _ (decode : Bytes → Option Bytes) where
  -- Extracting a section never panics: for every input and every end marker that is not empty it
  -- is the decoded content, line breaks removed, of what stands between the two markers.
  pub extract_b64_section_lem :
      (raw start_marker end_marker : Bytes)
      → end_marker ≢ []
      → extract_b64_section decode raw start_marker end_marker
        ≡ value (
            and_then
              (section_between start_marker end_marker raw)
              λ content. decode (strip_line_breaks content))
  unfolding extract_b64_section section_between
  extract_b64_section_lem raw sm em ne =
      rw (position_of-find (sm ++ crlf) raw (crlf-ne-nil sm), after-find (sm ++ crlf) raw)
        (elim (Option-cases (find (sm ++ crlf) raw)) [
          | inl e ↦ rw e
          | inr (n, e) ↦
              rw e (section_tail decode raw em (n + length (sm ++ crlf)) ne (find_bounds _ raw n e))
        ])

-- The bytes up to the first line break.
unfoldable pub first_line : Bytes → Bytes
unfolding is_line_break
first_line [] = []
first_line (b ∷ bs) = if is_line_break b then [] else b ∷ first_line bs

cons-take :
    (b : ℕ) (bs : Bytes) (o : Option ℕ)
    → take (unwrap_or (length (b ∷ bs)) (map_option suc o)) (b ∷ bs)
      ≡ b ∷ take (unwrap_or (length bs) o) bs
cons-take b bs none = refl
cons-take b bs (some n) = refl

take-position :
    (bs : Bytes) → take (unwrap_or (length bs) (position is_line_break bs)) bs ≡ first_line bs
unfolding position first_line
take-position [] = refl
take-position (b ∷ bs) = elim (Bool-cases (is_line_break b)) [
  | inl e ↦ rw e
  | inr e ↦ rw (e, cons-take b bs (position is_line_break bs)) (ap (λ t. b ∷ t) (take-position bs))
]

position-le : (bs : Bytes) → unwrap_or (length bs) (position is_line_break bs) ≤ length bs
unfolding position
position-le [] = omega arith
position-le (b ∷ bs) = ground (arith, position-le bs)

slice_to : (n : ℕ) (xs : Bytes) → n ≤ length xs → slice 0 n xs ≡ value (take n xs)
slice_to n xs h = rw (slice_fits 0 n xs (omega arith) h, sub-zero)

-- The line behind a marker that ends at `start`.
line_parsed :
    (raw : Bytes) (start : ℕ)
    → start ≤ length raw
    → (slice_from start raw >>= λ rest.
        slice 0 (unwrap_or (length rest) (position is_line_break rest)) rest >>= λ line.
        value (parse_line line))
      ≡ value (parse_line (first_line (drop start raw)))
line_parsed raw start h = rw (
  slice_from_fits start raw h,
  slice_to _ (drop start raw) (position-le (drop start raw)),
  take-position (drop start raw),
)

-- Extracting the exit code never panics: it is the number on the line behind the first marker.
pub extract_exit_code_lem :
    (raw : Bytes)
    → extract_exit_code raw
      ≡ value (and_then (after exit_marker raw) λ rest. parse_line (first_line rest))
unfolding extract_exit_code
extract_exit_code_lem raw =
    rw (position_of-find exit_marker raw (cc), after-find exit_marker raw)
      (elim (Option-cases (find exit_marker raw)) [
        | inl e ↦ rw e
        | inr (n, e) ↦ rw e (line_parsed raw (n + length exit_marker) (find_bounds _ raw n e))
      ])

module _ (decode : Bytes → Option Bytes) where
  -- The decoded content between two markers.
  unfoldable pub decoded_section : Bytes → Bytes → Bytes → Option Bytes
  decoded_section sm em raw =
      and_then (section_between sm em raw) λ content. decode (strip_line_breaks content)

unfoldable pub exit_code_of : Bytes → Option ℤ
exit_code_of raw = and_then (after exit_marker raw) λ rest. parse_line (first_line rest)

module _ (decode : Bytes → Option Bytes) where
  pub parse_execution_output-all_or_raw :
      (raw : Bytes)
      → parse_execution_output decode raw
        ≡ value (
            all_or_raw raw
              (decoded_section decode stdout_start stdout_end raw)
              (decoded_section decode stderr_start stderr_end raw)
              (exit_code_of raw))
  unfolding parse_execution_output decoded_section exit_code_of
  parse_execution_output-all_or_raw raw = rw (
    extract_b64_section_lem decode raw stdout_start stdout_end (cc),
    extract_b64_section_lem decode raw stderr_start stderr_end (cc),
    extract_exit_code_lem raw,
  )

  -- All three parts of a report are there, and this is what they give.
  unfoldable pub Whole : Bytes → Outcome Parsed → Type 0
  Whole raw r =
      (out err : Bytes) × (exit_code : ℤ) × (decoded_section decode stdout_start stdout_end raw
        ≡ some out)
      × (decoded_section decode stderr_start stderr_end raw ≡ some err)
      × (exit_code_of raw ≡ some exit_code)
      × (r ≡ value (out, err, exit_code))

  -- One of the three parts is not there.
  unfoldable pub Lacking : Bytes → Type 0
  Lacking raw =
      (decoded_section decode stdout_start stdout_end raw ≡ none)
      ⊎ ((decoded_section decode stderr_start stderr_end raw ≡ none) ⊎ (exit_code_of raw ≡ none))

  -- Whatever the serial console wrote, parsing it does not panic. If both sections are there and decode,
  -- and the exit code is there, it returns these three; if one of them is not, it returns the raw bytes
  -- as stdout, no stderr and the exit code -1.
  pub parse_execution_output_lem :
      (raw : Bytes)
      → Whole raw (parse_execution_output decode raw)
        ⊎ (Lacking raw × (parse_execution_output decode raw ≡ value (raw, [], negsuc 0)))
  unfolding Whole Lacking all_or_raw
  parse_execution_output_lem raw =
      let parsed = parse_execution_output-all_or_raw raw in
      elim (Option-cases (decoded_section decode stdout_start stdout_end raw)) [
        | inl o ↦ inr (inl o, rw (parsed, o) refl)
        | inr (out, o) ↦ elim (Option-cases (decoded_section decode stderr_start stderr_end raw)) [
          | inl e ↦ inr (inr (inl e), rw (parsed, o, e) refl)
          | inr (err, e) ↦ elim (Option-cases (exit_code_of raw)) [
            | inl c ↦ inr (inr (inr c), rw (parsed, o, e, c) refl)
            | inr (exit_code, c) ↦ inl (out, err, exit_code, o, e, c, rw (parsed, o, e, c) refl)
          ]
        ]
      ]
