-- ===== src/Suite/Hashes.antt =====
-- The unit tests of forge-executor/src/runner.rs, and the fuzz targets of the hashes (fuzz/fuzz_targets).
use apeiron.Base.{
  ℕ, false, ◌++◌, ◌≡◌, ◌<◌, inl, inr, Bool-cases, refl, arith, Bool, true, not, ◌&&◌, ◌||◌, [], ◌∷◌,
  ◌==◌, leb, if◌then◌else◌, length, is_some, Bytes, All, Text, codes, text_eq, text_eq_refl, ==_iff,
}
use apeiron.Core.Id.{new_content_hash, display_hash}
use apeiron.Core.Id.Hex.{IsHash, IsHexDigit, display_hash-IsHex}
use apeiron.Serial.Search.Find.{find, starts_with}
use apeiron.Serial.Output.Report.{Base64}
use apeiron.Executor.Runner.Hash.{compute_hash_cut}
use apeiron.Executor.Runner.{Sha256, compute_hash, build_command}

unfoldable pub is_ascii_hexdigit : ℕ → Bool
is_ascii_hexdigit c =
    leb b'0' c && leb c b'9' || leb b'a' c && leb c b'f' || leb b'A' c && leb c b'F'

unfoldable pub all_hex : Text → Bool
unfolding is_ascii_hexdigit
all_hex [] = true
all_hex (c ∷ s) = is_ascii_hexdigit c && all_hex s

module _ (sha : Sha256) where
  unfoldable pub compute_hash_is_deterministic : Bool
  compute_hash_is_deterministic =
      let stdout = codes "git version 2.43.0\n" in
      let hash1 = compute_hash sha stdout [] in
      let hash2 = compute_hash sha stdout [] in text_eq hash1.bytes hash2.bytes

  unfoldable pub proptest_hash_output_always_64_hex_chars : Bytes → Bytes → Bool
  proptest_hash_output_always_64_hex_chars stdout stderr =
      let hex = display_hash (compute_hash sha stdout stderr) in length hex == 64 && all_hex hex

  -- Inputs that the test assumes away pass.
  unfoldable pub proptest_hash_order_matters_stdout_before_stderr : Bytes → Bytes → Bool
  proptest_hash_order_matters_stdout_before_stderr a b =
      let hash_ab = compute_hash sha a b in
      let hash_ba = compute_hash sha b a in
      if not (text_eq a b) then not (text_eq hash_ab.bytes hash_ba.bytes) else true

  unfoldable pub fuzz_hash_computation : Bytes → Bool
  fuzz_hash_computation bytes =
      let hex = display_hash (compute_hash sha bytes []) in length hex == 64 && all_hex hex

  -- The result of the decoder is not looked at.
  unfoldable pub fuzz_parse_execution_output : Base64 → Bytes → Bool
  fuzz_parse_execution_output b bytes =
      let decoded = b.decode bytes in
      let hex = display_hash (compute_hash sha bytes bytes) in length hex == 64

unfoldable pub build_command_wraps_block_name : Bool
build_command_wraps_block_name =
    let cmd = build_command (codes "git-env") in
    is_some (find (codes "git-env") cmd) && starts_with (codes "echo") cmd

-- The first assertion of the target; the rest makes JSON and reads it back.
unfoldable pub fuzz_content_hash : Bytes → Bool
fuzz_content_hash bytes =
    let hex = display_hash (new_content_hash bytes) in
    if not (length bytes == 32) then true else length hex == 64

-- The target passes for all bytes.
content_hash_test : (bytes : Bytes) → All (λ c. c < 256) bytes → fuzz_content_hash bytes ≡ true
unfolding fuzz_content_hash new_content_hash
content_hash_test bytes h = elim (Bool-cases (length bytes == 32)) [
  | inl q ↦
      (let (size, digits) =
          display_hash-IsHex (record { bytes = bytes })
            (record { size = (==_iff (length bytes) 32).0 q; range = h }) in
        rw (q, size) refl)
  | inr q ↦ rw q refl
]

command_test : build_command_wraps_block_name ≡ true
unfolding build_command_wraps_block_name build_command find starts_with
command_test = refl

hexdigit : (c : ℕ) → IsHexDigit c → is_ascii_hexdigit c ≡ true
unfolding is_ascii_hexdigit
hexdigit c h = ground arith

hexdigits : (s : Text) → All IsHexDigit s → all_hex s ≡ true
unfolding all_hex
hexdigits [] h = refl
hexdigits (c ∷ s) (hc, h) = rw (hexdigit c hc, hexdigits s h) refl

module _ (sha : Sha256) where
  compute_hash-IsHash : (stdout stderr : Bytes) → IsHash (compute_hash sha stdout stderr)
  unfolding compute_hash new_content_hash
  compute_hash-IsHash stdout stderr = record {
    size = sha.digest_size _;
    range = sha.digest_range _;
  }

  hex_test :
      (stdout stderr : Bytes)
      → let hex = display_hash (compute_hash sha stdout stderr) in
        (length hex == 64 && all_hex hex) ≡ true
  hex_test stdout stderr =
      let (size, digits) = display_hash-IsHex _ (compute_hash-IsHash stdout stderr) in
      rw (size, hexdigits _ digits) refl

  -- For all outputs, their hash is printed as 64 hexadecimal digits: the property test of the hashes and
  -- the fuzz targets of the hasher pass for every input.
  hash_tests :
      (b : Base64) (stdout stderr : Bytes)
      → (proptest_hash_output_always_64_hex_chars sha stdout stderr ≡ true)
        × (fuzz_hash_computation sha stdout ≡ true)
        × (fuzz_parse_execution_output sha b stdout ≡ true)
  unfolding proptest_hash_output_always_64_hex_chars fuzz_hash_computation
      fuzz_parse_execution_output
  hash_tests b stdout stderr =
      let (size, digits) = display_hash-IsHex _ (compute_hash-IsHash stdout stdout) in
      (hex_test stdout stderr, hex_test stdout [], rw size refl)

  deterministic_test : compute_hash_is_deterministic sha ≡ true
  unfolding compute_hash_is_deterministic
  deterministic_test = text_eq_refl _

-- The property test that swapping stdout and stderr changes the hash fails for every two outputs that
-- differ and are the same text when joined in either order, such as two that repeat one byte with
-- different lengths; whatever the hash function is.
pub hash_order_test-fails :
    (sha : Sha256) (a b : Bytes)
    → text_eq a b ≡ false
    → a ++ b ≡ b ++ a
    → proptest_hash_order_matters_stdout_before_stderr sha a b ≡ false
unfolding proptest_hash_order_matters_stdout_before_stderr
hash_order_test-fails sha a b differ e =
    rw (differ, compute_hash_cut sha a b b a e, text_eq_refl (compute_hash sha b a).bytes) refl
