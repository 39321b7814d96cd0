-- ===== src/Suite/Core.antt =====
-- The unit tests of forge-core/src/lib.rs.
use apeiron.Base.{
  arith, ◌*◌, ◌≡◌, refl, Bool, true, false, not, ◌&&◌, List, [], ◌∷◌, ◌++◌, ◌==◌, if◌then◌else◌,
  length, is_some, Text, codes, text_eq,
}
use apeiron.Base.Outcome.{Outcome, value, panic, ◌>>=◌}
use apeiron.Core.Id.{
  Uuid, ContentHash, new_block_id, new_user_id, new_content_hash, as_bytes, display_hash,
}
use apeiron.Core.Trust.{
  F64, TrustLevel, level_zero, level_one, level_two, level_three, Checked, ok, err, new_trust_score,
  try_from, new_sem_ver, display_version,
}
use apeiron.Core.Trust.Display.{display_score}
use apeiron.Core.Block.{Block, DateTime, CognitiveLoad, low, medium, high}
use apeiron.Core.Execution.{ExecutionStatus, succeeded, failed, new_execution_record}
use apeiron.Core.Examples.{example_blocks}
use apeiron.Executor.Runner.Hash.{replicate}
use apeiron.Serial.Search.Find.{starts_with}

abbrev is_ok {ℓ} : {A : Type ℓ} → Checked A → Bool
is_ok (ok a) = true
is_ok (err e) = false

abbrev is_err {ℓ} : {A : Type ℓ} → Checked A → Bool
is_err c = not (is_ok c)

-- 0.0, 0.5, 1.0
unfoldable pub trust_score_valid_range_accepts : Bool
trust_score_valid_range_accepts =
    is_ok (new_trust_score 0)
    && is_ok (new_trust_score 0x3fe0_0000_0000_0000)
    && is_ok (new_trust_score 0x3ff0_0000_0000_0000)

-- -0.1, 1.1, NaN, infinity
unfoldable pub trust_score_out_of_range_rejects : Bool
trust_score_out_of_range_rejects =
    is_err (new_trust_score 0xbfb9_9999_9999_999a)
    && is_err (new_trust_score 0x3ff1_9999_9999_999a)
    && is_err (new_trust_score 0x7ff8_0000_0000_0000)
    && is_err (new_trust_score 0x7ff0_0000_0000_0000)

ends_with : Text → Text → Bool
ends_with w [] = text_eq w []
ends_with w (c ∷ s) = let rest = ends_with w s in if text_eq w (c ∷ s) then true else rest

-- 0xde, 0xad, zeros, 0xff
abbrev dead_ff : ContentHash
dead_ff = new_content_hash (0xde ∷ 0xad ∷ (replicate 29 0 ++ 0xff ∷ []))

unfoldable pub content_hash_display_shows_hex : Bool
unfolding ends_with
content_hash_display_shows_hex =
    let s = display_hash dead_ff in
    starts_with (codes "dead") s && ends_with (codes "ff") s && length s == 64

same_level : TrustLevel → TrustLevel → Bool
same_level level_zero level_zero = true
same_level level_one level_one = true
same_level level_two level_two = true
same_level level_three level_three = true
same_level _ _ = false

same_load : CognitiveLoad → CognitiveLoad → Bool
same_load low low = true
same_load medium medium = true
same_load high high = true
same_load _ _ = false

-- `blocks[0]`, `blocks[1]` and `blocks[2]`
checks_of_blocks : List Block → Bool
unfolding same_level same_load
checks_of_blocks (git ∷ rust_dev ∷ bose ∷ []) =
    text_eq git.manifest.name (codes "git-env")
    && same_level git.manifest.minimum_trust_level level_zero
    && same_load git.manifest.cognitive_load low
    && length git.manifest.requires == 0
    && length git.manifest.provides == 1
    && text_eq rust_dev.manifest.name (codes "rust-dev-env")
    && same_level rust_dev.manifest.minimum_trust_level level_one
    && same_load rust_dev.manifest.cognitive_load medium
    && length rust_dev.manifest.requires == 1
    && text_eq bose.manifest.name (codes "bose-search")
    && same_level bose.manifest.minimum_trust_level level_two
    && same_load bose.manifest.cognitive_load high
    && length bose.manifest.requires == 2
checks_of_blocks _ = false

unfoldable pub example_blocks_all_valid : DateTime → Uuid → Uuid → Uuid → Outcome Bool
unfolding checks_of_blocks
example_blocks_all_valid now git_id rust_dev_id bose_search_id = do
  blocks ← example_blocks now git_id rust_dev_id bose_search_id
  value (checks_of_blocks blocks)

unfoldable pub semver_display_formats_correctly : Bool
semver_display_formats_correctly =
    text_eq (display_version (new_sem_ver 1 2 3)) (codes "1.2.3")
    && text_eq (display_version (new_sem_ver 0 0 0)) (codes "0.0.0")

unfoldable pub content_hash_as_bytes_returns_raw_bytes : Bool
content_hash_as_bytes_returns_raw_bytes =
    text_eq (as_bytes (new_content_hash (replicate 32 0xab))) (replicate 32 0xab)

unfoldable pub content_hash_equality_same_bytes : Bool
content_hash_equality_same_bytes =
    let a = new_content_hash (replicate 32 0x42) in
    let b = new_content_hash (replicate 32 0x42) in text_eq a.bytes b.bytes

-- 0.5
unfoldable pub trust_score_display_formats_to_4_decimal_places : Outcome Bool
trust_score_display_formats_to_4_decimal_places = elim (new_trust_score 0x3fe0_0000_0000_0000) [
  | ok score ↦ value (text_eq (display_score score) (codes "0.5000"))
  | err e ↦ panic
]

-- 0.9
unfoldable pub trust_score_try_from_valid_value_succeeds : Bool
trust_score_try_from_valid_value_succeeds = is_ok (try_from 0x3fec_cccc_cccc_cccd)

-- A `Duration` of 100 milliseconds, in nanoseconds.
unfoldable pub execution_record_new_sets_correct_fields : Uuid → Uuid → DateTime → Bool
execution_record_new_sets_correct_fields block record_id started_at =
    let block_id = new_block_id block in
    let user_id = new_user_id (codes "test-user") in
    let input_hash = new_content_hash (replicate 32 0) in
    let output_hash = new_content_hash (replicate 32 1) in
    let duration = 100 * 1_000_000 in
    let r =
      new_execution_record record_id block_id user_id input_hash output_hash started_at duration
        succeeded in
    r.block_id.uuid == block_id.uuid
    && text_eq r.user_id.name user_id.name
    && text_eq r.input_hash.bytes input_hash.bytes
    && text_eq r.output_hash.bytes output_hash.bytes
    && r.duration == duration
    && not (is_some r.vm_snapshot_id)

reason_of : ExecutionStatus → Outcome Text
reason_of (failed reason) = value reason
reason_of _ = panic

unfoldable pub execution_status_failed_contains_reason : Outcome Bool
unfolding reason_of
execution_status_failed_contains_reason = do
  reason ← reason_of (failed (codes "out of memory"))
  value (text_eq reason (codes "out of memory"))

core_tests :
    (trust_score_valid_range_accepts ≡ true)
    × (trust_score_out_of_range_rejects ≡ true)
    × (content_hash_display_shows_hex ≡ true)
    × (semver_display_formats_correctly ≡ true)
    × (content_hash_as_bytes_returns_raw_bytes ≡ true)
    × (content_hash_equality_same_bytes ≡ true)
    × (trust_score_display_formats_to_4_decimal_places ≡ value true)
    × (trust_score_try_from_valid_value_succeeds ≡ true)
    × (execution_status_failed_contains_reason ≡ value true)
unfolding trust_score_valid_range_accepts new_trust_score trust_score_out_of_range_rejects
    content_hash_display_shows_hex starts_with display_hash new_content_hash text_eq
    semver_display_formats_correctly display_version apeiron.Std.Decimal.show_ℕ
    content_hash_as_bytes_returns_raw_bytes as_bytes content_hash_equality_same_bytes
    trust_score_display_formats_to_4_decimal_places display_score try_from
    apeiron.Core.Trust.Display.show_places apeiron.Core.Trust.Display.four_digits
    apeiron.Core.Trust.Display.mantissa apeiron.Core.Trust.Display.round_half_even
    apeiron.Core.Trust.Display.shift apeiron.Core.Trust.Display.ten_thousandths
    trust_score_try_from_valid_value_succeeds execution_status_failed_contains_reason
core_tests = (refl, refl, refl, refl, refl, refl, refl, refl, refl)

-- Whatever the time and the identifiers drawn, making the example blocks does not panic and their test
-- passes, and so does the test of a new execution record.
pub random_core_tests :
    (now : DateTime) (a b c : Uuid)
    → (example_blocks_all_valid now a b c ≡ value true)
      × (execution_record_new_sets_correct_fields a b now ≡ true)
unfolding example_blocks_all_valid example_blocks new_trust_score text_eq
    execution_record_new_sets_correct_fields new_execution_record new_block_id new_user_id
    new_content_hash
random_core_tests now a b c = (refl, ground arith)
