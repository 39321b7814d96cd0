-- ===== src/Tests/Blocks.antt =====
-- Trust scores, hashes and runs of blocks (forge-core, forge-executor/src/runner.rs) at concrete inputs.
use apeiron.Base.{false, text_eq}
use apeiron.Suite.Hashes.{proptest_hash_order_matters_stdout_before_stderr, hash_order_test-fails}
use apeiron.Base.{
  ℕ, suc, zero, ◌%◌, ◌<◌, ◌≡◌, refl, ap, append_assoc, ◌||◌, leb, ◌==◌, [], ◌∷◌, ◌++◌, arith,
  if◌then◌else◌, length, Bytes, All, codes,
}
use apeiron.Base.Int.{pos}
use apeiron.Core.Id.{ContentHash}
use apeiron.Core.Id.Hex.{IsHash, display_hash-injective}
use apeiron.Core.CoreError.{invalid_trust_score}
use apeiron.Core.Trust.{f64_one, ok, err, new_trust_score}
use apeiron.Core.Trust.Range.{negative_zero, new_trust_score_lem}
use apeiron.Core.Block.{Block}
use apeiron.Core.Id.{new_user_id}
use apeiron.Core.Execution.{ExecutionRecord, new_execution_record, succeeded}
use apeiron.Core.Examples.{git_manifest, example_block}
use apeiron.Executor.Config.{new_vm_config}
use apeiron.Executor.Action
use apeiron.Executor.Backend.{ExecutionOutput}
use apeiron.Tests.Vms.{counting}
use apeiron.Executor.Runner.{Sha256, Clock, BlockRunner, new_runner, compute_hash, execute}
use apeiron.Executor.Runner.Hash.{replicate, compute_hash_cut}
use apeiron.Executor.Runner.Execution.{backend_call, RunEnd, execute_lem}

-- One half, and a number that is not a number.
new_trust_score_lem_example : new_trust_score 0x3fe0_0000_0000_0000 ≡ (
    if leb 0x3fe0_0000_0000_0000 f64_one || 0x3fe0_0000_0000_0000 == negative_zero
    then ok (record { score = 0x3fe0_0000_0000_0000 })
    else err (invalid_trust_score 0x3fe0_0000_0000_0000))
new_trust_score_lem_example = new_trust_score_lem 0x3fe0_0000_0000_0000 (omega arith)

-- A hash of 32 equal bytes.
abbrev sevens : ContentHash
sevens = record { bytes = replicate 32 7 }

replicate-InRange : (n x : ℕ) → x < 256 → All (λ b. b < 256) (replicate n x)
replicate-InRange zero x h = tt
replicate-InRange (suc n) x h = (h, replicate-InRange n x h)

sevens-IsHash : IsHash sevens
sevens-IsHash = record { size = refl; range = replicate-InRange 32 7 (omega arith) }

display_hash-injective_example : sevens ≡ sevens
display_hash-injective_example =
    display_hash-injective sevens sevens sevens-IsHash sevens-IsHash refl

-- A hasher that keeps what it is fed; its digest is the first 32 bytes, with zeros behind them.
abbrev pub digest : ℕ → Bytes → Bytes
digest zero bs = []
digest (suc n) [] = 0 ∷ digest n []
digest (suc n) (b ∷ bs) = b % 256 ∷ digest n bs

pub length-digest : (n : ℕ) (bs : Bytes) → length (digest n bs) ≡ n
length-digest zero bs = refl
length-digest (suc n) [] = ap suc (length-digest n [])
length-digest (suc n) (b ∷ bs) = ap suc (length-digest n bs)

pub digest-InRange : (n : ℕ) (bs : Bytes) → All (λ b. b < 256) (digest n bs)
digest-InRange zero bs = tt
digest-InRange (suc n) [] = (omega arith, digest-InRange n [])
digest-InRange (suc n) (b ∷ bs) = (omega arith, digest-InRange n bs)

abbrev pub keeper : Sha256
keeper = record {
  Hasher = Bytes;
  new = [];
  update = λ h a. h ++ a;
  finalize = digest 32;
  update-append = append_assoc;
  digest_size = length-digest 32;
  digest_range = digest-InRange 32;
}

compute_hash_cut_example :
    compute_hash keeper (codes "ab") (codes "c") ≡ compute_hash keeper (codes "a") (codes "bc")
compute_hash_cut_example =
    compute_hash_cut keeper (codes "ab") (codes "c") (codes "a") (codes "bc") refl

abbrev steps : Clock ℕ
steps = record { now = λ s. s; instant = λ s. s; random = λ s. s }

abbrev runner : BlockRunner ℕ
runner = new_runner counting (new_vm_config (codes "/vmlinux") (codes "/rootfs"))

abbrev pub block : Block
block = example_block 0 1 git_manifest (record { score = f64_one }) (codes "hash")

execute_lem_example :
    ((execute keeper steps runner block (codes "in") 4).1
      ≡ (backend_call keeper steps runner block 4).1)
    × RunEnd keeper steps runner block 4
        (backend_call keeper steps runner block 4).1
        (codes "in")
        (backend_call keeper steps runner block 4).0
        (execute keeper steps runner block (codes "in") 4).0
execute_lem_example = execute_lem keeper steps runner block (codes "in") 4

-- What a run that begins in the state `s` gives.
abbrev output : ExecutionOutput
output = record { stdout = codes "echo 'git-env'"; stderr = []; exit_code = pos 1 }

abbrev record_from : ℕ → ExecutionRecord
record_from s =
    new_execution_record (suc s) block.id (new_user_id (codes "forge-runner"))
      (compute_hash keeper (codes "in") []) (compute_hash keeper output.stdout output.stderr) s 1
      succeeded

run_at_4 : execute keeper steps runner block (codes "in") 4 ≡ (Action.ok (record_from 4), 5)
unfolding execute new_runner apeiron.Executor.Runner.build_command
run_at_4 = refl

run_at_8 : execute keeper steps runner block (codes "in") 8 ≡ (Action.ok (record_from 8), 9)
unfolding execute new_runner apeiron.Executor.Runner.build_command
run_at_8 = refl

hash_order_test-fails_example :
    proptest_hash_order_matters_stdout_before_stderr keeper (codes "aa") (codes "a") ≡ false
unfolding text_eq
hash_order_test-fails_example = hash_order_test-fails keeper (codes "aa") (codes "a") refl refl
