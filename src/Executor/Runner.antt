-- ===== src/Executor/Runner.antt =====
-- forge-executor/src/runner.rs. The crate `sha2` is the parameter `Sha256`; the clocks and the random
-- numbers are read from the state by the parameter `Clock`. Log lines are left out.
pub mod Hash
pub mod Execution
pub mod Determinism
use apeiron.Base.{ℕ, ◌-◌, ◌*◌, ◌≡◌, ◌<◌, [], ◌++◌, length, All, Bytes, Text, codes}
use apeiron.Core.Id.{Uuid, ContentHash, new_content_hash, new_user_id}
use apeiron.Core.Block.{Block, DateTime}
use apeiron.Core.Execution.{ExecutionRecord, Duration, new_execution_record, succeeded}
use apeiron.Executor.Config.{VmConfig}
use apeiron.Executor.Action.{Action, pure, ok, err, ◌>>=◌, ◌>>◌}
use apeiron.Executor.Backend.{VmmBackend, ExecutionOutput}

-- A hasher is fed piece by piece; only the bytes count, not the cuts between the pieces. The digest
-- is 32 bytes.
pub record Sha256 : Type 1 where
  pub Hasher : Type 0
  pub new : Hasher
  pub update : Hasher → Bytes → Hasher
  pub finalize : Hasher → Bytes
  pub update-append : (h : Hasher) (a b : Bytes) → update (update h a) b ≡ update h (a ++ b)
  pub digest_size : (h : Hasher) → length (finalize h) ≡ 32
  pub digest_range : (h : Hasher) → All (λ b. b < 256) (finalize h)

pub record Clock (S : Type 0) : Type 0 where
  pub now : S → DateTime
  pub instant : S → ℕ
  pub random : S → Uuid

-- 30 seconds, in nanoseconds.
abbrev pub default_timeout : Duration
default_timeout = 30 * 1_000_000_000

pub record BlockRunner (S : Type 0) : Type 0 where
  pub backend : VmmBackend S
  pub vm_config : VmConfig
  pub timeout : Duration

unfoldable pub with_timeout : {S : Type 0} → VmmBackend S → VmConfig → Duration → BlockRunner S
with_timeout backend vm_config timeout = record {
  backend = backend;
  vm_config = vm_config;
  timeout = timeout;
}

-- `BlockRunner::new`
unfoldable pub new_runner : {S : Type 0} → VmmBackend S → VmConfig → BlockRunner S
unfolding with_timeout
new_runner backend vm_config = with_timeout backend vm_config default_timeout

unfoldable pub compute_hash : Sha256 → Bytes → Bytes → ContentHash
unfolding new_content_hash
compute_hash sha stdout stderr =
    new_content_hash (sha.finalize (sha.update (sha.update sha.new stdout) stderr))

unfoldable pub build_command : Text → Text
build_command block_name = codes "echo '" ++ (block_name ++ codes "'")

-- `BlockRunner::execute`; `wall_start.elapsed()` is 0 if the clock went back.
unfoldable pub execute :
    {S : Type 0} → Sha256 → Clock S → BlockRunner S → Block → Bytes → Action S ExecutionRecord
execute sha clock self block input s =
    let input_hash = compute_hash sha input [] in
    let started_at = clock.now s in
    let wall_start = clock.instant s in
    let command = build_command block.manifest.name in
    (do
      output ← self.backend.execute_command self.vm_config command self.timeout
      (λ s'.
          let duration = clock.instant s' - wall_start in
          let output_hash = compute_hash sha output.stdout output.stderr in
          (
            ok (
                new_execution_record (clock.random s') block.id (new_user_id (codes "forge-runner"))
                  input_hash output_hash started_at duration succeeded),
            s',
          )))
      s
