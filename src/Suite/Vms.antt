-- ===== src/Suite/Vms.antt =====
-- The integration tests of forge-executor/tests: firecracker_lifecycle.rs and block_execution.rs, over the
-- model of the backend. A test that panics drops the handles that it still has. What a test prints is
-- left out.
pub mod Processes
use apeiron.Base.{
  Bool, not, ◌&&◌, ◌==◌, List, [], ◌∷◌, ◌++◌, Text, codes, text_eq, if◌then◌else◌, ◌*◌,
}
use apeiron.Base.Outcome.{Outcome, value}
use apeiron.Core.Id.{Uuid}
use apeiron.Core.Block.{Block, DateTime}
use apeiron.Core.Examples.{example_blocks}
use apeiron.Executor.Runner.Hash.{replicate}
use apeiron.Std.FilePath.{PathBuf, join}
use apeiron.Executor.Config.{VmConfig, VmHandle, SnapshotId, new_vm_config}
use apeiron.Executor.Action.{ok, panicked, Action, pure, ◌>>=◌, ◌>>◌}
use apeiron.Executor.Host.{Env, Trace, ask, emit, sleep, holding}
use apeiron.Executor.Firecracker.{FirecrackerBackend, new_backend}
use apeiron.Executor.Firecracker.Lifecycle.{spawn, restore, terminate}
use apeiron.Executor.Firecracker.Snapshot.{snapshot}
use apeiron.Executor.Firecracker.Instance.{firecracker}
use apeiron.Executor.Runner.{Sha256, Clock, with_timeout, execute}
use apeiron.Executor.Runner.Determinism.{expect, run_hashes, all_identical}

-- `assert!`
unfoldable pub assert : {S : Type 0} → Bool → Action S (Unit {0})
assert holds = if holds then pure tt else λ s. (panicked, s)

unfoldable pub test_backend : FirecrackerBackend
test_backend =
    new_backend (codes "firecracker") (codes "/tmp/forge-test-sockets")
      (codes "/tmp/forge-test-snapshots")

unfoldable pub test_config : VmConfig
test_config =
    new_vm_config (codes "/home/eouzoe/src/active/forge/test-assets/vmlinux.bin")
      (codes "/home/eouzoe/src/active/forge/test-assets/rootfs.ext4")

-- `path.exists()`
unfoldable pub assert_exists : Env → PathBuf → Action Trace (Unit {0})
unfolding assert
assert_exists env path = do there ← ask (λ t. env.exists t path); assert there

module _ (env : Env) where
  unfoldable pub spawn_vm_starts_and_responds : Action Trace (Unit {0})
  unfolding expect assert_exists
  spawn_vm_starts_and_responds = do
    handle ← expect (spawn env test_backend test_config)
    holding handle.process (assert_exists env handle.socket_path)
    expect (terminate env test_backend handle)

  -- What the test asserts of the files of a snapshot.
  unfoldable pub snapshot_file : SnapshotId → Text → PathBuf
  snapshot_file id suffix = codes "/tmp/forge-test-snapshots/" ++ (env.uuid_text id.uuid ++ suffix)

  unfoldable pub snapshot_creates_recoverable_state : Action Trace (Unit {0})
  unfolding expect assert_exists
  snapshot_creates_recoverable_state = do
    handle ← expect (spawn env test_backend test_config)
    holding handle.process do
      emit (sleep 1000)
      snapshot_id ← expect (snapshot env test_backend handle)
      assert_exists env (snapshot_file snapshot_id (codes ".mem"))
      assert_exists env (snapshot_file snapshot_id (codes ".state"))
    expect (terminate env test_backend handle)

  unfoldable pub restore_from_snapshot_succeeds : Action Trace (Unit {0})
  unfolding expect assert_exists assert
  restore_from_snapshot_succeeds = do
    handle ← expect (spawn env test_backend test_config)
    snapshot_id ←
        holding handle.process (emit (sleep 1000) >> expect (snapshot env test_backend handle))
    expect (terminate env test_backend handle)
    restored ← expect (restore env test_backend snapshot_id)
    holding restored.process
        do assert_exists env restored.socket_path; assert (not (restored.id == handle.id))
    expect (terminate env test_backend restored)

unfoldable pub make_backend : FirecrackerBackend
make_backend =
    new_backend (codes "/usr/local/bin/firecracker") (codes "/tmp/forge-sockets")
      (codes "/tmp/forge-snapshots")

-- The argument is the directory of the workspace.
unfoldable pub make_vm_config : PathBuf → VmConfig
make_vm_config root =
    new_vm_config (join root (codes "test-assets/vmlinux.bin"))
      (join root (codes "test-assets/rootfs.ext4"))

-- `&blocks[0]`, where the blocks were made.
unfoldable pub first : {S : Type 0} → Outcome (List Block) → Action S Block
first (value (b ∷ blocks)) s = (ok b, s)
first _ s = (panicked, s)

-- The arguments are what `example_blocks` draws, its time and identifiers, and the workspace.
module _ (sha : Sha256) (clock : Clock Trace) (env : Env) (root : PathBuf) (now : DateTime)
    (git_id rust_dev_id bose_search_id : Uuid) where
  unfoldable pub git_block_five_runs_produce_identical_hash : Action Trace (Unit {0})
  unfolding assert first run_hashes all_identical
  git_block_five_runs_produce_identical_hash = do
    git_block ← first (example_blocks now git_id rust_dev_id bose_search_id)
    assert (text_eq git_block.manifest.name (codes "git-env"))
    hashes ←
        run_hashes sha clock
          (with_timeout (firecracker env make_backend) (make_vm_config root) (30 * 1_000_000_000))
          git_block [] 5
    assert (all_identical hashes)

  unfoldable pub single_vm_execution_completes : Action Trace (Unit {0})
  unfolding assert first expect
  single_vm_execution_completes = do
    git_block ← first (example_blocks now git_id rust_dev_id bose_search_id)
    record_of_run ← expect (
        execute sha clock
          (with_timeout (firecracker env make_backend) (make_vm_config root) (30 * 1_000_000_000))
          git_block [])
    assert (record_of_run.block_id.uuid == git_block.id.uuid)
    assert (not (text_eq record_of_run.output_hash.bytes (replicate 32 0)))
