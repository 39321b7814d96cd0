-- ===== src/Executor/Firecracker/Errors.antt =====
-- The errors of each method of the backend (forge-executor/src/firecracker.rs).
use apeiron.Base.{inl, inr, ◌≡◌, refl, Text}
use apeiron.Base.Outcome.{Outcome, panic}
use apeiron.Core.Id.{Uuid}
use apeiron.Core.Execution.{Duration}
use apeiron.Std.FilePath.{PathBuf}
use apeiron.Action.Rules.{Fails, FailsWith}
use apeiron.Executor.ExecutorError.{
  ExecutorError, binary_not_found, kvm_unavailable, spawn_failed, snapshot_failed, restore_failed,
  io,
}
use apeiron.Executor.Config.{VmConfig, VmHandle, SnapshotId, new_snapshot_id}
use apeiron.Executor.Action.{Result, ok, err, panicked}
use apeiron.Executor.Host.{Env, Trace, Json}
use apeiron.Executor.Firecracker.{
  FirecrackerBackend, configure_and_boot, snapshot_state_path, snapshot_mem_path,
}
use apeiron.Executor.Firecracker.Lifecycle.{
  bring_up, load_body, load_up, spawn, restore, terminate, health_check,
}
use apeiron.Executor.Firecracker.Requests.{
  SnapshotEnd, PauseEnd, CreateEnd, snapshot_lem, snapshot_result,
}
use apeiron.Executor.Firecracker.Snapshot.{create_body, create, snapshot}
use apeiron.Executor.Firecracker.Execute.{boot_args_for, boot_and_read, execute_command}
use apeiron.Executor.Firecracker.Paths.{IsUtf8, IsBuilt}
use apeiron.Executor.Firecracker.Failing.{IsAny, chain_rules, configure_and_boot-FailsWith}

-- What a health check may fail with.
pub IsHostError : ExecutorError → Type 0
IsHostError (kvm_unavailable reason) = Unit
IsHostError (binary_not_found path) = Unit
IsHostError _ = ⊥

-- What bringing up a VM may fail with.
pub IsSpawnError : ExecutorError → Type 0
IsSpawnError (kvm_unavailable reason) = Unit
IsSpawnError (binary_not_found path) = Unit
IsSpawnError (spawn_failed reason) = Unit
IsSpawnError (io e) = Unit
IsSpawnError _ = ⊥

pub IsRestoreError : Uuid → ExecutorError → Type 0
IsRestoreError id (restore_failed id' reason) = id' ≡ id
IsRestoreError id (io e) = Unit
IsRestoreError id _ = ⊥

pub IsSnapshotError : Uuid → ExecutorError → Type 0
IsSnapshotError id (snapshot_failed id' reason) = id' ≡ id
IsSnapshotError id (io e) = Unit
IsSnapshotError id _ = ⊥

pub IsIoError : ExecutorError → Type 0
IsIoError (io e) = Unit
IsIoError _ = ⊥

module _ (env : Env) (self : FirecrackerBackend) where
  health_check-FailsWith : FailsWith IsHostError (health_check env self)
  unfolding health_check IsHostError
  health_check-FailsWith = search chain_rules depth 30

  terminate-FailsWith : (handle : VmHandle) → FailsWith IsIoError (terminate env self handle)
  unfolding terminate IsIoError
  terminate-FailsWith handle = search chain_rules depth 30

  spawn-FailsWith :
      (config : VmConfig)
      → IsUtf8 env config.kernel_path
      → IsUtf8 env config.rootfs_path
      → FailsWith IsSpawnError (spawn env self config)
  unfolding spawn bring_up IsSpawnError
  spawn-FailsWith config k r = search (chain_rules, configure_and_boot-FailsWith, k, r) depth 60

  execute_command-FailsWith :
      (config : VmConfig) (command : Text) (timeout : Duration)
      → IsUtf8 env config.kernel_path
      → IsUtf8 env config.rootfs_path
      → FailsWith IsSpawnError (execute_command env self config command timeout)
  unfolding execute_command boot_and_read IsSpawnError
  execute_command-FailsWith config command timeout k r =
      let exec_config : VmConfig = record config { boot_args = boot_args_for command } in
      let boots : (socket : PathBuf) → FailsWith IsAny (configure_and_boot env socket exec_config) =
        λ socket. configure_and_boot-FailsWith env socket exec_config k r in
      search (chain_rules, boots) depth 60

  -- The two files of a snapshot have paths that are UTF-8.
  unfoldable pub NamedInUtf8 : SnapshotId → Type 0
  NamedInUtf8 id =
      IsUtf8 env (snapshot_state_path env self id) × IsUtf8 env (snapshot_mem_path env self id)

  restore-FailsWith :
      (id : SnapshotId)
      → IsUtf8 env (snapshot_state_path env self id)
      → IsUtf8 env (snapshot_mem_path env self id)
      → FailsWith (IsRestoreError id.uuid) (restore env self id)
  unfolding restore load_up load_body IsRestoreError
  restore-FailsWith id s m = search (chain_rules, s, m) depth 60

  snapshot_result-Fails :
      (handle : VmHandle) (id : SnapshotId) (r : Result Text)
      → Fails IsAny r
      → Fails (IsSnapshotError handle.id) (snapshot_result env handle id r)
  unfolding snapshot_result IsSnapshotError
  snapshot_result-Fails handle id (ok body) h = tt
  snapshot_result-Fails handle id (err e) h = refl
  snapshot_result-Fails handle id panicked h = h

  create-FailsWith : (handle : VmHandle) (body : Json) → FailsWith IsAny (create env handle body)
  unfolding create
  create-FailsWith handle body = search chain_rules depth 10

  create_body-IsBuilt :
      (state_path mem_path : PathBuf)
      → IsUtf8 env state_path
      → IsUtf8 env mem_path
      → IsBuilt (create_body env state_path mem_path)
  unfolding create_body
  create_body-IsBuilt state_path mem_path s m = search (chain_rules, s, m) depth 10

  not_built : {P : Type 0} (o : Outcome Json) → IsBuilt o → o ≡ panic → P
  not_built o b e = let q = b.made in cc

  snapshot-Fails :
      (handle : VmHandle) (t : Trace)
      → NamedInUtf8 (new_snapshot_id (env.random t))
      → Fails (IsSnapshotError handle.id) (snapshot env self handle t).0
  unfolding SnapshotEnd PauseEnd CreateEnd NamedInUtf8 IsSnapshotError
  snapshot-Fails handle t (s, m) = elim (snapshot_lem env self handle t) [
    | inl (e, made, q) ↦ rw q tt
    | inr (made, inl (e, paused, q)) ↦ rw q refl
    | inr (made, inr (a, paused, inl (json, q))) ↦ not_built _ (create_body-IsBuilt _ _ s m) json
    | inr (made, inr (a, paused, inr (body, json, q))) ↦
        rw q (snapshot_result-Fails handle _ _ ((create-FailsWith handle body).at _))
  ]

  -- If the paths of the kernel and of the root file system, and those of the snapshots' files, are
  -- UTF-8, each method of the backend fails only with errors of its own kinds, and does not panic, whatever
  -- the outside answers: a health check with an error of KVM or of the binary; a spawn and an execution
  -- with these, a failed spawn or an error of the operating system; a restore and a snapshot with the
  -- failure of this restore or snapshot or an error of the operating system; a terminate with an error
  -- of the operating system.
  pub backend_errors :
      (config : VmConfig) (command : Text) (timeout : Duration) (id : SnapshotId)
      (handle : VmHandle) (t : Trace)
      → IsUtf8 env config.kernel_path
      → IsUtf8 env config.rootfs_path
      → ((id : SnapshotId) → NamedInUtf8 id)
      → Fails IsHostError (health_check env self t).0
        × Fails IsSpawnError (spawn env self config t).0
        × Fails IsSpawnError (execute_command env self config command timeout t).0
        × Fails (IsRestoreError id.uuid) (restore env self id t).0
        × Fails (IsSnapshotError handle.id) (snapshot env self handle t).0
        × Fails IsIoError (terminate env self handle t).0
  unfolding NamedInUtf8
  backend_errors config command timeout id handle t k r named = (
    health_check-FailsWith.at t,
    (spawn-FailsWith config k r).at t,
    (execute_command-FailsWith config command timeout k r).at t,
    (restore-FailsWith id (named id).0 (named id).1).at t,
    snapshot-Fails handle t (named (new_snapshot_id (env.random t))),
    (terminate-FailsWith handle).at t,
  )
