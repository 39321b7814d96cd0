-- ===== src/Executor/Firecracker/Lifecycle.antt =====
-- `spawn`, `restore`, `terminate` and `health_check` of `impl VmmBackend for FirecrackerBackend`
-- (forge-executor/src/firecracker.rs). Log lines are left out.
use apeiron.Base.{true, false, not, ◌||◌, ◌++◌, Text, codes, if◌then◌else◌}
use apeiron.Base.Outcome.{Outcome, value}
use apeiron.Core.Id.{Uuid}
use apeiron.Std.FilePath.{PathBuf}
use apeiron.Executor.ExecutorError.{IoError, kvm_unavailable, spawn_failed, restore_failed}
use apeiron.Executor.Config.{VmConfig, SnapshotId, Pid, VmHandle, new_vm_handle}
use apeiron.Executor.Action.{ok, err, Action, pure, fail, map_err, ◌>>=◌, ◌>>◌}
use apeiron.Executor.Host.{
  Env, Trace, Answer, done, failed, Json, text, boolean, object, end, field, with_path, remove_file,
  killed, emit, ask, or_io, holding, scoped, draw_uuid, clock, make_directory, start,
}
use apeiron.Executor.Firecracker.{
  FirecrackerBackend, to_string, socket_path, snapshot_mem_path, snapshot_state_path, dev_kvm,
  which_binary, wait_for_socket, put_json, configure_and_boot,
}

-- `if !Path::new("/dev/kvm").exists()`
unfoldable pub require_kvm : Env → Action Trace (Unit {0})
require_kvm env = do
  there ← ask (λ t. env.exists t dev_kvm)
  if there then pure tt else fail (kvm_unavailable (codes "/dev/kvm not found"))

-- `tokio::fs::metadata("/dev/kvm").await.map_err(…)?`
unfoldable pub readable : Answer (Unit {0}) → Action Trace (Unit {0})
readable (done u) t = (ok u, t)
readable (failed e) t =
    (err (kvm_unavailable (codes "cannot access /dev/kvm (permission denied?)")), t)

unfoldable pub exec_failed : Env → IoError → Text
exec_failed env e = codes "exec firecracker: " ++ env.io_text e

unfoldable pub load_body : Env → PathBuf → PathBuf → Outcome Json
load_body env state_path mem_path = with_path env state_path λ snapshot_path.
    with_path env mem_path λ backend_path. value (
      object (
        field "snapshot_path" snapshot_path (
          field "mem_backend"
            (object
              (field "backend_path" backend_path (field "backend_type" (text (codes "File")) end)))
            (field "enable_diff_snapshots" (boolean false)
              (field "resume_vm" (boolean true) end)))))

-- What `spawn` does with its child process, and what `restore` does.
unfoldable pub bring_up : Env → VmConfig → Uuid → PathBuf → Pid → Action Trace VmHandle
bring_up env config vm_id socket process = do
  wait_for_socket env socket
  map_err (λ e. spawn_failed (to_string env e)) (configure_and_boot env socket config)
  now ← clock env
  pure (new_vm_handle vm_id socket process now)

unfoldable pub load_up :
    Env → SnapshotId → Outcome Json → Uuid → PathBuf → Pid → Action Trace VmHandle
load_up env snapshot_id body vm_id socket process = do
  map_err (λ e. restore_failed snapshot_id.uuid (to_string env e)) (wait_for_socket env socket)
  map_err (λ e. restore_failed snapshot_id.uuid (to_string env e))
      (put_json env socket (codes "/snapshot/load") body)
  now ← clock env
  pure (new_vm_handle vm_id socket process now)

module _ (env : Env) (self : FirecrackerBackend) where
  unfoldable pub spawn : VmConfig → Action Trace VmHandle
  spawn config = do
    require_kvm env
    binary_there ← ask (λ t. env.exists t self.binary_path)
    if binary_there then pure tt else which_binary env self.binary_path
    vm_id ← draw_uuid env
    let socket = socket_path env self vm_id
    make_directory env self.socket_dir
    process ← start env self.binary_path socket (λ e. spawn_failed (exec_failed env e))
    holding process (bring_up env config vm_id socket process)

  unfoldable pub restore : SnapshotId → Action Trace VmHandle
  restore snapshot_id = do
    let mem_path = snapshot_mem_path env self snapshot_id
    let state_path = snapshot_state_path env self snapshot_id
    exists ← ask env.exists
    if not (exists mem_path) || not (exists state_path)
        then fail
            (restore_failed snapshot_id.uuid (codes "snapshot files not found at " ++ mem_path))
        else pure tt
    vm_id ← draw_uuid env
    let socket = socket_path env self vm_id
    make_directory env self.socket_dir
    process ←
        start env self.binary_path socket (λ e. restore_failed snapshot_id.uuid (exec_failed env e))
    holding process
        (load_up env snapshot_id (load_body env state_path mem_path) vm_id socket process)

  -- `handle.process.kill().await?`; the result of `remove_file` is dropped, and so is the handle.
  unfoldable pub terminate : VmHandle → Action Trace (Unit {0})
  terminate handle = scoped handle.process do
    answer ← ask (λ t. env.kill t handle.process)
    or_io answer
    emit (killed handle.process)
    emit (remove_file handle.socket_path)

  unfoldable pub health_check : Action Trace (Unit {0})
  health_check = do
    require_kvm env
    seen ← ask (λ t. env.metadata t dev_kvm)
    readable seen
    which_binary env self.binary_path
