-- ===== src/Executor/Firecracker.antt =====
-- forge-executor/src/firecracker.rs: the paths of the backend, the search for the binary, and the
-- two steps that bring a VM up. The methods of the trait are in the modules below.
pub mod Lifecycle
pub mod Snapshot
pub mod Execute
pub mod Processes
pub mod Handles
pub mod Reading
pub mod Instance
pub mod Errors
pub mod Failing
pub mod Paths
pub mod Requests
pub mod Restoring
pub mod Spawning
pub mod Health
pub mod Identifiers
pub mod Booting
pub mod Ownership
pub mod Waiting
use apeiron.Base.{
  ℕ, zero, suc, Bool, true, false, ◌||◌, Option, none, some, List, [], ◌∷◌, ◌++◌, Text, codes, ◌==◌,
  if◌then◌else◌, unwrap_or,
}
use apeiron.Base.Outcome.{Outcome, value}
use apeiron.Core.Id.{Uuid}
use apeiron.Std.FilePath.{PathBuf, join, is_absolute}
use apeiron.Executor.ExecutorError.{
  ExecutorError, IoError, binary_not_found, spawn_failed, display_error,
}
use apeiron.Executor.Config.{VmConfig, SnapshotId}
use apeiron.Executor.Action.{Action, pure, fail, ◌>>=◌, ◌>>◌}
use apeiron.Executor.Host.{
  Env, Trace, Json, Fields, with_path, built, text, number, boolean, object, end, field, Method,
  put, sleep, emit, ask,
}
use apeiron.Executor.UnixClient.{api_request}

pub record FirecrackerBackend : Type 0 where
  pub binary_path : PathBuf
  pub socket_dir : PathBuf
  pub snapshot_dir : PathBuf

unfoldable pub new_backend : PathBuf → PathBuf → PathBuf → FirecrackerBackend
new_backend binary_path socket_dir snapshot_dir = record {
  binary_path = binary_path;
  socket_dir = socket_dir;
  snapshot_dir = snapshot_dir;
}

unfoldable pub with_defaults : FirecrackerBackend
unfolding new_backend
with_defaults =
    new_backend (codes "firecracker") (codes "/tmp/forge-sockets") (codes "/tmp/forge-snapshots")

-- `e.to_string()`
unfoldable pub to_string : Env → ExecutorError → Text
to_string env e = display_error env.uuid_text env.io_text e

module _ (env : Env) (self : FirecrackerBackend) where
  unfoldable pub socket_path : Uuid → PathBuf
  socket_path vm_id = join self.socket_dir (env.uuid_text vm_id ++ codes ".sock")

  unfoldable pub snapshot_mem_path : SnapshotId → PathBuf
  snapshot_mem_path id = join self.snapshot_dir (env.uuid_text id.uuid ++ codes ".mem")

  unfoldable pub snapshot_state_path : SnapshotId → PathBuf
  snapshot_state_path id = join self.snapshot_dir (env.uuid_text id.uuid ++ codes ".state")

abbrev pub dev_kvm : PathBuf
dev_kvm = codes "/dev/kvm"

-- `text.split(sep)`
split_onto : ℕ → Text → Text → List Text
split_onto sep piece [] = piece ∷ []
split_onto sep piece (c ∷ s) = elim (c == sep) [
  | true ↦ piece ∷ split_onto sep [] s
  | false ↦ split_onto sep (piece ++ c ∷ []) s
]

unfoldable pub split : ℕ → Text → List Text
unfolding split_onto
split sep s = split_onto sep [] s

-- `dirs.map(|dir| Path::new(dir).join(path)).any(|p| p.exists())`
unfoldable pub found_in : (PathBuf → Bool) → PathBuf → List Text → Bool
found_in exists path [] = false
found_in exists path (dir ∷ dirs) = exists (join dir path) || found_in exists path dirs

unfoldable pub which_binary : Env → PathBuf → Action Trace (Unit {0})
which_binary env path = do
  exists ← ask env.exists
  if is_absolute path
      then (if exists path then pure tt else fail (binary_not_found path))
      else (if found_in exists path (split b':' (unwrap_or [] env.path_variable))
          then pure tt
          else fail (binary_not_found path))

-- `for _ in 0..rounds`: poll, and sleep 100 ms after a poll that finds nothing.
unfoldable pub poll_socket : ℕ → Env → PathBuf → Action Trace (Unit {0})
poll_socket zero env socket =
    fail (spawn_failed (codes "socket " ++ (socket ++ codes " did not appear within 5s")))
poll_socket (suc rounds) env socket = do
  there ← ask (λ t. env.exists t socket)
  let again : Action Trace (Unit {0}) = emit (sleep 100) >> poll_socket rounds env socket
  if there then pure tt else again

abbrev pub polls : ℕ
polls = 50

unfoldable pub wait_for_socket : Env → PathBuf → Action Trace (Unit {0})
wait_for_socket = poll_socket polls

unfoldable pub kernel_body : Env → VmConfig → Outcome Json
kernel_body env config = with_path env config.kernel_path λ kernel_path.
    value (
      object
        (field "kernel_image_path" kernel_path (field "boot_args" (text config.boot_args) end)))

unfoldable pub rootfs_body : Env → VmConfig → Outcome Json
rootfs_body env config = with_path env config.rootfs_path λ rootfs_path. value (
    object (
      field "drive_id" (text (codes "rootfs")) (
        field "path_on_host" rootfs_path
          (field "is_root_device" (boolean true) (field "is_read_only" (boolean false) end)))))

unfoldable pub machine_body : VmConfig → Json
machine_body config = object (
    field "vcpu_count" (number config.vcpu_count)
      (field "mem_size_mib" (number config.mem_size_mib) end))

unfoldable pub boot_body : Json
boot_body = object (field "action_type" (text (codes "InstanceStart")) end)

-- `let body = json!(…); api_request(socket_path, Method::PUT, uri, Some(body.to_string())).await`
unfoldable pub put_json : Env → PathBuf → Text → Outcome Json → Action Trace Text
put_json env socket uri json = do
  body ← built json
  api_request env socket put uri (some (env.json_text body))

unfoldable pub configure_and_boot : Env → PathBuf → VmConfig → Action Trace (Unit {0})
configure_and_boot env socket config = do
  put_json env socket (codes "/boot-source") (kernel_body env config)
  put_json env socket (codes "/drives/rootfs") (rootfs_body env config)
  put_json env socket (codes "/machine-config") (value (machine_body config))
  put_json env socket (codes "/actions") (value boot_body)
  pure tt
