-- ===== src/Executor/Firecracker/Snapshot.antt =====
-- `snapshot` of `impl VmmBackend for FirecrackerBackend` (forge-executor/src/firecracker.rs).
use apeiron.Base.{some, ◌++◌, Text, codes}
use apeiron.Base.Outcome.{Outcome, value}
use apeiron.Std.FilePath.{PathBuf}
use apeiron.Executor.ExecutorError.{snapshot_failed}
use apeiron.Executor.Config.{SnapshotId, new_snapshot_id, VmHandle}
use apeiron.Executor.Action.{Action, pure, lift, map_result, map_err, attempt, ◌>>=◌, ◌>>◌}
use apeiron.Executor.Host.{
  Env, Trace, Json, text, object, end, field, put, patch, with_path, built, draw_uuid,
  make_directory,
}
use apeiron.Executor.UnixClient.{api_request}
use apeiron.Executor.Firecracker.{
  FirecrackerBackend, to_string, snapshot_mem_path, snapshot_state_path,
}

unfoldable pub state_body : Text → Json
state_body state = object (field "state" (text state) end)

unfoldable pub create_body : Env → PathBuf → PathBuf → Outcome Json
create_body env state_path mem_path = with_path env state_path λ snapshot_path.
    with_path env mem_path λ mem_file_path. value (
      object (
        field "snapshot_type" (text (codes "Full"))
          (field "snapshot_path" snapshot_path (field "mem_file_path" mem_file_path end))))

module _ (env : Env) (handle : VmHandle) where
  unfoldable pub pause : Action Trace Text
  pause =
      api_request env handle.socket_path patch (codes "/vm")
        (some (env.json_text (state_body (codes "Paused"))))

  unfoldable pub resume : Action Trace Text
  resume =
      api_request env handle.socket_path patch (codes "/vm")
        (some (env.json_text (state_body (codes "Resumed"))))

  unfoldable pub create : Json → Action Trace Text
  create body =
      api_request env handle.socket_path put (codes "/snapshot/create") (some (env.json_text body))

module _ (env : Env) (self : FirecrackerBackend) where
  unfoldable pub snapshot : VmHandle → Action Trace SnapshotId
  snapshot handle = do
    random ← draw_uuid env
    let snapshot_id = new_snapshot_id random
    make_directory env self.snapshot_dir
    let mem_path = snapshot_mem_path env self snapshot_id
    let state_path = snapshot_state_path env self snapshot_id
    map_err (λ e. snapshot_failed handle.id (codes "pause failed: " ++ to_string env e))
        (pause env handle)
    body ← built (create_body env state_path mem_path)
    result ← attempt (create env handle body)
    attempt (resume env handle)
    lift (map_result (λ e. snapshot_failed handle.id (to_string env e)) result)
    pure snapshot_id
