-- ===== src/Executor/Firecracker/Execute.antt =====
-- `execute_command` of `impl VmmBackend for FirecrackerBackend` (forge-executor/src/firecracker.rs).
-- The pipe of the process's output was asked for, so `process.stdout.take()` gives it.
use apeiron.Base.{◌/◌, ◌++◌, Bytes, Text, codes}
use apeiron.Base.Outcome.{Outcome, value, panic}
use apeiron.Core.Execution.{Duration}
use apeiron.Std.Decimal.{show_ℕ}
use apeiron.Serial.Output.{Parsed, parse_execution_output}
use apeiron.Executor.ExecutorError.{spawn_failed, io}
use apeiron.Std.FilePath.{PathBuf}
use apeiron.Executor.Config.{Pid, VmConfig}
use apeiron.Executor.Action.{panicked, ok, err, Action, map_err, ◌>>=◌, ◌>>◌}
use apeiron.Executor.Backend.{ExecutionOutput}
use apeiron.Executor.Host.{
  Env, Trace, Output, timed_out, unreadable, complete, read_output, waited, remove_file, emit, ask,
  scoped, draw_uuid, make_directory, start,
}
use apeiron.Executor.Firecracker.{
  FirecrackerBackend, to_string, socket_path, which_binary, wait_for_socket, configure_and_boot,
}
use apeiron.Executor.Firecracker.Lifecycle.{require_kvm, exec_failed}

unfoldable pub init_script : Text → Text
init_script command =
    codes "SF=$(mktemp);EF=$(mktemp);eval \""
    ++ (command
        ++ codes
            "\" >\"$SF\" 2>\"$EF\";EC=$?;echo FORGE_STDOUT_B64_START;base64 \"$SF\";echo FORGE_STDOUT_B64_END;echo FORGE_STDERR_B64_START;base64 \"$EF\";echo FORGE_STDERR_B64_END;echo FORGE_EXIT:$EC;poweroff -f 2>/dev/null||reboot -f")

unfoldable pub boot_args_for : Text → Text
unfolding init_script
boot_args_for command =
    codes "console=ttyS0 reboot=k panic=1 pci=off quiet init=/bin/sh -c \""
    ++ (init_script command ++ codes "\"")

-- `timeout(timeout, read_future).await`, with its two `map_err`s.
unfoldable pub take_output : Duration → Output → Action Trace Bytes
take_output timeout timed_out t = (
  err (
      spawn_failed
        (codes "VM did not complete within " ++ (show_ℕ (timeout / 1_000_000_000) ++ codes "s"))),
  t,
)
take_output timeout (unreadable e) t = (err (io e), t)
take_output timeout (complete raw) t = (ok raw, t)

unfoldable pub output_of : Outcome Parsed → Action Trace ExecutionOutput
output_of (value (stdout, stderr, exit_code)) t =
    (ok (record { stdout = stdout; stderr = stderr; exit_code = exit_code }), t)
output_of panic t = (panicked, t)

-- What `execute_command` does with its child process.
unfoldable pub boot_and_read :
    Env → VmConfig → PathBuf → Duration → Pid → Action Trace ExecutionOutput
boot_and_read env exec_config socket timeout process = do
  wait_for_socket env socket
  map_err (λ e. spawn_failed (to_string env e)) (configure_and_boot env socket exec_config)
  emit (read_output process)
  read ← ask (λ t. env.read_to_end t process timeout)
  raw_output ← take_output timeout read
  emit (waited process)
  emit (remove_file socket)
  output_of (parse_execution_output env.b64_decode raw_output)

module _ (env : Env) (self : FirecrackerBackend) where
  unfoldable pub execute_command : VmConfig → Text → Duration → Action Trace ExecutionOutput
  execute_command config command timeout = do
    require_kvm env
    which_binary env self.binary_path
    vm_id ← draw_uuid env
    let socket = socket_path env self vm_id
    make_directory env self.socket_dir
    let exec_config : VmConfig = record config { boot_args = boot_args_for command }
    process ← start env self.binary_path socket (λ e. spawn_failed (exec_failed env e))
    scoped process (boot_and_read env exec_config socket timeout process)
