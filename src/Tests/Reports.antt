-- ===== src/Tests/Reports.antt =====
-- An execution of a command in a VM (forge-executor/src/firecracker.rs) whose console reports an output.
use apeiron.Base.{sym, arith, Bytes, suc, ◌≡◌, refl, true, none, some, List, [], ◌∷◌, codes}
use apeiron.Base.Int.{pos}
use apeiron.Std.Decimal.{show_ℕ}
use apeiron.Executor.Action.{ok}
use apeiron.Base.{ℕ, ◌+◌, ◌<◌, ◌==◌, ◌⊎◌, length, take}
use apeiron.Executor.Host.{Env, complete}
use apeiron.Executor.UnixClient.{api_request}
use apeiron.Executor.Firecracker.{with_defaults, wait_for_socket, configure_and_boot}
use apeiron.Executor.Firecracker.Lifecycle.{spawn, restore, terminate, health_check}
use apeiron.Executor.Firecracker.Execute.{execute_command}
use apeiron.Executor.Backend.{ExecutionOutput}
use apeiron.Serial.Search.Find.{find}
use apeiron.Serial.Output.{strip_line_breaks}
use apeiron.Executor.Firecracker.Reading.{AlwaysReports, Reports, execute_command-report}
use apeiron.Tests.SerialConsole.{letters, unletters, base64, noise, out_body, err_body, console}
use apeiron.Executor.Host.{Trace}
use apeiron.Executor.Runner.{Clock}
use apeiron.Tests.Vms.{config, prompt}

-- A host whose processes report `hi`, `x` and the exit code 3.
abbrev pub reporting : Env
reporting = record prompt {
  read_to_end = λ t pid timeout. complete console;
  b64_decode = unletters;
}

abbrev pub told : ExecutionOutput
told = record { stdout = codes "hi"; stderr = codes "x"; exit_code = pos 3 }

complete_injective : (a b : Bytes) → complete a ≡ complete b → a ≡ b
complete_injective a b e = cc

pub reported : (raw : Bytes) → complete console ≡ complete raw → Reports base64 raw told
unfolding strip_line_breaks letters find apeiron.Serial.Output.is_line_break
    apeiron.Serial.Search.Find.starts_with
reported raw e = record {
  noise = noise;
  out_body = out_body;
  err_body = err_body;
  rest = codes "bye";
  printed = sym (complete_injective console raw e);
  out_bytes = (omega arith, (omega arith, tt));
  err_bytes = (omega arith, tt);
  exit_fits = omega arith;
  out_encoded = refl;
  err_encoded = refl;
  no_stdout_start = refl;
  no_stderr_start = refl;
  no_exit_marker = refl;
}

run_returns :
    execute_command reporting with_defaults config (codes "true") 1 []
    ≡ (ok told, (execute_command reporting with_defaults config (codes "true") 1 []).1)
unfolding execute_command apeiron.Executor.Firecracker.Lifecycle.require_kvm
    apeiron.Executor.Firecracker.which_binary apeiron.Std.FilePath.is_absolute with_defaults
    apeiron.Executor.Firecracker.found_in apeiron.Executor.Firecracker.split
    apeiron.Executor.Firecracker.Execute.boot_and_read wait_for_socket
    apeiron.Executor.Firecracker.poll_socket configure_and_boot api_request
    apeiron.Executor.Firecracker.Execute.take_output apeiron.Executor.Firecracker.Execute.output_of
    apeiron.Serial.Output.parse_execution_output apeiron.Serial.Output.extract_b64_section
    apeiron.Serial.Output.position_of apeiron.Base.text_eq apeiron.Executor.UnixClient.checked
    apeiron.Executor.UnixClient.respond apeiron.Serial.Output.all_or_raw
    apeiron.Serial.Output.extract_exit_code apeiron.Serial.Output.is_line_break
    apeiron.Serial.Output.parse_line strip_line_breaks apeiron.Serial.Search.position
    apeiron.Serial.Search.slice apeiron.Serial.Search.slice_from apeiron.Serial.Search.windows
    apeiron.Std.Decimal.parse_i32 apeiron.Std.Trim.trim apeiron.Std.Utf8.from_utf8 letters unletters
    apeiron.Std.Decimal.show_i32 apeiron.Executor.Firecracker.put_json
    apeiron.Executor.Firecracker.kernel_body apeiron.Executor.Firecracker.rootfs_body
    apeiron.Executor.Host.with_path
run_returns = refl

abbrev pub always_reports : AlwaysReports base64 reporting 1 told
always_reports = record { decoder = refl; told = λ before process raw e. reported raw e }

execute_command-report_example : told ≡ told
execute_command-report_example =
    execute_command-report base64 reporting with_defaults config (codes "true") 1 told told []
      (execute_command reporting with_defaults config (codes "true") 1 []).1 always_reports
      run_returns

abbrev pub host_clock : Clock Trace
host_clock = record { now = length; instant = length; random = length }
