-- ===== src/Gateway/Process.antt =====
-- `run_shell` and `run_code` of forge-gateway/src/routes.rs. The programs are run by the operating
-- system: its answers are functions of what was run before.
use apeiron.Base.{
  ℕ, ◌-◌, ◌/◌, Bool, false, Option, none, some, List, ◌∷◌, ◌++◌, if◌then◌else◌, unwrap_or, Bytes,
  Text, codes, text_eq, Bool-cases, inl, inr, arith,
}
use apeiron.Base.Int.{ℤ, negsuc, is_zero}
use apeiron.Core.Id.{Uuid}
use apeiron.Std.Utf8.{from_utf8_lossy}
use apeiron.Action.Rules.{Fails}
use apeiron.Action.{ok, err, Action, Result}
use apeiron.Executor.ExecutorError.{IoError}
use apeiron.Gateway.GatewayError.{GatewayError, invalid_request}

-- How a process ended: by itself with a code, or by a signal.
pub data ExitStatus : Type 0 where
  exited : ℤ → ExitStatus
  signaled : ℕ → ExitStatus

-- `ExitStatus::code` and `ExitStatus::success`
unfoldable pub code : ExitStatus → Option ℤ
code (exited n) = some n
code (signaled n) = none

unfoldable pub success : ExitStatus → Bool
success (exited n) = is_zero n
success (signaled n) = false

pub record ProcessOutput : Type 0 where
  pub status : ExitStatus
  pub stdout : Bytes
  pub stderr : Bytes

pub record Program : Type 0 where
  pub bin : Text
  pub flag : Text
  pub code : Text

pub data Ran : Type 0 where
  finished : ProcessOutput → Ran
  not_spawned : IoError → Ran

-- What was done, newest first.
pub data Deed : Type 0 where
  drew_uuid : Deed
  ran : Program → Deed

abbrev pub History : Type 0
History = List Deed

-- `instant` is in nanoseconds.
pub record Host : Type 0 where
  pub random : History → Uuid
  pub instant : History → ℕ
  pub run : History → Program → Ran
  pub io_text : IoError → Text
  pub uuid_text : Uuid → Text

pub record ShellResult : Type 0 where
  pub success : Bool
  pub stdout : Text
  pub stderr : Text
  pub exit_code : ℤ
  pub execution_time_ms : ℕ

-- The `ShellResult` of an output, and the error where no process was spawned.
unfoldable pub shell_result : ProcessOutput → ℕ → ShellResult
unfolding code success
shell_result output elapsed = record {
  success = success output.status;
  stdout = from_utf8_lossy output.stdout;
  stderr = from_utf8_lossy output.stderr;
  exit_code = unwrap_or (negsuc 0) (code output.status);
  execution_time_ms = elapsed / 1_000_000;
}

unfoldable pub report : Host → Text → Ran → ℕ → Result GatewayError ShellResult
report host what (finished output) elapsed = ok (shell_result output elapsed)
report host what (not_spawned e) elapsed =
    err (invalid_request (codes "failed to spawn " ++ (what ++ (codes ": " ++ host.io_text e))))

-- `Command::new(bin).arg(flag).arg(code).output().await`, timed.
unfoldable pub timed_run : Host → Text → Program → Action GatewayError History ShellResult
unfolding report
timed_run host what program h =
    let start = host.instant h in
    let h' = ran program ∷ h in
    (report host what (host.run h program) (host.instant h' - start), h')

unfoldable pub run_shell : Host → Text → Action GatewayError History ShellResult
run_shell host command =
    timed_run host (codes "shell") (record { bin = codes "sh"; flag = codes "-c"; code = command })

unfoldable pub run_code : Host → Text → Text → Action GatewayError History ShellResult
run_code host runtime source h =
    if text_eq runtime (codes "node")
    then timed_run host (codes "node")
        (record { bin = codes "node"; flag = codes "-e"; code = source }) h
    else if text_eq runtime (codes "python")
    then timed_run host (codes "python3")
        (record { bin = codes "python3"; flag = codes "-c"; code = source }) h
    else (err (invalid_request (codes "unsupported runtime '" ++ (runtime ++ codes "'"))), h)

-- Running a program does not panic.
timed_run-Fails :
    (host : Host) (what : Text) (program : Program) (h : History)
    → Fails (λ _. Unit {0}) (timed_run host what program h).0
unfolding timed_run
timed_run-Fails host what program h = ground arith

pub run_shell-Fails :
    (host : Host) (command : Text) (h : History)
    → Fails (λ _. Unit {0}) (run_shell host command h).0
unfolding run_shell
run_shell-Fails host command h = timed_run-Fails host (codes "shell") _ h

pub run_code-Fails :
    (host : Host) (runtime source : Text) (h : History)
    → Fails (λ _. Unit {0}) (run_code host runtime source h).0
unfolding run_code
run_code-Fails host runtime source h = elim (Bool-cases (text_eq runtime (codes "node"))) [
  | inl node ↦ rw node (timed_run-Fails host (codes "node") _ h)
  | inr other ↦ elim (Bool-cases (text_eq runtime (codes "python"))) [
    | inl python ↦ rw (other, python) (timed_run-Fails host (codes "python3") _ h)
    | inr neither ↦ rw (other, neither) tt
  ]
]
