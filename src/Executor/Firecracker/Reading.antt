-- ===== src/Executor/Firecracker/Reading.antt =====
-- What `execute_command` (forge-executor/src/firecracker.rs) returns: the output that was read from its
-- own process, parsed.
use mathlib.Core.Path.{subst}
use apeiron.Base.{◌<◌, none, ◌≡◌, refl, sym, ap, ◌∙◌, Bytes, Text, All, ◌++◌}
use apeiron.Base.Int.{IsI32}
use apeiron.Base.Outcome.{value}
use apeiron.Core.Execution.{Duration}
use apeiron.Std.FilePath.{PathBuf}
use apeiron.Action.Rules.{Holds, Holds-imp, Gives, Gives-bind}
use apeiron.Serial.Search.Find.{find}
use apeiron.Serial.Output.{
  Parsed, crlf, strip_line_breaks, exit_marker, parse_execution_output, stdout_start, stderr_start,
}
use apeiron.Serial.Output.Sections.{parse_execution_output-all_or_raw}
use apeiron.Serial.Output.Report.{Base64, report, parse_execution_output-report}
use apeiron.Executor.Config.{Pid, VmConfig}
use apeiron.Executor.Backend.{ExecutionOutput}
use apeiron.Executor.Action.{Result, ok, Action, ◌>>=◌, ◌>>◌}
use apeiron.Executor.Host.{
  Env, Trace, Output, timed_out, unreadable, complete, waited, remove_file, emit, ask, scoped,
}
use apeiron.Executor.Firecracker.{FirecrackerBackend}
use apeiron.Executor.Firecracker.Execute.{take_output, output_of, boot_and_read, execute_command}

-- The console of some process was read to its end within the time, and parses to this output.
pub record WasRead (env : Env) (timeout : Duration) (output : ExecutionOutput) : Type 0 where
  pub process : Pid
  pub before : Trace
  pub raw : Bytes
  pub read : env.read_to_end before process timeout ≡ complete raw
  pub parsed :
      parse_execution_output env.b64_decode raw
      ≡ value (output.stdout, output.stderr, output.exit_code)

module _ (env : Env) (timeout : Duration) where
  -- The output of a console that was read.
  output_of-WasRead :
      (process : Pid) (before t : Trace) (raw : Bytes)
      → env.read_to_end before process timeout ≡ complete raw
      → Holds (WasRead env timeout) (output_of (parse_execution_output env.b64_decode raw) t).0
  unfolding output_of
  output_of-WasRead process before t raw e =
      rw (parse_execution_output-all_or_raw env.b64_decode raw) (record {
        process = process;
        before = before;
        raw = raw;
        read = e;
        parsed = parse_execution_output-all_or_raw env.b64_decode raw;
      })

  -- The last steps of an execution.
  finish : PathBuf → Pid → Output → Action Trace ExecutionOutput
  finish socket process read = do
    raw_output ← take_output timeout read
    emit (waited process)
    emit (remove_file socket)
    output_of (parse_execution_output env.b64_decode raw_output)

  finish-WasRead :
      (socket : PathBuf) (process : Pid) (t : Trace) (read : Output)
      → env.read_to_end t process timeout ≡ read
      → Holds (WasRead env timeout) (finish socket process read t).0
  unfolding finish take_output
  finish-WasRead socket process t timed_out e = tt
  finish-WasRead socket process t (unreadable x) e = tt
  finish-WasRead socket process t (complete raw) e = output_of-WasRead process t _ raw e

  read-WasRead :
      (socket : PathBuf) (process : Pid)
      → Gives
          (WasRead env timeout)
          (ask (λ t. env.read_to_end t process timeout) >>= λ read. finish socket process read)
  read-WasRead socket process = record { at = λ t. finish-WasRead socket process t _ refl }

  boot_and_read-WasRead :
      (config : VmConfig) (socket : PathBuf) (process : Pid)
      → Gives (WasRead env timeout) (boot_and_read env config socket timeout process)
  unfolding boot_and_read finish
  boot_and_read-WasRead config socket process = search (Gives-bind, read-WasRead) depth 20

  scoped-Gives :
      {A : Type 0} {P : A → Type 0} (pid : Pid) (m : Action Trace A)
      → Gives P m
      → Gives P (scoped pid m)
  scoped-Gives pid m k = record { at = λ t. k.at t }

  execute_command-WasRead :
      (self : FirecrackerBackend) (config : VmConfig) (command : Text)
      → Gives (WasRead env timeout) (execute_command env self config command timeout)
  unfolding execute_command
  execute_command-WasRead self config command =
      search (Gives-bind, scoped-Gives, boot_and_read-WasRead) depth 40

-- A console on which the init script reported an output, with its Base64 text broken into lines.
pub record Reports (b : Base64) (raw : Bytes) (output : ExecutionOutput) : Type 0 where
  pub noise : Bytes
  pub out_body : Bytes
  pub err_body : Bytes
  pub rest : Bytes
  pub printed : raw ≡ report noise out_body err_body output.exit_code rest
  pub out_bytes : All (λ c. c < 256) output.stdout
  pub err_bytes : All (λ c. c < 256) output.stderr
  pub exit_fits : IsI32 output.exit_code
  pub out_encoded : strip_line_breaks out_body ≡ b.encode output.stdout
  pub err_encoded : strip_line_breaks err_body ≡ b.encode output.stderr
  pub no_stdout_start : find (stdout_start ++ crlf) noise ≡ none
  pub no_stderr_start : find (stderr_start ++ crlf) noise ≡ none
  pub no_exit_marker : find exit_marker noise ≡ none

report_parsed :
    (b : Base64) (raw : Bytes) (output : ExecutionOutput)
    → Reports b raw output
    → parse_execution_output b.decode raw ≡ value (output.stdout, output.stderr, output.exit_code)
report_parsed b raw output r =
    ap (parse_execution_output b.decode) r.printed
    ∙ parse_execution_output-report b r.noise output.stdout output.stderr r.out_body r.err_body
        r.rest output.exit_code r.out_bytes r.err_bytes r.exit_fits r.out_encoded r.err_encoded
        r.no_stdout_start r.no_stderr_start r.no_exit_marker

value_injective : (a b : Parsed) → value a ≡ value b → a ≡ b
value_injective a b e = cc

abbrev parts : ExecutionOutput → Parsed
parts output = (output.stdout, output.stderr, output.exit_code)

same_output : (a b : ExecutionOutput) → value (parts a) ≡ value (parts b) → a ≡ b
same_output a b e =
    let p = value_injective (parts a) (parts b) e in
    λ i. record { stdout = (p i).0; stderr = (p i).1; exit_code = (p i).2 }

-- Every console of a process that is read to its end within the time reports this output, and the
-- decoder is that of Base64.
pub record AlwaysReports (b : Base64) (env : Env) (timeout : Duration) (output : ExecutionOutput)
    : Type 0 where
  pub decoder : env.b64_decode ≡ b.decode
  pub told :
      (before : Trace) (process : Pid) (raw : Bytes)
      → env.read_to_end before process timeout ≡ complete raw
      → Reports b raw output

WasRead-eq :
    (b : Base64) (env : Env) (timeout : Duration) (output returned : ExecutionOutput)
    → AlwaysReports b env timeout output
    → WasRead env timeout returned
    → returned ≡ output
WasRead-eq b env timeout output returned always was = same_output returned output (
    sym was.parsed
    ∙ ap (λ decode. parse_execution_output decode was.raw) always.decoder
    ∙ report_parsed b was.raw output (always.told was.before was.process was.raw was.read))

pub execute_command-Gives :
    (b : Base64) (env : Env) (self : FirecrackerBackend) (config : VmConfig) (command : Text)
    (timeout : Duration) (output : ExecutionOutput)
    → AlwaysReports b env timeout output
    → Gives (λ returned. returned ≡ output) (execute_command env self config command timeout)
execute_command-Gives b env self config command timeout output always = record {
  at = λ t.
      Holds-imp {P = WasRead env timeout} _
        (λ returned. WasRead-eq b env timeout output returned always)
        ((execute_command-WasRead env timeout self config command).at t);
}

-- If the decoder is that of Base64, and every console of a process that is read to its end within the
-- time reports one output, then an execution that returns an output returns this one, byte for byte,
-- with its exit code, whatever else the outside answers.
pub execute_command-report :
    (b : Base64) (env : Env) (self : FirecrackerBackend) (config : VmConfig) (command : Text)
    (timeout : Duration) (output returned : ExecutionOutput) (t t' : Trace)
    → AlwaysReports b env timeout output
    → execute_command env self config command timeout t ≡ (ok returned, t')
    → returned ≡ output
execute_command-report b env self config command timeout output returned t t' always e =
    let gives = execute_command-Gives b env self config command timeout output always in
    subst (λ (r : Result ExecutionOutput × Trace). Holds (λ o. o ≡ output) r.0) e (gives.at t)
