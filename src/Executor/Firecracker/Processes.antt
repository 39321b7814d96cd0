-- ===== src/Executor/Firecracker/Processes.antt =====
-- Which Firecracker processes were started and not dropped (forge-executor/src/firecracker.rs). They are
-- started with `kill_on_drop`, so the drop ends them at the latest; a process may also end before, by
-- itself, and this is not looked at here.
use apeiron.Base.{
  ℕ, ◌≡◌, refl, ap, List, [], ◌∷◌, arith, ◌==◌, if◌then◌else◌, Option, Text, zero, suc,
}
use apeiron.Std.FilePath.{PathBuf}
use apeiron.Action.Rules.{
  Keeps, keeps_rules, Keeps-bind, Gives, Gives-bind, Gives-pure, Holds, Keeps-map_err, Keeps-if,
  Keeps-pure,
}
use apeiron.Executor.Config.{Pid, VmConfig}
use apeiron.Executor.Host.{
  Env, Output, timed_out, unreadable, complete, Trace, Answer, done, failed, Method, emit, ask,
  or_io, built, Json, draw_uuid, clock, make_directory, started, dropped, create_dir_all,
  remove_file, sleep, killed, waited, read_output,
}
use apeiron.Executor.Firecracker.Execute.{take_output, output_of}
use apeiron.Base.Outcome.{Outcome, value, panic}
use apeiron.Core.Execution.{Duration}
use apeiron.Serial.Output.{Parsed}
use apeiron.Executor.UnixClient.{api_request}
use apeiron.Executor.UnixClient.Calls.{api_request-Adds}
use apeiron.Executor.Firecracker.{
  which_binary, poll_socket, wait_for_socket, put_json, configure_and_boot,
}
use apeiron.Executor.Firecracker.Lifecycle.{require_kvm, readable}

-- The list without the first occurrence of a process.
unfoldable pub without : Pid → List Pid → List Pid
without p [] = []
without p (q ∷ qs) = if p == q then qs else q ∷ without p qs

-- The processes that were started and whose handle was not dropped, the latest first.
unfoldable pub undropped : Trace → List Pid
unfolding without
undropped [] = []
undropped (started p binary socket ∷ t) = p ∷ undropped t
undropped (dropped p ∷ t) = without p (undropped t)
undropped (_ ∷ t) = undropped t

pub without_first : (p : Pid) (qs : List Pid) → without p (p ∷ qs) ≡ qs
unfolding without
without_first p qs = ground arith

-- The steps that start no process and drop none.
pub ask-undropped : {A : Type 0} (f : Trace → A) → Keeps undropped (ask f)
ask-undropped f = record { at = λ t. refl }

pub or_io-undropped : {A : Type 0} (answer : Answer A) → Keeps undropped (or_io answer)
or_io-undropped (done a) = record { at = λ t. refl }
or_io-undropped (failed e) = record { at = λ t. refl }

pub readable-undropped : (answer : Answer (Unit {0})) → Keeps undropped (readable answer)
unfolding readable
readable-undropped (done a) = record { at = λ t. refl }
readable-undropped (failed e) = record { at = λ t. refl }

pub api_request-undropped :
    (env : Env) (socket : PathBuf) (method : Method) (uri : Text) (body : Option Text)
    → Keeps undropped (api_request env socket method uri body)
unfolding undropped
api_request-undropped env socket method uri body = record {
  at = λ t. ap undropped ((api_request-Adds env socket method uri body).at t);
}

pub built-undropped : {A : Type 0} (o : Outcome A) → Keeps undropped (built o)
built-undropped (value a) = record { at = λ t. refl }
built-undropped panic = record { at = λ t. refl }

pub put_json-undropped :
    (env : Env) (socket : PathBuf) (uri : Text) (json : Outcome Json)
    → Keeps undropped (put_json env socket uri json)
unfolding put_json
put_json-undropped env socket uri json =
    search (keeps_rules, api_request-undropped, built-undropped) depth 10

pub configure_and_boot-undropped :
    (env : Env) (socket : PathBuf) (config : VmConfig)
    → Keeps undropped (configure_and_boot env socket config)
unfolding configure_and_boot
configure_and_boot-undropped env socket config = search (keeps_rules, put_json-undropped) depth 30

emit-sleep-undropped : (ms : ℕ) → Keeps undropped (emit (sleep ms))
unfolding undropped
emit-sleep-undropped ms = record { at = λ t. refl }

poll_socket-undropped :
    (rounds : ℕ) (env : Env) (socket : PathBuf) → Keeps undropped (poll_socket rounds env socket)
unfolding poll_socket
poll_socket-undropped zero env socket = search keeps_rules
poll_socket-undropped (suc rounds) env socket = Keeps-bind (ask _) _ (ask-undropped _) λ there.
    Keeps-if there _ _ (Keeps-pure tt) (
      Keeps-bind (emit _) _ (emit-sleep-undropped 100)
        (λ _. poll_socket-undropped rounds env socket))

pub wait_for_socket-undropped :
    (env : Env) (socket : PathBuf) → Keeps undropped (wait_for_socket env socket)
unfolding wait_for_socket
wait_for_socket-undropped env socket = poll_socket-undropped 50 env socket

pub which_binary-undropped : (env : Env) (path : PathBuf) → Keeps undropped (which_binary env path)
unfolding which_binary
which_binary-undropped env path = search (keeps_rules, ask-undropped) depth 20

pub require_kvm-undropped : (env : Env) → Keeps undropped (require_kvm env)
unfolding require_kvm
require_kvm-undropped env = search (keeps_rules, ask-undropped) depth 20

pub draw_uuid-undropped : (env : Env) → Keeps undropped (draw_uuid env)
unfolding undropped
draw_uuid-undropped env = record { at = λ t. refl }

pub clock-undropped : (env : Env) → Keeps undropped (clock env)
unfolding undropped
clock-undropped env = record { at = λ t. refl }

pub make_directory-undropped :
    (env : Env) (path : PathBuf) → Keeps undropped (make_directory env path)
unfolding undropped
make_directory-undropped env path = record {
  at = λ t. (or_io-undropped (env.make_dirs t path)).at (create_dir_all path ∷ t);
}

pub take_output-undropped :
    (timeout : Duration) (read : Output) → Keeps undropped (take_output timeout read)
unfolding take_output
take_output-undropped timeout timed_out = record { at = λ t. refl }
take_output-undropped timeout (unreadable e) = record { at = λ t. refl }
take_output-undropped timeout (complete raw) = record { at = λ t. refl }

pub output_of-undropped : (parsed : Outcome Parsed) → Keeps undropped (output_of parsed)
unfolding output_of
output_of-undropped (value (stdout, stderr, exit_code)) = record { at = λ t. refl }
output_of-undropped panic = record { at = λ t. refl }

pub emit-killed-undropped : (pid : Pid) → Keeps undropped (emit (killed pid))
unfolding undropped
emit-killed-undropped pid = record { at = λ t. refl }

pub emit-read-undropped : (pid : Pid) → Keeps undropped (emit (read_output pid))
unfolding undropped
emit-read-undropped pid = record { at = λ t. refl }

pub emit-waited-undropped : (pid : Pid) → Keeps undropped (emit (waited pid))
unfolding undropped
emit-waited-undropped pid = record { at = λ t. refl }

pub emit-removed-undropped : (path : PathBuf) → Keeps undropped (emit (remove_file path))
unfolding undropped
emit-removed-undropped path = record { at = λ t. refl }

pub ruleset step_rules = (
  keeps_rules, ask-undropped, or_io-undropped, api_request-undropped, configure_and_boot-undropped,
  built-undropped, put_json-undropped, wait_for_socket-undropped, which_binary-undropped,
  require_kvm-undropped, draw_uuid-undropped, clock-undropped, make_directory-undropped,
  take_output-undropped, output_of-undropped, emit-read-undropped, emit-waited-undropped,
  emit-removed-undropped, emit-killed-undropped, readable-undropped,
)
