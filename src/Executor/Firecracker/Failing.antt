-- ===== src/Executor/Firecracker/Failing.antt =====
-- What the steps of the backend's methods (forge-executor/src/firecracker.rs) may fail with: rules for
-- any predicate on the errors.
use apeiron.Base.Outcome.{Outcome}
use apeiron.Base.{ℕ, zero, suc, ◌∷◌, Option, Text, Bytes}
use apeiron.Core.Execution.{Duration}
use apeiron.Std.FilePath.{PathBuf}
use apeiron.Action.Rules.{
  Fails, FailsWith, FailsWith-pure, FailsWith-fail, FailsWith-if, FailsWith-bind, FailsWith-map_err,
  FailsWith-attempt,
}
use apeiron.Serial.Output.{parse_execution_output}
use apeiron.Serial.Output.Sections.{parse_execution_output-all_or_raw}
use apeiron.Executor.ExecutorError.{
  ExecutorError, IoError, binary_not_found, kvm_unavailable, spawn_failed, io,
}
use apeiron.Executor.Config.{Pid, VmConfig}
use apeiron.Executor.Action.{Result, ok, err, panicked, Action, map_err}
use apeiron.Executor.Host.{
  Env, Trace, Event, Answer, done, failed, Output, timed_out, unreadable, complete, create_dir_all,
  Method, emit, ask, or_io, holding, scoped, drop_on_error, draw_uuid, clock, make_directory, began,
  start, sleep, Json, built,
}
use apeiron.Executor.UnixClient.Calls.{IsApiError, api_request-FailsWith}
use apeiron.Executor.UnixClient.{api_request}
use apeiron.Executor.Firecracker.{
  which_binary, poll_socket, wait_for_socket, put_json, kernel_body, rootfs_body,
  configure_and_boot,
}
use apeiron.Executor.Firecracker.Paths.{IsUtf8, IsBuilt, value-IsBuilt, with_path-IsBuilt}
use apeiron.Executor.Firecracker.Lifecycle.{require_kvm, readable}
use apeiron.Executor.Firecracker.Execute.{take_output, output_of}

drop_on_error-Fails :
    {A : Type 0} (Q : ExecutorError → Type 0) (pid : Pid) (r : Result A) (t : Trace)
    → Fails Q r
    → Fails Q (drop_on_error pid (r, t)).0
drop_on_error-Fails Q pid (ok a) t h = h
drop_on_error-Fails Q pid (err e) t h = h
drop_on_error-Fails Q pid panicked t h = h

began-Fails :
    (Q : ExecutorError → Type 0) (binary socket : PathBuf) (f : IoError → ExecutorError)
    (answer : Answer Pid) (t : Trace)
    → ((e : IoError) → Q (f e))
    → Fails Q (began binary socket f answer t).0
began-Fails Q binary socket f (done pid) t h = tt
began-Fails Q binary socket f (failed e) t h = h e

-- The rules of the steps, for any predicate on errors.
module _ {P : ExecutorError → Type 0} where
  pub emit-FailsWith : (e : Event) → FailsWith P (emit e)
  emit-FailsWith e = record { at = λ t. tt }

  pub draw_uuid-FailsWith : (env : Env) → FailsWith P (draw_uuid env)
  draw_uuid-FailsWith env = record { at = λ t. tt }

  pub clock-FailsWith : (env : Env) → FailsWith P (clock env)
  clock-FailsWith env = record { at = λ t. tt }

module _ {A : Type 0} {P : ExecutorError → Type 0} where
  pub ask-FailsWith : (f : Trace → A) → FailsWith P (ask f)
  ask-FailsWith f = record { at = λ t. tt }

  pub or_io-FailsWith :
      (answer : Answer A) → ((e : IoError) → P (io e)) → FailsWith P (or_io answer)
  or_io-FailsWith (done a) h = record { at = λ t. tt }
  or_io-FailsWith (failed e) h = record { at = λ t. h e }

  pub holding-FailsWith :
      (pid : Pid) (m : Action Trace A) → FailsWith P m → FailsWith P (holding pid m)
  holding-FailsWith pid m k = record {
    at = λ t. drop_on_error-Fails P pid (m t).0 (m t).1 (k.at t);
  }

  pub scoped-FailsWith :
      (pid : Pid) (m : Action Trace A) → FailsWith P m → FailsWith P (scoped pid m)
  scoped-FailsWith pid m k = record { at = λ t. k.at t }

module _ {P : ExecutorError → Type 0} where
  pub make_directory-FailsWith :
      (env : Env) (path : PathBuf)
      → ((e : IoError) → P (io e))
      → FailsWith P (make_directory env path)
  make_directory-FailsWith env path h = record {
    at = λ t. (or_io-FailsWith {P = P} (env.make_dirs t path) h).at (create_dir_all path ∷ t);
  }

  pub start-FailsWith :
      (env : Env) (binary socket : PathBuf) (f : IoError → ExecutorError)
      → ((e : IoError) → P (f e))
      → FailsWith P (start env binary socket f)
  start-FailsWith env binary socket f h = record {
    at = λ t. began-Fails P binary socket f (env.spawn t binary socket) t h;
  }

  pub require_kvm-FailsWith :
      (env : Env) → ((reason : Text) → P (kvm_unavailable reason)) → FailsWith P (require_kvm env)
  unfolding require_kvm
  require_kvm-FailsWith env h =
      search (FailsWith-bind, FailsWith-if, FailsWith-pure, FailsWith-fail, ask-FailsWith, h)

  pub which_binary-FailsWith :
      (env : Env) (path : PathBuf)
      → ((path : PathBuf) → P (binary_not_found path))
      → FailsWith P (which_binary env path)
  unfolding which_binary
  which_binary-FailsWith env path h =
      search (FailsWith-bind, FailsWith-if, FailsWith-pure, FailsWith-fail, ask-FailsWith, h)

  pub readable-FailsWith :
      (answer : Answer (Unit {0}))
      → ((reason : Text) → P (kvm_unavailable reason))
      → FailsWith P (readable answer)
  unfolding readable
  readable-FailsWith (done u) h = record { at = λ t. tt }
  readable-FailsWith (failed e) h = record { at = λ t. h _ }

  poll_socket-FailsWith :
      (rounds : ℕ) (env : Env) (socket : PathBuf)
      → ((reason : Text) → P (spawn_failed reason))
      → FailsWith P (poll_socket rounds env socket)
  unfolding poll_socket
  poll_socket-FailsWith zero env socket h = FailsWith-fail _ (h _)
  poll_socket-FailsWith (suc rounds) env socket h =
      FailsWith-bind (ask _) _ (ask-FailsWith _) λ there.
        FailsWith-if there _ _ (FailsWith-pure tt) (
          FailsWith-bind (emit (sleep 100)) _ (emit-FailsWith _)
            λ _. poll_socket-FailsWith rounds env socket h)

  pub wait_for_socket-FailsWith :
      (env : Env) (socket : PathBuf)
      → ((reason : Text) → P (spawn_failed reason))
      → FailsWith P (wait_for_socket env socket)
  unfolding wait_for_socket
  wait_for_socket-FailsWith env socket h = poll_socket-FailsWith 50 env socket h

  pub take_output-FailsWith :
      (timeout : Duration) (read : Output)
      → ((reason : Text) → P (spawn_failed reason))
      → ((e : IoError) → P (io e))
      → FailsWith P (take_output timeout read)
  unfolding take_output
  take_output-FailsWith timeout timed_out h k = record { at = λ t. h _ }
  take_output-FailsWith timeout (unreadable e) h k = record { at = λ t. k e }
  take_output-FailsWith timeout (complete raw) h k = record { at = λ t. tt }

  -- Parsing does not panic, so it does not fail.
  pub output_of-FailsWith :
      (decode : Bytes → Option Bytes) (raw : Bytes)
      → FailsWith P (output_of (parse_execution_output decode raw))
  unfolding output_of
  output_of-FailsWith decode raw =
      rw (parse_execution_output-all_or_raw decode raw) (record { at = λ t. tt })

-- Any error, and no panic.
pub IsAny : ExecutorError → Type 0
IsAny e = Unit

pub error-IsAny : (e : ExecutorError) → IsAny e
unfolding IsAny
error-IsAny e = tt

Fails-IsAny : {A : Type 0} (P : ExecutorError → Type 0) (r : Result A) → Fails P r → Fails IsAny r
Fails-IsAny P (ok a) h = tt
Fails-IsAny P (err e) h = error-IsAny e
Fails-IsAny P panicked h = h

pub api_request-IsAny :
    (env : Env) (socket : PathBuf) (method : Method) (uri : Text) (body : Option Text)
    → FailsWith IsAny (api_request env socket method uri body)
api_request-IsAny env socket method uri body = record {
  at = λ t. Fails-IsAny IsApiError _ ((api_request-FailsWith env socket method uri body).at t);
}

-- A step whose errors are all turned into one kind.
pub FailsWith-mapped :
    {A : Type 0} {Q : ExecutorError → Type 0} (f : ExecutorError → ExecutorError)
    (m : Action Trace A)
    → ((e : ExecutorError) → Q (f e))
    → FailsWith IsAny m
    → FailsWith Q (map_err f m)
FailsWith-mapped f m h k = FailsWith-map_err f m (λ e j. h e) k

pub built-FailsWith :
    {A : Type 0} {P : ExecutorError → Type 0} (o : Outcome A) → IsBuilt o → FailsWith P (built o)
built-FailsWith o h = rw h.made (record { at = λ t. tt })

pub put_json-IsAny :
    (env : Env) (socket : PathBuf) (uri : Text) (json : Outcome Json)
    → IsBuilt json
    → FailsWith IsAny (put_json env socket uri json)
unfolding put_json
put_json-IsAny env socket uri json h =
    search (FailsWith-bind, built-FailsWith, api_request-IsAny, h) depth 10

pub ruleset chain_rules = (
  FailsWith-pure, FailsWith-fail, FailsWith-if, FailsWith-bind, FailsWith-mapped, emit-FailsWith,
  draw_uuid-FailsWith, clock-FailsWith, ask-FailsWith, or_io-FailsWith, holding-FailsWith,
  scoped-FailsWith, make_directory-FailsWith, start-FailsWith, require_kvm-FailsWith,
  which_binary-FailsWith, readable-FailsWith, wait_for_socket-FailsWith, take_output-FailsWith,
  output_of-FailsWith, api_request-IsAny, error-IsAny, built-FailsWith, put_json-IsAny,
  value-IsBuilt, with_path-IsBuilt,
)

pub configure_and_boot-FailsWith :
    (env : Env) (socket : PathBuf) (config : VmConfig)
    → IsUtf8 env config.kernel_path
    → IsUtf8 env config.rootfs_path
    → FailsWith IsAny (configure_and_boot env socket config)
unfolding configure_and_boot kernel_body rootfs_body
configure_and_boot-FailsWith env socket config k r = search (chain_rules, k, r) depth 40
