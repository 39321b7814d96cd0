-- ===== src/Gateway/Routes/Outputs.antt =====
-- The output of a program reaches the client (forge-gateway/src/routes.rs, `run_shell` and `run_code`).
use apeiron.Base.{
  ◌≡◌, refl, true, false, ◌-◌, ◌/◌, ◌∷◌, ℕ, Text, All, codes, text_eq, unwrap_or, if◌then◌else◌,
  ◌&&◌, Option, none, some, Bool-cases, inl, inr, arith,
}
use apeiron.Base.Int.{negsuc}
use apeiron.Base.Outcome.{value}
use apeiron.Core.Id.{Uuid}
use apeiron.Std.Utf8.Encode.{IsScalar, encode}
use apeiron.Std.Utf8.RoundTrip.{from_utf8_lossy-encode}
use apeiron.Gateway.Pool.{IndexMap, SandboxEntry}
use apeiron.Gateway.Pool.Registry.{registered, contains-registered}
use apeiron.Gateway.GatewayError.{ok_200}
use apeiron.Gateway.Process.{
  Host, History, ShellResult, ProcessOutput, finished, Program, ran, code, success, shell_result,
  report, timed_run, run_shell, run_code,
}
use apeiron.Gateway.Routes.{
  State, Request, shell_request, execute_request, ShellBody, ExecuteBody, result, reply, handle,
  shell_command, execute_code, respond, serve,
}
use apeiron.Gateway.Routes.Responses.{shell_program, code_program, is_supported}

-- A process printed these texts, in UTF-8.
pub record Prints (output : ProcessOutput) (out err : Text) : Type 0 where
  pub stdout_is : output.stdout ≡ encode out
  pub stderr_is : output.stderr ≡ encode err
  pub stdout_scalar : All IsScalar out
  pub stderr_scalar : All IsScalar err

-- What is told of it: the texts themselves, the code or -1 for a signal, and the time in milliseconds.
unfoldable pub told_of : ProcessOutput → Text → Text → ℕ → ShellResult
unfolding success code
told_of output out err elapsed = record {
  success = success output.status;
  stdout = out;
  stderr = err;
  exit_code = unwrap_or (negsuc 0) (code output.status);
  execution_time_ms = elapsed / 1_000_000;
}

shell_result-told_of :
    (output : ProcessOutput) (out err : Text) (elapsed : ℕ)
    → Prints output out err
    → shell_result output elapsed ≡ told_of output out err elapsed
unfolding shell_result told_of
shell_result-told_of output out err elapsed p =
    rw
      (
        p.stdout_is,
        p.stderr_is,
        from_utf8_lossy-encode out p.stdout_scalar,
        from_utf8_lossy-encode err p.stderr_scalar,
      )
      refl

module _ (index_map : IndexMap SandboxEntry) (host : Host) where
  -- How long a program runs.
  unfoldable pub elapsed : Program → History → ℕ
  elapsed program h = host.instant (ran program ∷ h) - host.instant h

  -- If the pool is not poisoned, the sandbox is registered, and the process of the command ends and
  -- printed two texts in UTF-8, then the response to a shell request is 200 with these texts, unchanged.
  shell_output :
      (id : Uuid) (body : ShellBody) (s : State index_map host) (output : ProcessOutput)
      (out err : Text)
      → s.pool.poisoned ≡ false
      → registered index_map s.pool id ≡ true
      → host.run s.history (shell_program body.command) ≡ finished output
      → Prints output out err
      → (serve index_map host (shell_request id body) s).0
        ≡ value (
            reply ok_200
              (result (told_of output out err (elapsed (shell_program body.command) s.history))))
  unfolding serve handle shell_command respond run_shell timed_run report shell_program elapsed
  shell_output id body s output out err h k e p =
      rw (contains-registered index_map id s.pool h, k, e, shell_result-told_of output out err _ p)
        refl

  -- The same of an execute request whose runtime is supported: the process is that of the runtime.
  code_output :
      (id : Uuid) (body : ExecuteBody) (s : State index_map host) (output : ProcessOutput)
      (out err : Text)
      → s.pool.poisoned ≡ false
      → registered index_map s.pool id ≡ true
      → is_supported body.runtime ≡ true
      → host.run s.history (code_program body.runtime body.code) ≡ finished output
      → Prints output out err
      → (serve index_map host (execute_request id body) s).0
        ≡ value (
            reply ok_200 (
              result
                (told_of output out err (elapsed (code_program body.runtime body.code) s.history))))
  unfolding serve handle execute_code respond run_code timed_run report code_program is_supported
      elapsed
  code_output id body s output out err h k b e p =
      let c = contains-registered index_map id s.pool h in
      elim (Bool-cases (text_eq body.runtime (codes "node"))) [
        | inl node ↦
            (let e' = rw node at e in
              rw (c, k, node, e', shell_result-told_of output out err _ p) refl)
        | inr other ↦ elim (Bool-cases (text_eq body.runtime (codes "python"))) [
          | inl python ↦
              (let e' = rw other at e in
                rw (c, k, other, python, e', shell_result-told_of output out err _ p) refl)
          | inr neither ↦ (let b' = rw (other, neither) at b in cc)
        ]
      ]

  same_program : (a b : Program) → ◌≡◌ {A = Option Program} (some a) (some b) → b ≡ a
  same_program a b e = cc

  -- The program that a request runs, if it runs one.
  unfoldable pub program_for : Request index_map host → State index_map host → Option Program
  program_for (shell_request id body) s =
      if registered index_map s.pool id then some (shell_program body.command) else none
  program_for (execute_request id body) s =
      if registered index_map s.pool id && is_supported body.runtime
      then some (code_program body.runtime body.code)
      else none
  program_for _ s = none

  -- If the pool is not poisoned, the request runs a program (the command of a shell request in a
  -- registered sandbox, or the code of an execute request in a registered sandbox, in a supported
  -- runtime), and its process ends and printed two texts in UTF-8, then the response is 200 with these
  -- two texts, unchanged; with the exit code, or -1 if a signal ended the process; with success for the
  -- code 0; and with the time that passed in milliseconds.
  pub serve-output :
      (request : Request index_map host) (s : State index_map host) (program : Program)
      (output : ProcessOutput) (out err : Text)
      → s.pool.poisoned ≡ false
      → program_for request s ≡ some program
      → host.run s.history program ≡ finished output
      → Prints output out err
      → (serve index_map host request s).0
        ≡ value (reply ok_200 (result (told_of output out err (elapsed program s.history))))
  unfolding program_for
  serve-output (shell_request id body) s program output out err h runs e p =
      elim (Bool-cases (registered index_map s.pool id)) [
        | inl k ↦
            (let q = same_program _ program (rw k at runs) in
              rw q (shell_output id body s output out err h k (rw q at e) p))
        | inr k ↦ (let r = rw k at runs in cc)
      ]
  serve-output (execute_request id body) s program output out err h runs e p =
      elim (Bool-cases (registered index_map s.pool id && is_supported body.runtime)) [
        | inl k ↦
            (let q = same_program _ program (rw k at runs) in
              rw q (
                code_output id body s output out err h (ground (arith, k)) (ground (arith, k))
                  (rw q at e) p))
        | inr k ↦ (let r = rw k at runs in cc)
      ]
  serve-output _ s program output out err h runs e p = cc
