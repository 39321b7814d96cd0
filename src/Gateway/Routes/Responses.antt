-- ===== src/Gateway/Routes/Responses.antt =====
-- What each request is answered, and what it runs.
use apeiron.Base.{
  ℕ, ◌≡◌, ◌∙◌, refl, ap, Bool, true, false, ◌&&◌, ◌||◌, ◌∷◌, arith, if◌then◌else◌, text_eq, codes,
  Text, Bool-cases, inl, inr,
}
use apeiron.Base.Int.{is_zero}
use apeiron.Base.Outcome.{Outcome, value, panic}
use apeiron.Core.Id.{Uuid}
use apeiron.Action.{Result, ok, err, panicked, pure, continue}
use apeiron.Gateway.Pool.{IndexMap, SandboxEntry}
use apeiron.Gateway.Pool.Registry.{
  registered, create-registered, remove-registered, contains-registered,
}
use apeiron.Gateway.GatewayError.{
  GatewayError, StatusCode, ok_200, created_201, no_content_204, bad_request_400, not_found_404,
  error_status,
}
use apeiron.Gateway.Process.{
  Host, History, drew_uuid, ran, Program, Ran, finished, not_spawned, ProcessOutput, ShellResult,
  shell_result, timed_run, run_shell, run_code,
}
use apeiron.Gateway.Routes.{
  State, Request, health_request, create_request, destroy_request, shell_request, execute_request,
  ExecuteBody, Response, reply, result, handle, health, create_sandbox, destroy_sandbox,
  shell_command, execute_code, respond, into_response, serve,
}

-- A result reports success exactly when its exit code is 0, also where a signal ended the process.
pub shell_result_success :
    (output : ProcessOutput) (elapsed : ℕ)
    → (shell_result output elapsed).success ≡ is_zero (shell_result output elapsed).exit_code
unfolding shell_result
shell_result_success output elapsed = ground arith

-- The runtimes that a sandbox may have.
unfoldable pub is_supported : Text → Bool
is_supported runtime = text_eq runtime (codes "node") || text_eq runtime (codes "python")

unfoldable pub was_spawned : Ran → Bool
was_spawned (finished output) = true
was_spawned (not_spawned e) = false

-- The program that `run_code` runs in a runtime.
unfoldable pub code_program : Text → Text → Program
code_program runtime source =
    if text_eq runtime (codes "node")
    then record { bin = codes "node"; flag = codes "-e"; code = source }
    else record { bin = codes "python3"; flag = codes "-c"; code = source }

unfoldable pub shell_program : Text → Program
shell_program command = record { bin = codes "sh"; flag = codes "-c"; code = command }

-- There is a response, with this status.
abbrev pub HasStatus : Outcome Response → StatusCode → Type 0
HasStatus (value r) code = r.status ≡ code
HasStatus panic code = ⊥

-- A handler that ends with a response passes its state on unread.
answer_only :
    {S : Type 0} (r : Result GatewayError ShellResult) (f : ShellResult → Response) (s t : S)
    → (continue r (λ a. pure (f a)) s).0 ≡ (continue r (λ a. pure (f a)) t).0
answer_only (ok a) f s t = refl
answer_only (err e) f s t = refl
answer_only panicked f s t = refl

module _ (index_map : IndexMap SandboxEntry) (host : Host) where
  -- The status that each request should have.
  unfoldable pub status_for : Request index_map host → State index_map host → StatusCode
  unfolding is_supported was_spawned code_program shell_program
  status_for health_request s = ok_200
  status_for (create_request body) s =
      if is_supported body.runtime then created_201 else bad_request_400
  status_for (destroy_request id) s =
      if registered index_map s.pool id then no_content_204 else not_found_404
  status_for (shell_request id body) s =
      if registered index_map s.pool id
      then (if was_spawned (host.run s.history (shell_program body.command))
          then ok_200
          else bad_request_400)
      else not_found_404
  status_for (execute_request id body) s =
      if registered index_map s.pool id
      then (if is_supported body.runtime
            && was_spawned (host.run s.history (code_program body.runtime body.code))
          then ok_200
          else bad_request_400)
      else not_found_404

  -- If the pool is not poisoned, each request gets a response with its status: `200` for health;
  -- `201` for a sandbox of a supported runtime, else `400`; `204` for a destroyed sandbox; `200` for a
  -- program that ran in a registered sandbox, `400` for an unsupported runtime or a program that could
  -- not be started; `404` for a sandbox that is not registered.
  pub serve_status :
      (request : Request index_map host) (s : State index_map host)
      → s.pool.poisoned ≡ false
      → HasStatus (serve index_map host request s).0 (status_for request s)
  unfolding serve status_for handle respond into_response error_status
  serve_status health_request s h = unfold health in refl
  serve_status (create_request body) s h =
      let (after, e, unpoisoned, tells) =
        create-registered index_map (host.random s.history) (host.instant s.history) body.runtime
          s.pool h in
      unfold create_sandbox in
      elim (Bool-cases (text_eq body.runtime (codes "node"))) [
        | inl node ↦ rw (node, e)
        | inr other ↦ elim (Bool-cases (text_eq body.runtime (codes "python"))) [
          | inl python ↦ rw (other, python, e)
          | inr neither ↦ rw (other, neither)
        ]
      ]
  serve_status (destroy_request id) s h =
      let (after, e, unpoisoned, tells) = remove-registered index_map id s.pool h in
      unfold destroy_sandbox in rw e (ground arith)
  serve_status (shell_request id body) s h =
      unfold shell_command run_shell timed_run in
      rw (contains-registered index_map id s.pool h) (ground arith)
  serve_status (execute_request id body) s h =
      unfold execute_code run_code timed_run in
      rw (contains-registered index_map id s.pool h) (ground arith)

  -- What a request runs: the history is as before, with the identifier of a created sandbox, or with
  -- the one program that a registered sandbox's request names.
  unfoldable pub deeds_for : Request index_map host → State index_map host → History
  unfolding is_supported code_program shell_program
  deeds_for health_request s = s.history
  deeds_for (create_request body) s =
      if is_supported body.runtime then drew_uuid ∷ s.history else s.history
  deeds_for (destroy_request id) s = s.history
  deeds_for (shell_request id body) s =
      if registered index_map s.pool id
      then ran (shell_program body.command) ∷ s.history
      else s.history
  deeds_for (execute_request id body) s =
      if registered index_map s.pool id && is_supported body.runtime
      then ran (code_program body.runtime body.code) ∷ s.history
      else s.history

  -- If the pool is not poisoned, a shell request of a registered sandbox runs its command once, an
  -- execute request of a registered sandbox with a supported runtime runs its code once in that
  -- runtime, a sandbox of a supported runtime draws an identifier, and no other request does
  -- anything outside.
  pub serve_deeds :
      (request : Request index_map host) (s : State index_map host)
      → s.pool.poisoned ≡ false
      → (serve index_map host request s).1.history ≡ deeds_for request s
  unfolding serve deeds_for handle
  serve_deeds health_request s h = unfold health in refl
  serve_deeds (create_request body) s h =
      let (after, e, unpoisoned, tells) =
        create-registered index_map (host.random s.history) (host.instant s.history) body.runtime
          s.pool h in
      unfold create_sandbox in
      elim (Bool-cases (text_eq body.runtime (codes "node"))) [
        | inl node ↦ rw (node, e)
        | inr other ↦ elim (Bool-cases (text_eq body.runtime (codes "python"))) [
          | inl python ↦ rw (other, python, e)
          | inr neither ↦ rw (other, neither)
        ]
      ]
  serve_deeds (destroy_request id) s h =
      let (after, e, unpoisoned, tells) = remove-registered index_map id s.pool h in
      unfold destroy_sandbox in rw e (ground arith)
  serve_deeds (shell_request id body) s h =
      unfold shell_command run_shell timed_run in
      rw (contains-registered index_map id s.pool h) (ground arith)
  serve_deeds (execute_request id body) s h =
      unfold execute_code run_code timed_run in
      rw (contains-registered index_map id s.pool h) (ground arith)

  -- The runtime that a sandbox was created with plays no part in running code: two gateways whose
  -- pools are not poisoned and register the sandbox, whatever is stored for it, answer alike if the
  -- same was done before.
  pub execute_code_any_runtime :
      (id : Uuid) (body : ExecuteBody) (s t : State index_map host)
      → s.pool.poisoned ≡ false
      → t.pool.poisoned ≡ false
      → registered index_map s.pool id ≡ true
      → registered index_map t.pool id ≡ true
      → s.history ≡ t.history
      → (serve index_map host (execute_request id body) s).0
        ≡ (serve index_map host (execute_request id body) t).0
  unfolding serve handle execute_code
  execute_code_any_runtime id body s t hs ht ks kt same =
      let answer_of = λ (past : History) (u : State index_map host).
        (continue (run_code host body.runtime body.code past).0
          (λ answer. pure (reply ok_200 (result answer))) u).0 in
      rw
        (
          contains-registered index_map id s.pool hs,
          contains-registered index_map id t.pool ht,
          ks,
          kt,
        )
        (ap (respond index_map host) (
          answer_only (run_code host body.runtime body.code s.history).0
            (λ a. reply ok_200 (result a)) _ t
          ∙ ap (λ past. answer_of past t) same
          ∙ answer_only (run_code host body.runtime body.code t.history).0
              (λ a. reply ok_200 (result a)) t _))
