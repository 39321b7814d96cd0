-- ===== src/Gateway/Routes/Lifecycle.antt =====
-- The sandboxes as a client sees them: the responses alone tell which are registered.
use apeiron.Base.{
  ◌≡◌, ◌∙◌, sym, ◌++◌, Text, refl, Bool, true, false, not, ◌&&◌, ◌||◌, ◌∷◌, arith, ◌==◌, text_eq,
  codes, Bool-cases, inl, inr,
}
use apeiron.Base.Outcome.{value}
use apeiron.Core.Id.{Uuid}
use apeiron.Action.{Result, ok, err, panicked, pure, continue}
use apeiron.Action.Rules.{Fails}
use apeiron.Gateway.Pool.{IndexMap, SandboxEntry}
use apeiron.Gateway.Pool.Registry.{
  registered, create-registered, remove-registered, contains-registered,
}
use apeiron.Gateway.GatewayError.{
  GatewayError, invalid_request, sandbox_not_found, created_201, no_content_204, ok_200, StatusCode,
  error_status,
}
use apeiron.Gateway.Process.{
  Host, History, ShellResult, drew_uuid, run_shell, run_code, run_shell-Fails, run_code-Fails,
}
use apeiron.Gateway.Routes.{
  State, Request, health_request, create_request, destroy_request, shell_request, execute_request,
  CreateSandboxBody, ShellBody, ExecuteBody, result, Response, Body, created, nothing, reply,
  handle, health, create_sandbox, destroy_sandbox, shell_command, execute_code, respond,
  into_response, serve,
}

-- What a response tells of the sandboxes: a created one is there, a destroyed one is not.
unfoldable pub is_created : Body → Uuid → Bool
is_created (created r) j = r.id == j
is_created _ j = false

unfoldable pub is_no_content : StatusCode → Bool
is_no_content no_content_204 = true
is_no_content _ = false

module _ (index_map : IndexMap SandboxEntry) (host : Host) where
  unfoldable pub told : Request index_map host → Response → (Uuid → Bool) → Uuid → Bool
  unfolding is_created is_no_content
  told (create_request body) r known j = is_created r.body j || known j
  told (destroy_request id) r known j = not (id == j && is_no_content r.status) && known j
  told _ r known j = known j

  -- What serving one request does: there is a response, the pool is not poisoned, and the registered
  -- identifiers are what the response tells.
  pub record Served (request : Request index_map host) (s : State index_map host) : Type 0 where
    pub response : Response
    pub state : State index_map host
    pub answers : serve index_map host request s ≡ (value response, state)
    pub unpoisoned : state.pool.poisoned ≡ false
    pub tells :
        (j : Uuid)
        → registered index_map state.pool j ≡ told request response (registered index_map s.pool) j

  serve-health : (s : State index_map host) → s.pool.poisoned ≡ false → Served health_request s
  unfolding serve handle health respond told
  serve-health s h = record {
    response = _;
    state = _;
    answers = refl;
    unpoisoned = h;
    tells = λ j. refl;
  }

  refusal : Text → GatewayError
  refusal runtime =
      invalid_request
        (codes "unsupported runtime '" ++ (runtime ++ codes "'; expected 'node' or 'python'"))

  serve-create :
      (body : CreateSandboxBody) (s : State index_map host)
      → s.pool.poisoned ≡ false
      → Served (create_request body) s
  unfolding serve handle create_sandbox respond into_response told refusal
  serve-create body s h =
      let (after, e, unpoisoned, tells) =
        create-registered index_map (host.random s.history) (host.instant s.history) body.runtime
          s.pool h in
      elim (Bool-cases (
        not (text_eq body.runtime (codes "node")) && not (text_eq body.runtime (codes "python")))) [
          | inl refused ↦ record {
            response = into_response index_map host (refusal body.runtime);
            state = s;
            answers = rw refused;
            unpoisoned = h;
            tells = λ j. refl;
          }
          | inr supported ↦ record {
            response = reply created_201 (created (record { id = host.random s.history }));
            state = record { pool = after; history = drew_uuid ∷ s.history };
            answers = rw (supported, e);
            unpoisoned = unpoisoned;
            tells = tells;
          }
        ]

  -- Taking away what is not there changes nothing.
  gone :
      (id j : Uuid) (known : Uuid → Bool)
      → known id ≡ false
      → (not (id == j) && known j) ≡ (not (id == j && false) && known j)
  gone id j known h = ground arith

  serve-destroy :
      (id : Uuid) (s : State index_map host)
      → s.pool.poisoned ≡ false
      → Served (destroy_request id) s
  unfolding serve handle destroy_sandbox respond into_response told error_status
  serve-destroy id s h =
      let (after, e, unpoisoned, tells) = remove-registered index_map id s.pool h in
      elim (Bool-cases (registered index_map s.pool id)) [
        | inl known ↦ record {
          response = reply no_content_204 nothing;
          state = record { pool = after; history = s.history };
          answers = rw (e, known);
          unpoisoned = unpoisoned;
          tells = λ j. tells j ∙ ground arith;
        }
        | inr unknown ↦ record {
          response = into_response index_map host (sandbox_not_found id);
          state = record { pool = after; history = s.history };
          answers = rw (e, unknown);
          unpoisoned = unpoisoned;
          tells = λ j. tells j ∙ gone id j (registered index_map s.pool) unknown;
        }
      ]

  -- A request whose handler only runs a program leaves the sandboxes alone.
  serve-run :
      (request : Request index_map host) (s : State index_map host) (h : History)
      (r : Result GatewayError ShellResult)
      → serve index_map host request s ≡ (
        respond index_map host
            (continue r (λ a. pure (reply ok_200 (result a))) (record s { history = h })).0,
        (continue r (λ a. pure (reply ok_200 (result a))) (record s { history = h })).1,
      )
      → Fails (λ _. Unit {0}) r
      → s.pool.poisoned ≡ false
      → ((answer : Response) (j : Uuid)
          → told request answer (registered index_map s.pool) j ≡ registered index_map s.pool j)
      → Served request s
  unfolding respond
  serve-run request s h (ok a) e ran clean same = record {
    response = reply ok_200 (result a);
    state = record s { history = h };
    answers = e;
    unpoisoned = clean;
    tells = λ j. sym (same _ j);
  }
  serve-run request s h (err x) e ran clean same = record {
    response = into_response index_map host x;
    state = record s { history = h };
    answers = e;
    unpoisoned = clean;
    tells = λ j. sym (same _ j);
  }
  serve-run request s h panicked e ran clean same = absurd ran

  serve-shell :
      (id : Uuid) (body : ShellBody) (s : State index_map host)
      → s.pool.poisoned ≡ false
      → Served (shell_request id body) s
  unfolding serve handle shell_command respond told
  serve-shell id body s h =
      let e = contains-registered index_map id s.pool h in
      elim (Bool-cases (registered index_map s.pool id)) [
        | inl known ↦
            let (r, past) = run_shell host body.command s.history in
            serve-run (shell_request id body) s past r (rw (e, known))
              (run_shell-Fails host body.command s.history) h (λ answer j. refl)
        | inr unknown ↦ record {
          response = into_response index_map host (sandbox_not_found id);
          state = s;
          answers = rw (e, unknown);
          unpoisoned = h;
          tells = λ j. refl;
        }
      ]

  serve-execute :
      (id : Uuid) (body : ExecuteBody) (s : State index_map host)
      → s.pool.poisoned ≡ false
      → Served (execute_request id body) s
  unfolding serve handle execute_code respond told
  serve-execute id body s h =
      let e = contains-registered index_map id s.pool h in
      elim (Bool-cases (registered index_map s.pool id)) [
        | inl known ↦
            let (r, past) = run_code host body.runtime body.code s.history in
            serve-run (execute_request id body) s past r (rw (e, known))
              (run_code-Fails host body.runtime body.code s.history) h (λ answer j. refl)
        | inr unknown ↦ record {
          response = into_response index_map host (sandbox_not_found id);
          state = s;
          answers = rw (e, unknown);
          unpoisoned = h;
          tells = λ j. refl;
        }
      ]

  -- Every request to a pool that is not poisoned gets a response, leaves the pool unpoisoned, and
  -- changes the registered sandboxes as the response tells: `201` with its identifier adds one, `204`
  -- takes the one away that the request named, and any other response changes none.
  pub serve_lem :
      (request : Request index_map host) (s : State index_map host)
      → s.pool.poisoned ≡ false
      → Served request s
  serve_lem health_request s h = serve-health s h
  serve_lem (create_request body) s h = serve-create body s h
  serve_lem (destroy_request id) s h = serve-destroy id s h
  serve_lem (shell_request id body) s h = serve-shell id body s h
  serve_lem (execute_request id body) s h = serve-execute id body s h
