-- ===== src/Gateway/Routes.antt =====
-- The handlers and the router of forge-gateway/src/routes.rs, with `into_response` of
-- forge-gateway/src/error.rs. The crate `axum` reads the path and the body before a handler is
-- called: a `Request` is what the handler is given. Its layers (tracing, CORS) are left out.
pub mod Outputs
pub mod Responses
pub mod Lifecycle
pub mod Session
pub mod Sections
pub mod Concurrent
use apeiron.Base.{
  ℕ, Bool, not, ◌&&◌, String, List, [], ◌∷◌, ◌++◌, if◌then◌else◌, Text, codes, text_eq,
}
use apeiron.Base.Outcome.{Outcome, value, panic}
use apeiron.Core.Id.{Uuid}
use apeiron.Action.{Result, ok, err, panicked, Action, pure, fail, ◌>>=◌, ◌>>◌}
use apeiron.Gateway.Pool.{IndexMap, SandboxEntry, SandboxPool, new_pool, create, remove, contains}
use apeiron.Gateway.GatewayError.{
  GatewayError, sandbox_not_found, invalid_request, display, StatusCode, ok_200, created_201,
  no_content_204, internal_500, error_status,
}
use apeiron.Gateway.Process.{Host, History, Deed, drew_uuid, ShellResult, run_shell, run_code}

pub record CreateSandboxBody : Type 0 where
  pub runtime : Text

pub record CreateSandboxResponse : Type 0 where
  pub id : Uuid

pub record ShellBody : Type 0 where
  pub command : Text

pub record ExecuteBody : Type 0 where
  pub code : Text
  pub runtime : Text

pub data Body : Type 0 where
  status_ok : Body
  created : CreateSandboxResponse → Body
  nothing : Body
  result : ShellResult → Body
  error : Text → Body

pub record Response : Type 0 where
  pub status : StatusCode
  pub body : Body

abbrev pub reply : StatusCode → Body → Response
reply status body = record { status = status; body = body }

pub data Handler : Type 0 where
  health_handler create_handler destroy_handler shell_handler execute_handler : Handler

pub data Verb : Type 0 where
  get post delete : Verb

-- `create_router`: the path pattern, the method and the handler of each route.
unfoldable pub create_router : List (String × Verb × Handler)
create_router =
    ("/v1/sandbox", post, create_handler)
    ∷ ("/v1/sandbox/{id}/shell", post, shell_handler)
    ∷ ("/v1/sandbox/{id}/execute", post, execute_handler)
    ∷ ("/v1/sandbox/{id}", delete, destroy_handler)
    ∷ ("/health", get, health_handler)
    ∷ []

module _ (index_map : IndexMap SandboxEntry) (host : Host) where
  pub record State : Type 0 where
    pub pool : SandboxPool index_map
    pub history : History

  -- A method of the pool; a panic in it is the handler's.
  abbrev pub on_pool :
      {A : Type 0} → State → Outcome (A × SandboxPool index_map) → Result GatewayError A × State
  on_pool s (value (a, pool)) = (ok a, record s { pool = pool })
  on_pool s panic = (panicked, s)

  abbrev pub look : {A : Type 0} → State → Outcome A → Result GatewayError A × State
  look s (value a) = (ok a, s)
  look s panic = (panicked, s)

  abbrev pool_create : Text → Action GatewayError State Uuid
  pool_create runtime s =
      let id = host.random s.history in
      let now = host.instant s.history in
      on_pool (record s { history = drew_uuid ∷ s.history })
        (create index_map id now runtime s.pool)

  abbrev pub pool_remove : Uuid → Action GatewayError State Bool
  pool_remove id s = on_pool s (remove index_map id s.pool)

  abbrev pub pool_contains : Uuid → Action GatewayError State Bool
  pool_contains id s = look s (contains index_map id s.pool)

  abbrev pub on_host : {A : Type 0} → Action GatewayError History A → Action GatewayError State A
  on_host m s = let (r, h) = m s.history in (r, record s { history = h })

  unfoldable pub health : Action GatewayError State Response
  health = pure (reply ok_200 status_ok)

  unfoldable pub create_sandbox : CreateSandboxBody → Action GatewayError State Response
  create_sandbox body =
      if not (text_eq body.runtime (codes "node")) && not (text_eq body.runtime (codes "python"))
      then fail (
          invalid_request (
            codes "unsupported runtime '"
            ++ (body.runtime ++ codes "'; expected 'node' or 'python'")))
      else (do
        id ← pool_create body.runtime
        pure (reply created_201 (created (record { id = id }))))

  unfoldable pub destroy_sandbox : Uuid → Action GatewayError State Response
  destroy_sandbox id = do
    removed ← pool_remove id
    if removed then pure (reply no_content_204 nothing) else fail (sandbox_not_found id)

  unfoldable pub shell_command : Uuid → ShellBody → Action GatewayError State Response
  shell_command id body = do
    known ← pool_contains id
    if known then pure tt else fail (sandbox_not_found id)
    answer ← on_host (run_shell host body.command)
    pure (reply ok_200 (result answer))

  unfoldable pub execute_code : Uuid → ExecuteBody → Action GatewayError State Response
  execute_code id body = do
    known ← pool_contains id
    if known then pure tt else fail (sandbox_not_found id)
    answer ← on_host (run_code host body.runtime body.code)
    pure (reply ok_200 (result answer))

  pub data Request : Type 0 where
    health_request : Request
    create_request : CreateSandboxBody → Request
    destroy_request : Uuid → Request
    shell_request : Uuid → ShellBody → Request
    execute_request : Uuid → ExecuteBody → Request

  unfoldable pub handle : Request → Action GatewayError State Response
  handle health_request = health
  handle (create_request body) = create_sandbox body
  handle (destroy_request id) = destroy_sandbox id
  handle (shell_request id body) = shell_command id body
  handle (execute_request id body) = execute_code id body

  -- `IntoResponse for GatewayError`
  unfoldable pub into_response : GatewayError → Response
  into_response e = reply (error_status e) (error (display host.uuid_text host.io_text e))

  -- The response that the client gets; none if the handler panicked.
  unfoldable pub respond : Result GatewayError Response → Outcome Response
  respond (ok r) = value r
  respond (err e) = value (into_response e)
  respond panicked = panic

  unfoldable pub serve : Request → State → Outcome Response × State
  serve request s = let (r, s') = handle request s in (respond r, s')

  -- A new gateway, whose host has done something before.
  unfoldable pub new_state : History → State
  unfolding new_pool
  new_state past = record { pool = new_pool index_map; history = past }

  -- Requests served one after the other.
  unfoldable pub serve_all : List Request → State → List (Outcome Response) × State
  serve_all [] s = ([], s)
  serve_all (request ∷ requests) s =
      let (answer, s') = serve request s in
      let (answers, s'') = serve_all requests s' in (answer ∷ answers, s'')
