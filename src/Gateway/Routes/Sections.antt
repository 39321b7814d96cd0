-- ===== src/Gateway/Routes/Sections.antt =====
-- The handlers of forge-gateway/src/routes.rs, cut where another request can be served: at the lock of the
-- pool, and before a program is run.
use apeiron.Base.{
  ℕ, zero, suc, ◌≡◌, refl, arith, Bool, not, ◌&&◌, ◌∷◌, ◌++◌, if◌then◌else◌, Text, codes, text_eq,
}
use apeiron.Core.Id.{Uuid}
use apeiron.Action.{Result, ok, err, panicked}
use apeiron.Gateway.Pool.{IndexMap, SandboxEntry, create}
use apeiron.Gateway.GatewayError.{
  GatewayError, sandbox_not_found, invalid_request, ok_200, created_201, no_content_204,
}
use apeiron.Gateway.Process.{Host, drew_uuid, run_shell, run_code}
use apeiron.Gateway.Routes.{
  State, Request, health_request, create_request, destroy_request, shell_request, execute_request,
  Response, reply, status_ok, created, nothing, result, handle, health, create_sandbox,
  destroy_sandbox, shell_command, execute_code, on_pool, on_host, pool_remove, pool_contains,
}

module _ (index_map : IndexMap SandboxEntry) (host : Host) where
  -- Where a task is in a request: the section that it runs next.
  pub data Pc : Type 0 where
    idle : Pc
    received : Request index_map host → Pc
    inserting : Uuid → ℕ → Text → Pc
    running_shell : Uuid → Text → Pc
    running_code : Uuid → Text → Text → Pc
    answered : Result GatewayError Response → Pc

  abbrev pub Site : Type 0
  Site = State index_map host

  -- The end of a handler.
  abbrev pub ending : {A : Type 0} → (A → Response) → Result GatewayError A → Pc
  ending f (ok a) = answered (ok (f a))
  ending f (err e) = answered (err e)
  ending f panicked = answered panicked

  -- `if !pool.contains(id) { return Err(…) }`
  unfoldable pub checked : Uuid → Pc → Result GatewayError Bool → Pc
  checked id next (ok known) = if known then next else answered (err (sandbox_not_found id))
  checked id next (err e) = answered (err e)
  checked id next panicked = answered panicked

  unfoldable pub removed : Uuid → Result GatewayError Bool → Pc
  removed id (ok there) =
      if there
      then answered (ok (reply no_content_204 nothing))
      else answered (err (sandbox_not_found id))
  removed id (err e) = answered (err e)
  removed id panicked = answered panicked

  -- The first section of a request.
  unfoldable pub receive : Request index_map host → Site → Pc × Site
  unfolding checked removed
  receive health_request s = (answered (ok (reply ok_200 status_ok)), s)
  receive (create_request body) s =
      if not (text_eq body.runtime (codes "node")) && not (text_eq body.runtime (codes "python"))
      then (
        answered (
            err (
              invalid_request (
                codes "unsupported runtime '"
                ++ (body.runtime ++ codes "'; expected 'node' or 'python'")))),
        s,
      )
      else (
        inserting (host.random s.history) (host.instant s.history) body.runtime,
        record s { history = drew_uuid ∷ s.history },
      )
  receive (destroy_request id) s =
      let (r, s') = pool_remove index_map host id s in (removed id r, s')
  receive (shell_request id body) s =
      let (r, s') = pool_contains index_map host id s in
      (checked id (running_shell id body.command) r, s')
  receive (execute_request id body) s =
      let (r, s') = pool_contains index_map host id s in
      (checked id (running_code id body.runtime body.code) r, s')

  -- One section of a request.
  unfoldable pub section : Pc → Site → Pc × Site
  unfolding receive
  section idle s = (idle, s)
  section (received request) s = receive request s
  section (inserting id now runtime) s =
      let (r, s') = on_pool index_map host s (create index_map id now runtime s.pool) in
      (ending (λ id. reply created_201 (created (record { id = id }))) r, s')
  section (running_shell id command) s =
      let (r, s') = on_host index_map host (run_shell host command) s in
      (ending (λ answer. reply ok_200 (result answer)) r, s')
  section (running_code id runtime source) s =
      let (r, s') = on_host index_map host (run_code host runtime source) s in
      (ending (λ answer. reply ok_200 (result answer)) r, s')
  section (answered response) s = (answered response, s)

  unfoldable pub sections : ℕ → Pc → Site → Pc × Site
  unfolding section
  sections zero pc s = (pc, s)
  sections (suc n) pc s = let (pc', s') = section pc s in sections n pc' s'

  -- A request that is served with no other in between has, after two sections, the handler's answer, and
  -- leaves its state.
  pub requests_alone :
      (request : Request index_map host) (s : Site)
      → sections 2 (received request) s
        ≡ (answered (handle index_map host request s).0, (handle index_map host request s).1)
  unfolding sections section receive checked removed handle health create_sandbox destroy_sandbox
      shell_command execute_code
  requests_alone health_request s = refl
  requests_alone (create_request body) s = ground arith
  requests_alone (destroy_request id) s = ground arith
  requests_alone (shell_request id body) s = ground arith
  requests_alone (execute_request id body) s = ground arith
