-- ===== src/Suite/Routes.antt =====
-- The unit tests of forge-gateway/src/routes.rs and error.rs, on a new gateway. A request is what the
-- framework hands to the router; the status and the body are those of the response.
use apeiron.Base.{ℕ, ◌≡◌, refl, Bool, true, false, ◌&&◌, ◌==◌, is_some, Text, codes, text_eq}
use apeiron.Base.Outcome.{Outcome, value, ◌>>=◌}
use apeiron.Core.Id.{Uuid}
use apeiron.Serial.Search.Find.{find, starts_with}
use apeiron.Executor.ExecutorError.{IoError, spawn_failed}
use apeiron.Gateway.Pool.{IndexMap, SandboxEntry, new_pool, create, remove, lock}
use apeiron.Gateway.GatewayError.{
  executor, sandbox_not_found, invalid_request, display, StatusCode, ok_200, created_201,
  no_content_204, bad_request_400, not_found_404, internal_500, error_status,
}
use apeiron.Gateway.Process.{Host, History}
use apeiron.Gateway.Routes.{
  Body, status_ok, Response, Request, health_request, create_request, destroy_request,
  into_response, serve, new_state, respond, handle, health, create_sandbox, destroy_sandbox,
}

status_number : StatusCode → ℕ
status_number ok_200 = 200
status_number created_201 = 201
status_number no_content_204 = 204
status_number bad_request_400 = 400
status_number not_found_404 = 404
status_number internal_500 = 500

-- `assert_eq!(resp.status(), …)`
unfoldable pub has_status : Response → StatusCode → Bool
unfolding status_number
has_status response status = status_number response.status == status_number status

is_status_ok : Body → Bool
is_status_ok status_ok = true
is_status_ok _ = false

module _ (index_map : IndexMap SandboxEntry) (host : Host) (past : History) where
  -- `create_router(test_pool()).oneshot(request)`
  abbrev oneshot : Request index_map host → Outcome Response
  oneshot request = (serve index_map host request (new_state index_map host past)).0

  unfoldable pub health_response_format_returns_ok_with_status_field : Outcome Bool
  unfolding is_status_ok
  health_response_format_returns_ok_with_status_field = do
    response ← oneshot health_request
    value (has_status response ok_200 && is_status_ok response.body)

  unfoldable pub create_sandbox_invalid_runtime_returns_400 : Outcome Bool
  create_sandbox_invalid_runtime_returns_400 = do
    response ← oneshot (create_request (record { runtime = codes "ruby" }))
    value (has_status response bad_request_400)

  unfoldable pub create_sandbox_valid_runtime_returns_201 : Outcome Bool
  create_sandbox_valid_runtime_returns_201 = do
    response ← oneshot (create_request (record { runtime = codes "node" }))
    value (has_status response created_201)

  unfoldable pub destroy_sandbox_not_found_returns_404 : Uuid → Outcome Bool
  destroy_sandbox_not_found_returns_404 unknown_id = do
    response ← oneshot (destroy_request unknown_id)
    value (has_status response not_found_404)

  unfoldable pub gateway_error_status_codes_map_correctly : Bool
  gateway_error_status_codes_map_correctly =
      has_status (into_response index_map host (sandbox_not_found 0)) not_found_404
      && has_status (into_response index_map host (invalid_request (codes "missing field")))
          bad_request_400

  unfoldable pub gateway_error_executor_variant_returns_500 : Bool
  gateway_error_executor_variant_returns_500 =
      has_status (into_response index_map host (executor (spawn_failed (codes "vm died"))))
        internal_500

unfoldable pub gateway_error_display_includes_message : (Uuid → Text) → (IoError → Text) → Bool
gateway_error_display_includes_message uuid_text io_text =
    is_some (
      find (codes "bad runtime")
        (display uuid_text io_text (invalid_request (codes "bad runtime"))))

module _ (index_map : IndexMap SandboxEntry) (host : Host) (past : History) where
  -- Whatever the gateway's host did before and answers, and whatever identifiers are drawn: the tests of the
  -- routes pass.
  pub route_tests :
      (unknown_id : Uuid)
      → (health_response_format_returns_ok_with_status_field index_map host past ≡ value true)
        × (create_sandbox_invalid_runtime_returns_400 index_map host past ≡ value true)
        × (create_sandbox_valid_runtime_returns_201 index_map host past ≡ value true)
        × (destroy_sandbox_not_found_returns_404 index_map host past unknown_id ≡ value true)
  unfolding health_response_format_returns_ok_with_status_field
      create_sandbox_invalid_runtime_returns_400 create_sandbox_valid_runtime_returns_201
      destroy_sandbox_not_found_returns_404 serve respond handle health create_sandbox
      destroy_sandbox new_state new_pool create remove lock has_status text_eq into_response
      error_status
  route_tests unknown_id =
      (refl, refl, refl, simp (index_map.shift_remove_value, index_map.get-empty))

  error_tests :
      (gateway_error_status_codes_map_correctly index_map host past ≡ true)
      × (gateway_error_executor_variant_returns_500 index_map host past ≡ true)
  unfolding gateway_error_status_codes_map_correctly gateway_error_executor_variant_returns_500
      into_response error_status has_status
  error_tests = (refl, refl)

message_test :
    (uuid_text : Uuid → Text) (io_text : IoError → Text)
    → gateway_error_display_includes_message uuid_text io_text ≡ true
unfolding gateway_error_display_includes_message display find starts_with
message_test uuid_text io_text = refl
