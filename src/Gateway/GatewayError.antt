-- ===== src/Gateway/GatewayError.antt =====
-- forge-gateway/src/error.rs. The status codes are those of HTTP.
use apeiron.Base.{◌++◌, Text, codes}
use apeiron.Core.Id.{Uuid}
use apeiron.Executor.ExecutorError.{ExecutorError, IoError, display_error}

pub data GatewayError : Type 0 where
  executor : ExecutorError → GatewayError
  sandbox_not_found : Uuid → GatewayError
  invalid_request : Text → GatewayError

-- `Display`
unfoldable pub display : (Uuid → Text) → (IoError → Text) → GatewayError → Text
display uuid_text io_text (executor e) =
    codes "executor error: " ++ display_error uuid_text io_text e
display uuid_text io_text (sandbox_not_found id) = codes "sandbox not found: " ++ uuid_text id
display uuid_text io_text (invalid_request reason) = codes "invalid request: " ++ reason

pub data StatusCode : Type 0 where
  ok_200 created_201 no_content_204 bad_request_400 not_found_404 internal_500 : StatusCode

-- The status of `into_response`.
unfoldable pub error_status : GatewayError → StatusCode
error_status (executor e) = internal_500
error_status (sandbox_not_found id) = not_found_404
error_status (invalid_request reason) = bad_request_400
