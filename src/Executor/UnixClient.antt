-- ===== src/Executor/UnixClient.antt =====
-- forge-executor/src/unix_client.rs. A step of the crate `hyper` is an answer of the `Env`; the task
-- that drives the connection in the background only logs.
pub mod Calls
pub mod Texts
use apeiron.Base.{ℕ, Option, List, [], ◌∷◌, ◌++◌, Text, Bytes, codes, ltb, if◌then◌else◌, unwrap_or}
use apeiron.Std.Utf8.{from_utf8_lossy, utf8_len}
use apeiron.Std.Decimal.{show_ℕ}
use apeiron.Std.FilePath.{PathBuf}
use apeiron.Executor.ExecutorError.{api_error}
use apeiron.Executor.Action.{ok, err, Action, pure, fail, ◌>>=◌, ◌>>◌}
use apeiron.Executor.Host.{Env, Trace, Step, passed, broke, Method, Request, api_call, emit, ask}

-- `map_err(|e| ExecutorError::ApiError(…))?`: the error's text behind a prefix.
unfoldable pub checked : {A : Type 0} → Text → Step A → Action Trace A
checked prefix (passed a) t = (ok a, t)
checked prefix (broke e) t = (err (api_error (prefix ++ e)), t)

abbrev host_header : Text × Text
host_header = (codes "Host", codes "localhost")

unfoldable pub headers_for : ℕ → List (Text × Text)
headers_for content_len =
    host_header
    ∷ (if ltb 0 content_len
        then (codes "Content-Type", codes "application/json")
          ∷ (codes "Content-Length", show_ℕ content_len)
          ∷ []
        else [])

-- The response, once its status is known.
unfoldable pub respond : Env → Text → ℕ → Bytes → Action Trace Text
respond env uri_path status body_bytes =
    let body_str = from_utf8_lossy body_bytes in
    if env.is_success status
    then pure body_str
    else fail (
        api_error (
          codes "HTTP "
          ++ (env.status_text status
              ++ (codes " from " ++ (uri_path ++ (codes ": " ++ body_str))))))

unfoldable pub api_request : Env → PathBuf → Method → Text → Option Text → Action Trace Text
unfolding checked respond headers_for
api_request env socket_path method uri_path body = do
  emit (api_call socket_path method uri_path body)
  connected ← ask (λ t. env.connect t socket_path)
  checked (codes "connect to " ++ (socket_path ++ codes ": ")) connected
  handshaken ← ask (λ t. env.handshake t socket_path)
  checked (codes "HTTP handshake: ") handshaken
  let body_bytes = unwrap_or [] body
  checked (codes "invalid URI path " ++ (uri_path ++ codes ": ")) (env.parse_uri uri_path)
  let req : Request = record {
    method = method;
    uri_path = uri_path;
    headers = headers_for (utf8_len body_bytes);
    body = body_bytes;
  }
  checked (codes "build request: ") (env.build_request req)
  sent ← ask (λ t. env.send_request t req)
  status ← checked (codes "send request: ") sent
  collected ← ask (λ t. env.collect_body t req)
  body_bytes ← checked (codes "read response body: ") collected
  respond env uri_path status body_bytes
