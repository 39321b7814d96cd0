-- ===== src/Executor/UnixClient/Texts.antt =====
-- A request of the API (forge-executor/src/unix_client.rs) whose steps go well: the length that it
-- announces, and the text that comes back.
use apeiron.Base.{
  ℕ, ◌≡◌, refl, Option, [], ◌∷◌, ◌++◌, Text, All, codes, length, if◌then◌else◌, unwrap_or,
  Bool-cases, inl, inr, sym, ltb,
}
use apeiron.Std.Decimal.{show_ℕ}
use apeiron.Std.FilePath.{PathBuf}
use apeiron.Std.Utf8.Encode.{IsScalar, encode, length-encode}
use apeiron.Std.Utf8.RoundTrip.{from_utf8_lossy-encode}
use apeiron.Executor.ExecutorError.{api_error}
use apeiron.Executor.Action.{ok, err}
use apeiron.Executor.Host.{Env, Trace, Method, Request, passed, api_call}
use apeiron.Executor.UnixClient.{headers_for, checked, respond, api_request}

-- The request that should be sent: a body is JSON, and its length is announced in bytes of UTF-8.
unfoldable pub framed : Method → Text → Text → Request
framed method uri_path body = record {
  method = method;
  uri_path = uri_path;
  headers =
      (codes "Host", codes "localhost")
      ∷ (if ltb 0 (length (encode body))
          then (codes "Content-Type", codes "application/json")
            ∷ (codes "Content-Length", show_ℕ (length (encode body)))
            ∷ []
          else []);
  body = body;
}

-- The peer took that request, and answered with this status and this text in UTF-8.
pub record Exchange (env : Env) (socket : PathBuf) (request : Request) (t : Trace) (status : ℕ)
    (answer : Text) : Type 0 where
  pub connected : env.connect t socket ≡ passed tt
  pub handshaken : env.handshake t socket ≡ passed tt
  pub uri_parsed : env.parse_uri request.uri_path ≡ passed tt
  pub built : env.build_request request ≡ passed tt
  pub sent : env.send_request t request ≡ passed status
  pub collected : env.collect_body t request ≡ passed (encode answer)
  pub scalar : All IsScalar answer

-- If the steps of the framed request go well, the request that is sent is that one, and the answer is
-- its text, unchanged: as the result for a status of success, and in the error, behind the status and
-- the path, for any other.
pub api_request-text :
    (env : Env) (socket : PathBuf) (method : Method) (uri : Text) (body : Option Text) (t : Trace)
    (status : ℕ) (answer : Text)
    → Exchange env socket
        (framed method uri (unwrap_or [] body))
        (api_call socket method uri body ∷ t)
        status
        answer
    → api_request env socket method uri body t ≡ (
      if env.is_success status
          then ok answer
          else err (
              api_error (
                codes "HTTP "
                ++ (env.status_text status
                    ++ (codes " from " ++ (uri ++ (codes ": " ++ answer)))))),
      api_call socket method uri body ∷ t,
    )
unfolding api_request framed headers_for checked respond
api_request-text env socket method uri body t status answer x =
    rw
      (
        sym (length-encode (unwrap_or [] body)),
        x.connected,
        x.handshaken,
        x.uri_parsed,
        x.built,
        x.sent,
        x.collected,
        from_utf8_lossy-encode answer x.scalar,
      )
      (elim (Bool-cases (env.is_success status)) [ inl e ↦ rw e refl | inr e ↦ rw e refl ])
