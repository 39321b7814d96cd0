-- ===== src/Tests/Peers.antt =====
-- Requests of the Firecracker API (forge-executor/src/unix_client.rs) to a peer that refuses them.
use apeiron.Base.{◌≡◌, refl, some, inl, [], ◌∷◌, arith, codes}
use apeiron.Std.Decimal.{show_ℕ}
use apeiron.Std.Utf8.Encode.{encode, encode_char}
use apeiron.Executor.Action.{err}
use apeiron.Executor.ExecutorError.{api_error}
use apeiron.Executor.Host.{Env, passed, put, api_call}
use apeiron.Executor.UnixClient.{api_request}
use apeiron.Executor.UnixClient.Texts.{api_request-text}
use apeiron.Tests.Vms.{prompt}

-- A peer that answers every request with 400 and `é`.
abbrev refusing : Env
refusing = record prompt {
  send_request = λ t request. passed 400;
  collect_body = λ t request. passed (0xc3 ∷ 0xa9 ∷ []);
}

api_request-text_example :
    api_request refusing (codes "/s") put (codes "/vm") (some (codes "{}")) [] ≡ (
      err (api_error (codes "HTTP 400 from /vm: é")),
      api_call (codes "/s") put (codes "/vm") (some (codes "{}")) ∷ [],
    )
unfolding show_ℕ encode_char
api_request-text_example =
    api_request-text refusing (codes "/s") put (codes "/vm") (some (codes "{}")) [] 400 (codes "é")
      (record {
        connected = refl;
        handshaken = refl;
        uri_parsed = refl;
        built = refl;
        sent = refl;
        collected = unfold encode in refl;
        scalar = (inl (omega arith), tt);
      })
