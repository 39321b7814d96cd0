-- ===== src/Gateway/Server.antt =====
-- forge-gateway/src/main.rs. The variable `FORGE_LISTEN_ADDR`, the listener and the server are the outside;
-- the log is left out.
use apeiron.Base.{ℕ, ◌≡◌, refl, Option, none, List, [], ◌∷◌, unwrap_or, Text, codes}
use apeiron.Executor.ExecutorError.{IoError}
use apeiron.Executor.Host.{Answer, done, failed}

-- `var` is none where the variable is not set, or is no Unicode. `serving` is how the server ends.
pub record Outside : Type 0 where
  pub var : Option Text
  pub bind : Text → Answer (Unit {0})
  pub serving : Text → Answer (Unit {0})

pub data Ending : Type 0 where
  finished : Ending
  exited : ℕ → Ending

-- What the program did: it asked for a listener, and it served on one.
pub data Doing : Type 0 where
  bound : Text → Doing
  served : Text → Doing

unfoldable pub default_addr : Text
default_addr = codes "127.0.0.1:3456"

-- `if let Err(e) = axum::serve(listener, app).await`
unfoldable pub serve_on : Outside → Text → Ending
serve_on outside addr = elim (outside.serving addr) [ done u ↦ finished | failed e ↦ exited 1 ]

unfoldable pub main : Outside → Ending × List Doing
unfolding default_addr serve_on
main outside =
    let addr = unwrap_or default_addr outside.var in
    elim (outside.bind addr) [
      | done u ↦ (serve_on outside addr, bound addr ∷ served addr ∷ [])
      | failed e ↦ (exited 1, bound addr ∷ [])
    ]

no_listener :
    (outside : Outside) (e : IoError)
    → outside.var ≡ none
    → outside.bind (codes "127.0.0.1:3456") ≡ failed e
    → main outside ≡ (exited 1, bound (codes "127.0.0.1:3456") ∷ [])
unfolding main default_addr
no_listener outside e p q = rw (p, q) refl
