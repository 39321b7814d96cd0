-- ===== src/Executor/UnixClient/Calls.antt =====
-- What a request of the API (forge-executor/src/unix_client.rs) leaves in the trace: itself, and
-- nothing else, whether it succeeds or fails.
use apeiron.Base.{ℕ, ◌≡◌, refl, ◌∷◌, Option, Text, Bytes}
use apeiron.Std.FilePath.{PathBuf}
use apeiron.Action.Rules.{
  Keeps, keeps_rules, Fails, FailsWith, FailsWith-bind, FailsWith-if, FailsWith-pure,
  FailsWith-fail,
}
use apeiron.Executor.ExecutorError.{ExecutorError, api_error}
use apeiron.Executor.Action.{Action, ◌>>◌}
use apeiron.Executor.Host.{Env, Trace, Step, passed, broke, Method, Event, api_call, ask, emit}
use apeiron.Executor.UnixClient.{checked, respond, api_request}

checked-Keeps : {A : Type 0} (prefix : Text) (step : Step A) → Keeps (λ t. t) (checked prefix step)
unfolding checked
checked-Keeps prefix (passed a) = record { at = λ t. refl }
checked-Keeps prefix (broke e) = record { at = λ t. refl }

ask-Keeps : {A : Type 0} (f : Trace → A) → Keeps (λ t. t) (ask f)
ask-Keeps f = record { at = λ t. refl }

respond-Keeps :
    (env : Env) (uri : Text) (status : ℕ) (body : Bytes)
    → Keeps (λ t. t) (respond env uri status body)
unfolding respond
respond-Keeps env uri status body = search keeps_rules

-- `m` adds an event to the trace, and nothing else.
pub record Adds {A : Type 0} (e : Event) (m : Action Trace A) : Type 0 where
  pub at : (t : Trace) → (m t).1 ≡ e ∷ t

Adds-emit : {A : Type 0} (e : Event) (m : Action Trace A) → Keeps (λ t. t) m → Adds e (emit e >> m)
Adds-emit e m k = record { at = λ t. k.at (e ∷ t) }

pub api_request-Adds :
    (env : Env) (socket : PathBuf) (method : Method) (uri : Text) (body : Option Text)
    → Adds (api_call socket method uri body) (api_request env socket method uri body)
unfolding api_request
api_request-Adds env socket method uri body =
    search (Adds-emit, keeps_rules, checked-Keeps, ask-Keeps, respond-Keeps) depth 40

-- The errors of this module.
pub IsApiError : ExecutorError → Type 0
IsApiError (api_error e) = Unit
IsApiError _ = ⊥

checked-FailsWith :
    {A : Type 0} (prefix : Text) (step : Step A) → FailsWith IsApiError (checked prefix step)
unfolding checked IsApiError
checked-FailsWith prefix (passed a) = record { at = λ t. tt }
checked-FailsWith prefix (broke e) = record { at = λ t. tt }

emit-FailsWith : (e : Event) → FailsWith IsApiError (emit e)
emit-FailsWith e = record { at = λ t. tt }

ask-FailsWith : {A : Type 0} (f : Trace → A) → FailsWith IsApiError (ask f)
ask-FailsWith f = record { at = λ t. tt }

api_error-IsApiError : (e : Text) → IsApiError (api_error e)
unfolding IsApiError
api_error-IsApiError e = tt

ruleset fails_rules = (
  FailsWith-bind, FailsWith-if, FailsWith-pure, FailsWith-fail, checked-FailsWith, ask-FailsWith,
  emit-FailsWith, api_error-IsApiError,
)

respond-FailsWith :
    (env : Env) (uri : Text) (status : ℕ) (body : Bytes)
    → FailsWith IsApiError (respond env uri status body)
unfolding respond
respond-FailsWith env uri status body = search fails_rules

pub api_request-FailsWith :
    (env : Env) (socket : PathBuf) (method : Method) (uri : Text) (body : Option Text)
    → FailsWith IsApiError (api_request env socket method uri body)
unfolding api_request
api_request-FailsWith env socket method uri body = search (fails_rules, respond-FailsWith) depth 40

-- A request of the API is begun once, whatever comes of it; its only errors are API errors, and it
-- does not panic.
api_request_lem :
    (env : Env) (socket : PathBuf) (method : Method) (uri : Text) (body : Option Text) (t : Trace)
    → ((api_request env socket method uri body t).1 ≡ api_call socket method uri body ∷ t)
      × Fails IsApiError (api_request env socket method uri body t).0
api_request_lem env socket method uri body t = (
  (api_request-Adds env socket method uri body).at t,
  (api_request-FailsWith env socket method uri body).at t,
)
