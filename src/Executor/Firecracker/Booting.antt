-- ===== src/Executor/Firecracker/Booting.antt =====
-- The requests that `configure_and_boot` (forge-executor/src/firecracker.rs) sends, and their order.
use apeiron.Base.Outcome.{Outcome, value, panic}
use apeiron.Base.{◌≡◌, refl, inl, inr, ◌⊎◌, some, List, [], ◌∷◌, Text, codes}
use apeiron.Std.FilePath.{PathBuf}
use apeiron.Executor.ExecutorError.{ExecutorError}
use apeiron.Executor.Config.{VmConfig}
use apeiron.Executor.Action.{Result, ok, err, panicked, Action, ◌>>◌}
use apeiron.Executor.Host.{Env, Json, Trace, Event, put, api_call}
use apeiron.Executor.UnixClient.{api_request}
use apeiron.Executor.UnixClient.Calls.{api_request-Adds, api_request-FailsWith}
use apeiron.Executor.Firecracker.{
  kernel_body, rootfs_body, machine_body, boot_body, put_json, configure_and_boot,
}
use apeiron.Executor.Firecracker.Requests.{Outcomes, call-Outcomes}

module _ (env : Env) (socket : PathBuf) where
  unfoldable pub put_call : Text → Json → Event
  put_call uri body = api_call socket put uri (some (env.json_text body))

  -- The answer to a request that is begun at this trace.
  unfoldable pub put_answer : Text → Json → Trace → Result Text × Trace
  put_answer uri body = api_request env socket put uri (some (env.json_text body))

  -- How a list of requests ends that are sent one after the other. A body that cannot be built panics,
  -- with its request not sent; a request that is answered with an error is the last one; one that is
  -- answered with success is followed by the next.
  unfoldable pub Attempts : List (Text × Outcome Json) → Trace → Result (Unit {0}) × Trace → Type 0
  Attempts [] t r = r ≡ (ok tt, t)
  Attempts ((uri, panic) ∷ rest) t r = r ≡ (panicked, t)
  Attempts ((uri, value body) ∷ rest) t r =
      ((e : ExecutorError) × (put_answer uri body t ≡ (err e, put_call uri body ∷ t))
        × (r ≡ (err e, put_call uri body ∷ t)))
      ⊎ ((a : Text) × (put_answer uri body t ≡ (ok a, put_call uri body ∷ t))
          × Attempts rest (put_call uri body ∷ t) r)

  put-Outcomes :
      (uri : Text) (body : Json) (t : Trace)
      → Outcomes (put_call uri body) (put_answer uri body t) t
  unfolding put_answer put_call
  put-Outcomes uri body t =
      call-Outcomes (api_call socket put uri (some (env.json_text body)))
        (api_request env socket put uri (some (env.json_text body))) t
        (api_request-Adds env _ _ _ _) (api_request-FailsWith env _ _ _ _)

  pub no_more-Attempts : (t : Trace) → Attempts [] t (ok tt, t)
  unfolding Attempts
  no_more-Attempts t = refl

  -- One request, and then what the others do.
  pub put_json-Attempts :
      (uri : Text) (json : Outcome Json) (rest : List (Text × Outcome Json))
      (m : Action Trace (Unit {0})) (t : Trace)
      → ((t' : Trace) → Attempts rest t' (m t'))
      → Attempts ((uri, json) ∷ rest) t ((put_json env socket uri json >> m) t)
  unfolding Attempts put_json Outcomes put_answer put_call
  put_json-Attempts uri panic rest m t k = refl
  put_json-Attempts uri (value body) rest m t k = elim (put-Outcomes uri body t) [
    | inr (e, q) ↦ inl (e, q, rw q refl)
    | inl (a, q) ↦ inr (a, q, rw q (k (put_call uri body ∷ t)))
  ]

-- The requests that bring up a VM, in the order in which they are sent.
unfoldable pub boot_requests : Env → VmConfig → List (Text × Outcome Json)
boot_requests env config =
    (codes "/boot-source", kernel_body env config)
    ∷ (codes "/drives/rootfs", rootfs_body env config)
    ∷ (codes "/machine-config", value (machine_body config))
    ∷ (codes "/actions", value boot_body)
    ∷ []

-- Bringing a VM up sends its four requests in order (kernel, root file system, machine, start), up to
-- the first that fails or whose body cannot be built.
pub configure_and_boot_lem :
    (env : Env) (socket : PathBuf) (config : VmConfig) (t : Trace)
    → Attempts env socket (boot_requests env config) t (configure_and_boot env socket config t)
unfolding configure_and_boot boot_requests
configure_and_boot_lem env socket config t = put_json-Attempts env socket _ _ _ _ t λ t.
    put_json-Attempts env socket _ _ _ _ t λ t.
      put_json-Attempts env socket _ _ _ _ t
        λ t. put_json-Attempts env socket _ _ _ _ t λ t. no_more-Attempts env socket t
