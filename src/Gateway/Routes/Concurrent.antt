-- ===== src/Gateway/Routes/Concurrent.antt =====
-- Requests that are served at the same time (forge-gateway/src/routes.rs): each task serves one request, and
-- the sections of the tasks run in any order.
pub mod Life
pub mod Moves
pub mod Keeps
pub mod Begins
pub mod Safety
pub mod Race
pub mod Answers
use apeiron.Base.{ℕ, ◌+◌, ◌≡◌, Bool, true, false, ◌∷◌, ◌==◌, if◌then◌else◌}
use apeiron.Base.Families.{update}
use apeiron.Core.Id.{Uuid}
use apeiron.Action.{Result, ok, err, panicked}
use apeiron.Gateway.Pool.{IndexMap, SandboxEntry}
use apeiron.Gateway.GatewayError.{GatewayError}
use apeiron.Gateway.Process.{Host, History, Deed, drew_uuid}
use apeiron.Gateway.Routes.{State, Request, destroy_request, Response, new_state}
use apeiron.Gateway.Routes.Sections.{
  Pc, idle, received, inserting, running_shell, running_code, answered, Site, section,
}

-- A host that never draws an identifier twice.
pub record FreshDraws (host : Host) : Type 0 where
  pub used : History → Uuid → Bool
  pub draw_new : (h : History) → used h (host.random h) ≡ false
  pub draw_used : (h : History) → used (drew_uuid ∷ h) (host.random h) ≡ true
  pub deed_keeps : (d : Deed) (h : History) (id : Uuid) → used h id ≡ true → used (d ∷ h) id ≡ true

abbrev pub counted : Bool → ℕ → ℕ
counted b n = if b then n + 1 else n

module _ (index_map : IndexMap SandboxEntry) (host : Host) where
  -- Whether a task is about to register this sandbox, and whether it runs a program for it.
  unfoldable pub is_inserting : Uuid → Pc index_map host → Bool
  is_inserting id (inserting drawn now runtime) = id == drawn
  is_inserting id _ = false

  unfoldable pub is_running : Uuid → Pc index_map host → Bool
  is_running id (running_shell sandbox command) = id == sandbox
  is_running id (running_code sandbox runtime source) = id == sandbox
  is_running id _ = false

  -- Whether a section answered that this sandbox was created, or was destroyed.
  unfoldable pub made : Uuid → Pc index_map host → Pc index_map host → Bool
  made id (inserting drawn now runtime) (answered (ok response)) = id == drawn
  made id _ _ = false

  unfoldable pub unmade : Uuid → Pc index_map host → Pc index_map host → Bool
  unmade id (received (destroy_request sandbox)) (answered (ok response)) = id == sandbox
  unmade id _ _ = false

  -- `created` and `destroyed` count the answers 201 and 204 for each sandbox.
  pub record System : Type 0 where
    pub site : Site index_map host
    pub tasks : ℕ → Pc index_map host
    pub created : Uuid → ℕ
    pub destroyed : Uuid → ℕ

  unfoldable pub start : History → System
  start past = record {
    site = new_state index_map host past;
    tasks = λ task. idle;
    created = λ id. 0;
    destroyed = λ id. 0;
  }

  unfoldable pub run_section : ℕ → System → System
  unfolding section made unmade
  run_section task s =
      let (pc, site) = section index_map host (s.tasks task) s.site in
      record {
        site = site;
        tasks = update s.tasks task pc;
        created = λ id. counted (made id (s.tasks task) pc) (s.created id);
        destroyed = λ id. counted (unmade id (s.tasks task) pc) (s.destroyed id);
      }

  unfoldable pub at_place : ℕ → Pc index_map host → System → System
  at_place task pc s = record s { tasks = update s.tasks task pc }

  -- One move of one task: it takes a request, runs a section of it, or has sent the answer.
  pub data Step (s : System) : System → Type 0 where
    request_step :
        (task : ℕ) (request : Request index_map host)
        → s.tasks task ≡ idle
        → Step s (at_place task (received request) s)
    section_step : (task : ℕ) → Step s (run_section task s)
    answer_step :
        (task : ℕ) (answer : Result GatewayError Response)
        → s.tasks task ≡ answered answer
        → Step s (at_place task idle s)

  pub data Steps (s : System) : System → Type 0 where
    stop : Steps s s
    then_step : {t u : System} → Steps s t → Step t u → Steps s u

  abbrev pub Reachable : History → System → Type 0
  Reachable past s = Steps (start past) s
