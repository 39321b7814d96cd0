-- ===== src/Executor/Managed/Tasks.antt =====
-- Tasks that share an orchestrator over the Firecracker backend (forge-executor/src/orchestrator.rs,
-- firecracker.rs).
use apeiron.Base.{ℕ, ◌≡◌, ◌≢◌, ◌||◌, some}
use apeiron.Core.Id.{Uuid}
use apeiron.Std.BTreeSet.{contains}
use apeiron.Executor.Host.{Env, Trace}
use apeiron.Executor.Firecracker.{FirecrackerBackend}
use apeiron.Executor.Firecracker.Instance.{firecracker}
use apeiron.Executor.Orchestrator.Sections.{Pc, idle, section}
use apeiron.Executor.Orchestrator.Interleaving.{System, role, owner, away}
use apeiron.Executor.Orchestrator.Interleaving.Safety.{past_check}

-- What the tasks may rely on in a state of theirs.
pub record InOrder (env : Env) (self : FirecrackerBackend) (s : System Trace) : Type 0 where
  pub accepted :
      (task : ℕ) (pc : Pc)
      → past_check (s.tasks task) ≡ some pc
      → section (firecracker env self) (s.tasks task) s.orch ≡ (pc, s.orch)
  pub alone :
      (task other : ℕ) (id : Uuid)
      → role id (s.tasks task) ≡ owner
      → other ≢ task
      → role id (s.tasks other) ≡ away
  pub registry :
      (id : Uuid)
      → ((task : ℕ) → s.tasks task ≡ idle)
      → contains id s.orch.active_vms ≡ (s.held id || s.stranded id)
