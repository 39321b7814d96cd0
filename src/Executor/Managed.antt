-- ===== src/Executor/Managed.antt =====
-- The orchestrator (forge-executor/src/orchestrator.rs) over the Firecracker backend
-- (forge-executor/src/firecracker.rs), and a client that keeps the handles that it is given.
pub mod Exact
pub mod Ended
pub mod Calls
pub mod Tasks
use apeiron.Base.{ℕ, List, [], ◌∷◌, none, some}
use apeiron.Base.Counts.{pick}
use apeiron.Core.Id.{Uuid}
use apeiron.Executor.Config.{VmConfig, SnapshotId, VmHandle}
use apeiron.Executor.Action.{Result, ok}
use apeiron.Executor.Host.{Env, Trace}
use apeiron.Executor.Firecracker.{FirecrackerBackend}
use apeiron.Executor.Firecracker.Instance.{firecracker}
use apeiron.Executor.Firecracker.Ownership.{and_returned}
use apeiron.Executor.Orchestrator.{VmOrchestrator, spawn, snapshot, restore, terminate}

-- What a client asks for; it names a handle by its place among those that it has.
pub data Demand : Type 0 where
  spawn_one : VmConfig → Demand
  restore_one : SnapshotId → Demand
  snapshot_nth : ℕ → Demand
  terminate_nth : ℕ → Demand

-- `lost` are the identifiers of the handles that were given to a terminate which failed.
pub record Client : Type 0 where
  pub handles : List VmHandle
  pub lost : List Uuid
  pub orch : VmOrchestrator Trace

-- What a terminate leaves behind: the identifier, if it failed.
unfoldable pub and_lost : Result (Unit {0}) → Uuid → List Uuid → List Uuid
and_lost (ok u) id ids = ids
and_lost _ id ids = id ∷ ids

module _ (env : Env) (self : FirecrackerBackend) where
  unfoldable pub demand : Demand → Client → Client
  demand (spawn_one config) s =
      let (r, orch) = spawn (firecracker env self) config s.orch in
      record { handles = and_returned r s.handles; lost = s.lost; orch = orch }
  demand (restore_one id) s =
      let (r, orch) = restore (firecracker env self) id s.orch in
      record { handles = and_returned r s.handles; lost = s.lost; orch = orch }
  demand (snapshot_nth n) s = elim (pick n s.handles) [
    | none ↦ s
    | some (handle, rest) ↦
        (let (r, orch) = snapshot (firecracker env self) handle s.orch in
          record { handles = s.handles; lost = s.lost; orch = orch })
  ]
  demand (terminate_nth n) s = elim (pick n s.handles) [
    | none ↦ s
    | some (handle, rest) ↦
        (let (r, orch) = terminate (firecracker env self) handle s.orch in
          record { handles = rest; lost = and_lost r handle.id s.lost; orch = orch })
  ]

  unfoldable pub demand_all : List Demand → Client → Client
  demand_all [] s = s
  demand_all (d ∷ ds) s = demand_all ds (demand d s)
