-- ===== src/Executor/Orchestrator.antt =====
-- forge-executor/src/orchestrator.rs. The backend is the parameter; `S` is its state. The registry is
-- the set behind the mutex; a method takes the lock for one look or one change at a time.
pub mod Registry
pub mod Sections
pub mod Interleaving
use apeiron.Base.{ℕ, Bool, List, [], if◌then◌else◌, length}
use apeiron.Core.Id.{Uuid}
use apeiron.Std.BTreeSet.{insert, remove, contains}
use apeiron.Executor.ExecutorError.{vm_not_found}
use apeiron.Executor.Config.{VmConfig, SnapshotId, VmHandle}
use apeiron.Executor.Action.{Result, ok, err, Action, pure, fail, ◌>>=◌, ◌>>◌}
use apeiron.Executor.Backend.{VmmBackend}

pub record VmOrchestrator (S : Type 0) : Type 0 where
  pub governed : S
  pub active_vms : List Uuid

-- `VmOrchestrator::new`
unfoldable pub new : {S : Type 0} → S → VmOrchestrator S
new s = record { governed = s; active_vms = [] }

-- `active_count`
unfoldable pub active_count : {S : Type 0} → VmOrchestrator S → ℕ
active_count orch = length orch.active_vms

-- A call of the backend.
abbrev pub on_backend : {S A : Type 0} → Action S A → Action (VmOrchestrator S) A
on_backend m orch =
    let (r, s) = m orch.governed in (r, record { governed = s; active_vms = orch.active_vms })

-- `self.active_vms.lock().await`, to look and to change.
abbrev pub is_active : {S : Type 0} → Uuid → Action (VmOrchestrator S) Bool
is_active id orch = (ok (contains id orch.active_vms), orch)

abbrev pub register : {S : Type 0} → Uuid → Action (VmOrchestrator S) (Unit {0})
register id orch =
    (ok tt, record { governed = orch.governed; active_vms = insert id orch.active_vms })

abbrev pub unregister : {S : Type 0} → Uuid → Action (VmOrchestrator S) (Unit {0})
unregister id orch =
    (ok tt, record { governed = orch.governed; active_vms = remove id orch.active_vms })

module _ {S : Type 0} (backend : VmmBackend S) where
  unfoldable pub spawn : VmConfig → Action (VmOrchestrator S) VmHandle
  spawn config = do handle ← on_backend (backend.spawn config); register handle.id; pure handle

  unfoldable pub snapshot : VmHandle → Action (VmOrchestrator S) SnapshotId
  snapshot handle = do
    known ← is_active handle.id
    if known then on_backend (backend.snapshot handle) else fail (vm_not_found handle.id)

  unfoldable pub restore : SnapshotId → Action (VmOrchestrator S) VmHandle
  restore snapshot_id = do
    handle ← on_backend (backend.restore snapshot_id)
    register handle.id
    pure handle

  -- A handle that is refused is dropped.
  unfoldable pub terminate : VmHandle → Action (VmOrchestrator S) (Unit {0})
  terminate handle = do
    known ← is_active handle.id
    let call : Action (VmOrchestrator S) (Unit {0}) = do
      on_backend (backend.terminate handle)
      unregister handle.id
    let refuse : Action (VmOrchestrator S) (Unit {0}) = do
      on_backend (λ s. (ok tt, backend.drop_handle handle s))
      fail (vm_not_found handle.id)
    if known then call else refuse
