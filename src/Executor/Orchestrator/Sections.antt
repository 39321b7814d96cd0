-- ===== src/Executor/Orchestrator/Sections.antt =====
-- The methods of forge-executor/src/orchestrator.rs, cut where another task can run: a section is one
-- call of the backend, or one look or change under the lock.
use apeiron.Base.{ℕ, zero, suc, ◌≡◌, List, arith, if◌then◌else◌}
use apeiron.Core.Id.{Uuid}
use apeiron.Std.BTreeSet.{insert, remove, contains}
use apeiron.Executor.ExecutorError.{vm_not_found}
use apeiron.Executor.Config.{VmConfig, SnapshotId, VmHandle}
use apeiron.Executor.Action.{Result, ok, err, panicked}
use apeiron.Executor.Backend.{VmmBackend}
use apeiron.Executor.Orchestrator.{VmOrchestrator, spawn, snapshot, restore, terminate}
use apeiron.Executor.Orchestrator.Registry.{
  Call, spawn_call, snapshot_call, restore_call, terminate_call, after_call,
}

-- What a method returns.
pub data Answer : Type 0 where
  vm : Result VmHandle → Answer
  snapshot_of : Result SnapshotId → Answer
  ended : Result (Unit {0}) → Answer

-- Where a task is in a method: the section that it runs next.
pub data Pc : Type 0 where
  idle : Pc
  spawning : VmConfig → Pc
  restoring : SnapshotId → Pc
  registering : VmHandle → Pc
  snapshot_checking : VmHandle → Pc
  snapshotting : VmHandle → Pc
  terminate_checking : VmHandle → Pc
  terminating : VmHandle → Pc
  unregistering : Uuid → Pc
  returned : Answer → Pc

-- The first section of a method.
unfoldable pub begin : Call → Pc
begin (spawn_call config) = spawning config
begin (snapshot_call handle) = snapshot_checking handle
begin (restore_call id) = restoring id
begin (terminate_call handle) = terminate_checking handle

-- `?` behind the backend's spawn or restore, and behind its terminate.
unfoldable pub brought : Result VmHandle → Pc
brought (ok handle) = registering handle
brought (err e) = returned (vm (err e))
brought panicked = returned (vm panicked)

unfoldable pub stopped : Uuid → Result (Unit {0}) → Pc
stopped id (ok u) = unregistering id
stopped id (err e) = returned (ended (err e))
stopped id panicked = returned (ended panicked)

module _ {S : Type 0} (backend : VmmBackend S) where
  abbrev pub with_set : VmOrchestrator S → List Uuid → VmOrchestrator S
  with_set orch set = record { governed = orch.governed; active_vms = set }

  abbrev pub with_governed : VmOrchestrator S → S → VmOrchestrator S
  with_governed orch s = record { governed = s; active_vms = orch.active_vms }

  -- One section of a method. Those that look at the registry or change it run under its lock, which
  -- Interleaving/Locking takes and gives back.
  unfoldable pub section : Pc → VmOrchestrator S → Pc × VmOrchestrator S
  unfolding brought stopped
  section idle orch = (idle, orch)
  section (spawning config) orch =
      let (r, s) = backend.spawn config orch.governed in (brought r, with_governed orch s)
  section (restoring id) orch =
      let (r, s) = backend.restore id orch.governed in (brought r, with_governed orch s)
  section (registering handle) orch =
      (returned (vm (ok handle)), with_set orch (insert handle.id orch.active_vms))
  section (snapshot_checking handle) orch = (
    if contains handle.id orch.active_vms
        then snapshotting handle
        else returned (snapshot_of (err (vm_not_found handle.id))),
    orch,
  )
  section (snapshotting handle) orch =
      let (r, s) = backend.snapshot handle orch.governed in
      (returned (snapshot_of r), with_governed orch s)
  section (terminate_checking handle) orch =
      if contains handle.id orch.active_vms then (terminating handle, orch) else (
        returned (ended (err (vm_not_found handle.id))),
        with_governed orch (backend.drop_handle handle orch.governed),
      )
  section (terminating handle) orch =
      let (r, s) = backend.terminate handle orch.governed in
      (stopped handle.id r, with_governed orch s)
  section (unregistering id) orch =
      (returned (ended (ok tt)), with_set orch (remove id orch.active_vms))
  section (returned answer) orch = (returned answer, orch)

  -- So many sections, with no other task between them.
  unfoldable pub sections : ℕ → Pc → VmOrchestrator S → Pc × VmOrchestrator S
  unfolding section
  sections zero pc orch = (pc, orch)
  sections (suc n) pc orch = let (pc', orch') = section pc orch in sections n pc' orch'

  -- The answer of a method that runs on its own.
  unfoldable pub answer : Call → VmOrchestrator S → Answer
  answer (spawn_call config) orch = vm (spawn backend config orch).0
  answer (snapshot_call handle) orch = snapshot_of (snapshot backend handle orch).0
  answer (restore_call id) orch = vm (restore backend id orch).0
  answer (terminate_call handle) orch = ended (terminate backend handle orch).0

  -- Run with no other task between its sections, a method returns after at most three of them what it
  -- returns as one action, and leaves the same state.
  sections_alone :
      (call : Call) (orch : VmOrchestrator S)
      → sections 3 (begin call) orch ≡ (returned (answer call orch), after_call backend call orch)
  unfolding begin sections section answer after_call spawn snapshot restore terminate brought
      stopped
  sections_alone (spawn_call config) orch = ground arith
  sections_alone (snapshot_call handle) orch = ground arith
  sections_alone (restore_call id) orch = ground arith
  sections_alone (terminate_call handle) orch = ground arith
