-- ===== src/Executor/Orchestrator/Registry.antt =====
-- The registry follows the backend: what each method does to it, on every branch.
use apeiron.Base.{◌+◌, ◌≡◌, refl, Bool, true, false, not, ◌&&◌, ◌||◌, arith, ◌==◌, List, [], ◌∷◌}
use apeiron.Core.Id.{Uuid}
use apeiron.Std.BTreeSet.{
  contains, IsAscending, contains-insert, contains-remove, insert-IsAscending, remove-IsAscending,
  length-insert, length-remove,
}
use apeiron.Executor.ExecutorError.{vm_not_found}
use apeiron.Executor.Config.{VmConfig, SnapshotId, VmHandle}
use apeiron.Executor.Action.{Result, ok, err, panicked, pure, continue, ◌>>◌}
use apeiron.Executor.Backend.{VmmBackend}
use apeiron.Executor.Orchestrator.{
  VmOrchestrator, register, new, active_count, spawn, snapshot, restore, terminate,
}

-- A call of the orchestrator, as a client makes it.
pub data Call : Type 0 where
  spawn_call : VmConfig → Call
  snapshot_call : VmHandle → Call
  restore_call : SnapshotId → Call
  terminate_call : VmHandle → Call

module _ {S : Type 0} (backend : VmmBackend S) where
  -- The state that a call leaves, whatever its result.
  unfoldable pub after_call : Call → VmOrchestrator S → VmOrchestrator S
  after_call (spawn_call config) orch = (spawn backend config orch).1
  after_call (snapshot_call handle) orch = (snapshot backend handle orch).1
  after_call (restore_call id) orch = (restore backend id orch).1
  after_call (terminate_call handle) orch = (terminate backend handle orch).1

  -- The registry that a call should leave, as a test of membership: a handle that the backend returns
  -- is added, a handle that the backend has terminated is taken away, and nothing else changes.
  unfoldable pub added : Result VmHandle → Uuid → Bool
  added (ok handle) id = id == handle.id
  added _ id = false

  unfoldable pub succeeded : Result (Unit {0}) → Bool
  succeeded (ok u) = true
  succeeded _ = false

  unfoldable pub expected : Call → VmOrchestrator S → Uuid → Bool
  unfolding added succeeded
  expected (spawn_call config) orch id =
      added (backend.spawn config orch.governed).0 id || contains id orch.active_vms
  expected (snapshot_call handle) orch id = contains id orch.active_vms
  expected (restore_call snapshot_id) orch id =
      added (backend.restore snapshot_id orch.governed).0 id || contains id orch.active_vms
  expected (terminate_call handle) orch id =
      not (
        id == handle.id
        && contains handle.id orch.active_vms
        && succeeded (backend.terminate handle orch.governed).0)
      && contains id orch.active_vms

  -- A handle that comes back is registered.
  registered :
      (r : Result VmHandle) (orch : VmOrchestrator S) (id : Uuid)
      → contains id (continue r (λ handle. register handle.id >> pure handle) orch).1.active_vms
        ≡ (added r id || contains id orch.active_vms)
  unfolding added
  registered (ok handle) orch id = contains-insert id handle.id orch.active_vms
  registered (err e) orch id = refl
  registered panicked orch id = refl

  registered-IsAscending :
      (r : Result VmHandle) (orch : VmOrchestrator S)
      → IsAscending orch.active_vms
      → IsAscending (continue r (λ handle. register handle.id >> pure handle) orch).1.active_vms
  registered-IsAscending (ok handle) orch h = insert-IsAscending handle.id orch.active_vms h
  registered-IsAscending (err e) orch h = h
  registered-IsAscending panicked orch h = h

  -- From an ascending registry, a call leaves exactly the expected members.
  pub after_call-expected :
      (call : Call) (orch : VmOrchestrator S) (id : Uuid)
      → IsAscending orch.active_vms
      → contains id (after_call call orch).active_vms ≡ expected call orch id
  unfolding after_call expected spawn snapshot restore terminate
  after_call-expected (spawn_call config) orch id h =
      let (r, s) = backend.spawn config orch.governed in
      registered r (record { governed = s; active_vms = orch.active_vms }) id
  after_call-expected (snapshot_call handle) orch id h = ground arith
  after_call-expected (restore_call snapshot_id) orch id h =
      let (r, s) = backend.restore snapshot_id orch.governed in
      registered r (record { governed = s; active_vms = orch.active_vms }) id
  after_call-expected (terminate_call handle) orch id h =
      ground (arith, contains-remove id handle.id orch.active_vms h)

  after_call-IsAscending :
      (call : Call) (orch : VmOrchestrator S)
      → IsAscending orch.active_vms
      → IsAscending (after_call call orch).active_vms
  unfolding after_call spawn snapshot restore terminate
  after_call-IsAscending (spawn_call config) orch h =
      let (r, s) = backend.spawn config orch.governed in
      registered-IsAscending r (record { governed = s; active_vms = orch.active_vms }) h
  after_call-IsAscending (snapshot_call handle) orch h = ground arith
  after_call-IsAscending (restore_call snapshot_id) orch h =
      let (r, s) = backend.restore snapshot_id orch.governed in
      registered-IsAscending r (record { governed = s; active_vms = orch.active_vms }) h
  after_call-IsAscending (terminate_call handle) orch h =
      ground (arith, remove-IsAscending handle.id orch.active_vms h)

  unfoldable pub after_calls : List Call → VmOrchestrator S → VmOrchestrator S
  after_calls [] orch = orch
  after_calls (call ∷ calls) orch = after_calls calls (after_call call orch)

  after_calls-IsAscending :
      (calls : List Call) (orch : VmOrchestrator S)
      → IsAscending orch.active_vms
      → IsAscending (after_calls calls orch).active_vms
  unfolding after_calls
  after_calls-IsAscending [] orch h = h
  after_calls-IsAscending (call ∷ calls) orch h =
      after_calls-IsAscending calls (after_call call orch) (after_call-IsAscending call orch h)

  -- After any calls on a new orchestrator, one more call leaves exactly the expected members in
  -- the registry, whatever the backend does: a handle that the backend returns is added, a
  -- registered one that the backend terminated is taken away, and nothing else changes.
  pub after_calls-expected :
      (calls : List Call) (call : Call) (s : S) (id : Uuid)
      → contains id (after_call call (after_calls calls (new s))).active_vms
        ≡ expected call (after_calls calls (new s)) id
  after_calls-expected calls call s id =
      after_call-expected call (after_calls calls (new s)) id
        (after_calls-IsAscending calls (new s) (unfold new in tt))

  -- A VM that is not registered is neither snapshotted nor terminated: the call fails, with its
  -- identifier in the error, and the backend is not called. A refused terminate drops its handle.
  unknown_vm_lem :
      (handle : VmHandle) (orch : VmOrchestrator S)
      → contains handle.id orch.active_vms ≡ false
      → (snapshot backend handle orch ≡ (err (vm_not_found handle.id), orch))
        × (terminate backend handle orch ≡ (
          err (vm_not_found handle.id),
          record {
            governed = backend.drop_handle handle orch.governed;
            active_vms = orch.active_vms;
          },
        ))
  unfolding snapshot terminate
  unknown_vm_lem handle orch h = (rw h, rw h)

  -- With a registry in ascending order, a successful spawn of a VM whose identifier is not
  -- registered raises the count by one.
  active_count-spawn :
      (config : VmConfig) (orch orch' : VmOrchestrator S) (handle : VmHandle)
      → IsAscending orch.active_vms
      → spawn backend config orch ≡ (ok handle, orch')
      → contains handle.id orch.active_vms ≡ false
      → active_count orch' ≡ active_count orch + 1
  unfolding spawn active_count
  active_count-spawn config orch orch' handle h e new_id =
      ground (arith, length-insert handle.id orch.active_vms h)

  -- A successful terminate lowers the count by one.
  active_count-terminate :
      (handle : VmHandle) (orch orch' : VmOrchestrator S)
      → terminate backend handle orch ≡ (ok tt, orch')
      → active_count orch' + 1 ≡ active_count orch
  unfolding terminate active_count
  active_count-terminate handle orch orch' e =
      ground (arith, length-remove handle.id orch.active_vms)
