-- ===== src/Executor/Orchestrator/Interleaving.antt =====
-- Tasks that share one orchestrator (forge-executor/src/orchestrator.rs) and run its methods section by
-- section, in any order. A handle is owned by the client that got it: a snapshot borrows it, a
-- terminate takes it, as `&VmHandle` and `VmHandle` say.
pub mod Phase
pub mod Updates
pub mod Moves
pub mod Calls
pub mod Life
pub mod Safety
pub mod Locking
use apeiron.Base.Families.{update}
use apeiron.Base.{
  ℕ, suc, ◌≡◌, ◌≢◌, List, [], Bool, true, false, not, ◌&&◌, ◌||◌, ◌==◌, if◌then◌else◌,
}
use apeiron.Core.Id.{Uuid}
use apeiron.Executor.Config.{VmConfig, SnapshotId, VmHandle}
use apeiron.Executor.Action.{ok, err, panicked}
use apeiron.Executor.Backend.{VmmBackend}
use apeiron.Executor.Orchestrator.{VmOrchestrator, new}
use apeiron.Executor.Orchestrator.Registry.{
  Call, spawn_call, snapshot_call, restore_call, terminate_call,
}
use apeiron.Executor.Orchestrator.Sections.{
  Answer, vm, snapshot_of, ended, Pc, idle, spawning, restoring, registering, snapshot_checking,
  snapshotting, terminate_checking, terminating, unregistering, returned, begin, section,
}

-- The handle of this VM in a task: not there, borrowed, or owned, before and after the VM is registered.
pub data Role : Type 0 where
  away borrower newborn owner : Role

unfoldable pub role : Uuid → Pc → Role
role id (registering handle) = if id == handle.id then newborn else away
role id (snapshot_checking handle) = if id == handle.id then borrower else away
role id (snapshotting handle) = if id == handle.id then borrower else away
role id (terminate_checking handle) = if id == handle.id then owner else away
role id (terminating handle) = if id == handle.id then owner else away
role id (unregistering vm_id) = if id == vm_id then owner else away
role id (returned (vm (ok handle))) = if id == handle.id then owner else away
role id _ = away

-- Whether this section was a terminate of this VM that the backend did not carry out.
unfoldable pub failed_stop : Uuid → Pc → Pc → Bool
failed_stop id (terminating handle) (returned answer) = id == handle.id
failed_stop id _ _ = false

-- `held` says whose handles the clients hold, and `stranded` which VMs the backend failed to terminate.
pub record System (S : Type 0) : Type 0 where
  pub orch : VmOrchestrator S
  pub tasks : ℕ → Pc
  pub held : Uuid → Bool
  pub stranded : Uuid → Bool

unfoldable pub start : {S : Type 0} → S → System S
unfolding new
start s = record { orch = new s; tasks = λ task. idle; held = λ id. false; stranded = λ id. false }

-- Who may make a call, and what it takes: nothing, a borrow of a held handle, or the handle itself, when
-- no task borrows it.
unfoldable pub Allowed : {S : Type 0} → Call → System S → Type 0
unfolding role
Allowed (spawn_call config) s = Unit
Allowed (restore_call id) s = Unit
Allowed (snapshot_call handle) s = s.held handle.id ≡ true
Allowed (terminate_call handle) s =
    (s.held handle.id ≡ true) × ((task : ℕ) → role handle.id (s.tasks task) ≢ borrower)

unfoldable pub taken : Call → Uuid → Bool
taken (terminate_call handle) id = id == handle.id
taken _ id = false

-- The handle that an answer gives.
unfoldable pub given : Answer → Uuid → Bool
given (vm (ok handle)) id = id == handle.id
given _ id = false

module _ {S : Type 0} (backend : VmmBackend S) where
  unfoldable pub call_from : ℕ → Call → System S → System S
  unfolding begin taken
  call_from task call s = record {
    orch = s.orch;
    tasks = update s.tasks task (begin call);
    held = λ id. not (taken call id) && s.held id;
    stranded = s.stranded;
  }

  unfoldable pub run_section : ℕ → System S → System S
  unfolding section failed_stop
  run_section task s =
      let (pc, orch) = section backend (s.tasks task) s.orch in
      record {
        orch = orch;
        tasks = update s.tasks task pc;
        held = s.held;
        stranded = λ id. failed_stop id (s.tasks task) pc || s.stranded id;
      }

  unfoldable pub take_answer : ℕ → Answer → System S → System S
  unfolding given
  take_answer task answer s = record {
    orch = s.orch;
    tasks = update s.tasks task idle;
    held = λ id. given answer id || s.held id;
    stranded = s.stranded;
  }

  -- One move of one task.
  pub data Step (s : System S) : System S → Type 0 where
    call_step :
        (task : ℕ) (call : Call)
        → s.tasks task ≡ idle
        → Allowed call s
        → Step s (call_from task call s)
    section_step : (task : ℕ) → Step s (run_section task s)
    answer_step :
        (task : ℕ) (answer : Answer)
        → s.tasks task ≡ returned answer
        → Step s (take_answer task answer s)

  pub data Reachable (first : S) : System S → Type 0 where
    at_start : Reachable first (start first)
    after_step : {s t : System S} → Reachable first s → Step s t → Reachable first t

-- A backend whose spawn and restore never give an identifier twice: `used` says which were given.
pub record FreshIds {S : Type 0} (backend : VmmBackend S) : Type 0 where
  pub used : S → Uuid → Bool
  pub spawn_new :
      (config : VmConfig) (s t : S) (handle : VmHandle)
      → backend.spawn config s ≡ (ok handle, t)
      → (used s handle.id ≡ false) × (used t handle.id ≡ true)
  pub restore_new :
      (id : SnapshotId) (s t : S) (handle : VmHandle)
      → backend.restore id s ≡ (ok handle, t)
      → (used s handle.id ≡ false) × (used t handle.id ≡ true)
  pub spawn_keeps :
      (config : VmConfig) (s : S) (id : Uuid)
      → used s id ≡ true
      → used (backend.spawn config s).1 id ≡ true
  pub restore_keeps :
      (snapshot_id : SnapshotId) (s : S) (id : Uuid)
      → used s id ≡ true
      → used (backend.restore snapshot_id s).1 id ≡ true
  pub snapshot_keeps :
      (handle : VmHandle) (s : S) (id : Uuid)
      → used s id ≡ true
      → used (backend.snapshot handle s).1 id ≡ true
  pub terminate_keeps :
      (handle : VmHandle) (s : S) (id : Uuid)
      → used s id ≡ true
      → used (backend.terminate handle s).1 id ≡ true
  pub drop_keeps :
      (handle : VmHandle) (s : S) (id : Uuid)
      → used s id ≡ true
      → used (backend.drop_handle handle s) id ≡ true
