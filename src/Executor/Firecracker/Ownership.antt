-- ===== src/Executor/Firecracker/Ownership.antt =====
-- A holder of VM handles (forge-executor/src/firecracker.rs, handle.rs) and the processes that were
-- started and not dropped.
use apeiron.Base.{
  ◌≡◌, ◌∙◌, refl, ap, Bool-cases, inl, inr, List, [], ◌∷◌, ◌==◌, if◌then◌else◌, Text,
}
use apeiron.Executor.Config.{Pid, VmConfig, VmHandle, SnapshotId}
use apeiron.Executor.Action.{Result, ok, err, panicked}
use apeiron.Executor.Host.{Env, Trace}
use apeiron.Executor.Firecracker.Execute.{execute_command}
use apeiron.Core.Execution.{Duration}
use apeiron.Executor.Firecracker.Snapshot.{snapshot}
use apeiron.Executor.Firecracker.{FirecrackerBackend}
use apeiron.Executor.Firecracker.Lifecycle.{spawn, restore, terminate, health_check}
use apeiron.Executor.Firecracker.Processes.{without, undropped}
use apeiron.Executor.Firecracker.Handles.{
  owned, spawn-Owns, restore-Owns, execute_command-undropped, terminate-undropped,
  snapshot-undropped, health_check-undropped,
}

-- What a holder of handles may do.
pub data Use : Type 0 where
  start_vm : VmConfig → Use
  restore_vm : SnapshotId → Use
  run_in_vm : VmConfig → Text → Duration → Use
  snapshot_vm : VmHandle → Use
  terminate_vm : VmHandle → Use
  check_health : Use

unfoldable pub processes : List VmHandle → List Pid
processes [] = []
processes (h ∷ hs) = h.process ∷ processes hs

-- The handles without the one that is given away.
unfoldable pub give_away : VmHandle → List VmHandle → List VmHandle
give_away h [] = []
give_away h (h' ∷ hs) = if h.process == h'.process then hs else h' ∷ give_away h hs

-- The handles with the one that was returned.
unfoldable pub and_returned : Result VmHandle → List VmHandle → List VmHandle
and_returned (ok h) hs = h ∷ hs
and_returned (err e) hs = hs
and_returned panicked hs = hs

-- The handles that are held, and the trace, after a use of the backend.
module _ (env : Env) (self : FirecrackerBackend) where
  unfoldable pub use_backend : Use → List VmHandle × Trace → List VmHandle × Trace
  use_backend (start_vm config) (hs, t) =
      let (r, t') = spawn env self config t in (and_returned r hs, t')
  use_backend (restore_vm id) (hs, t) =
      let (r, t') = restore env self id t in (and_returned r hs, t')
  use_backend (run_in_vm config command timeout) (hs, t) =
      (hs, (execute_command env self config command timeout t).1)
  use_backend (snapshot_vm handle) (hs, t) = (hs, (snapshot env self handle t).1)
  use_backend (terminate_vm handle) (hs, t) = (give_away handle hs, (terminate env self handle t).1)
  use_backend check_health (hs, t) = (hs, (health_check env self t).1)

  unfoldable pub use_all : List Use → List VmHandle × Trace → List VmHandle × Trace
  use_all [] s = s
  use_all (u ∷ us) s = use_all us (use_backend u s)

owned_returned :
    (r : Result VmHandle) (hs : List VmHandle)
    → owned r (processes hs) ≡ processes (and_returned r hs)
unfolding owned processes and_returned
owned_returned (ok h) hs = refl
owned_returned (err e) hs = refl
owned_returned panicked hs = refl

without_given :
    (h : VmHandle) (hs : List VmHandle)
    → without h.process (processes hs) ≡ processes (give_away h hs)
unfolding without processes give_away
without_given h [] = refl
without_given h (h' ∷ hs) = elim (Bool-cases (h.process == h'.process)) [
  | inl e ↦ rw e refl
  | inr e ↦ rw e (ap (λ qs. h'.process ∷ qs) (without_given h hs))
]

module _ (env : Env) (self : FirecrackerBackend) where
  use_backend-processes :
      (u : Use) (hs : List VmHandle) (t : Trace)
      → undropped t ≡ processes hs
      → let s = use_backend env self u (hs, t) in undropped s.1 ≡ processes s.0
  unfolding use_backend
  use_backend-processes (start_vm config) hs t e =
      let r = (spawn env self config t).0 in
      (spawn-Owns env self config).at t ∙ ap (owned r) e ∙ owned_returned r hs
  use_backend-processes (restore_vm id) hs t e =
      let r = (restore env self id t).0 in
      (restore-Owns env self id).at t ∙ ap (owned r) e ∙ owned_returned r hs
  use_backend-processes (run_in_vm config command timeout) hs t e =
      (execute_command-undropped env self config command timeout).at t ∙ e
  use_backend-processes (snapshot_vm handle) hs t e = (snapshot-undropped env self handle).at t ∙ e
  use_backend-processes (terminate_vm handle) hs t e =
      terminate-undropped env self handle t
      ∙ ap (without handle.process) e
      ∙ without_given handle hs
  use_backend-processes check_health hs t e = (health_check-undropped env self).at t ∙ e

  -- A process is kept when it was started and its handle was not dropped; one that is kept may have ended
  -- by itself. If the kept processes are those of the handles that are held, they are so after any uses
  -- of the backend, whatever the outside answers. A handle that `spawn` or `restore` returns is held
  -- from then on, one that was given to `terminate` no longer, whether or not it succeeds.
  pub use_all-processes :
      (us : List Use) (hs : List VmHandle) (t : Trace)
      → undropped t ≡ processes hs
      → let s = use_all env self us (hs, t) in undropped s.1 ≡ processes s.0
  unfolding use_all
  use_all-processes [] hs t e = e
  use_all-processes (u ∷ us) hs t e =
      let s = use_backend env self u (hs, t) in
      use_all-processes us s.0 s.1 (use_backend-processes u hs t e)
