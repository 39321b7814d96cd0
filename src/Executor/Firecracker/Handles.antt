-- ===== src/Executor/Firecracker/Handles.antt =====
-- Who owns a Firecracker process (forge-executor/src/firecracker.rs): a method that returns a handle
-- leaves one process more, the handle's, and every other method leaves the processes as they were.
use apeiron.Base.{◌≡◌, ◌∙◌, refl, ap, sym, List, ◌∷◌, Text}
use apeiron.Core.Id.{Uuid}
use apeiron.Base.Outcome.{Outcome}
use apeiron.Std.FilePath.{PathBuf}
use apeiron.Action.Rules.{Keeps, Gives, Gives-bind, Gives-pure, Holds}
use apeiron.Executor.ExecutorError.{ExecutorError, IoError}
use apeiron.Executor.Config.{Pid, VmConfig, VmHandle, SnapshotId, new_vm_handle}
use apeiron.Executor.Action.{Result, ok, err, panicked, Action, continue, ◌>>=◌, ◌>>◌}
use apeiron.Executor.Host.{
  Env, Json, Trace, Answer, done, failed, emit, ask, or_io, holding, scoped, start, began,
  drop_on_error, started, remove_file, killed,
}
use apeiron.Executor.Firecracker.Execute.{boot_and_read, execute_command}
use apeiron.Core.Execution.{Duration}
use apeiron.Executor.Firecracker.Snapshot.{pause, create, resume, snapshot}
use apeiron.Executor.Firecracker.{FirecrackerBackend}
use apeiron.Executor.Firecracker.Lifecycle.{
  bring_up, load_up, spawn, restore, terminate, health_check,
}
use apeiron.Executor.Firecracker.Processes.{without, without_first, undropped, step_rules}

-- The process of a handle that is returned.
unfoldable pub owned : Result VmHandle → List Pid → List Pid
owned (ok handle) ps = handle.process ∷ ps
owned (err e) ps = ps
owned panicked ps = ps

pub record Owns (m : Action Trace VmHandle) : Type 0 where
  pub at : (t : Trace) → undropped (m t).1 ≡ owned (m t).0 (undropped t)

continue-Owns :
    {A : Type 0} (r : Result A) (f : A → Action Trace VmHandle) (t : Trace) (ps : List Pid)
    → undropped t ≡ ps
    → ((a : A) → Owns (f a))
    → undropped (continue r f t).1 ≡ owned (continue r f t).0 ps
unfolding owned
continue-Owns (ok a) f t ps e kf = (kf a).at t ∙ ap (owned (f a t).0) e
continue-Owns (err x) f t ps e kf = e
continue-Owns panicked f t ps e kf = e

Owns-bind :
    {A : Type 0} (m : Action Trace A) (f : A → Action Trace VmHandle)
    → Keeps undropped m
    → ((a : A) → Owns (f a))
    → Owns (m >>= f)
Owns-bind m f km kf = record {
  at = λ t. continue-Owns (m t).0 f (m t).1 (undropped t) (km.at t) kf;
}

IsFor : Pid → VmHandle → Type 0
IsFor pid handle = handle.process ≡ pid

drop_on_error-owned :
    (pid : Pid) (r : Result VmHandle) (t : Trace) (ps : List Pid)
    → Holds (IsFor pid) r
    → undropped t ≡ pid ∷ ps
    → undropped (drop_on_error pid (r, t)).1 ≡ owned (drop_on_error pid (r, t)).0 ps
unfolding owned undropped IsFor
drop_on_error-owned pid (ok h) t ps e f = f ∙ ap (λ p. p ∷ ps) (sym e)
drop_on_error-owned pid (err x) t ps e f = ap (without pid) f ∙ without_first pid ps
drop_on_error-owned pid panicked t ps e f = ap (without pid) f ∙ without_first pid ps

began-Owns :
    (binary socket : PathBuf) (f : IoError → ExecutorError) (answer : Answer Pid)
    (m : Pid → Action Trace VmHandle) (t : Trace)
    → ((pid : Pid) → Keeps undropped (m pid))
    → ((pid : Pid) → Gives (IsFor pid) (m pid))
    → let r = (began binary socket f answer >>= λ pid. holding pid (m pid)) t in
      undropped r.1 ≡ owned r.0 (undropped t)
unfolding owned undropped
began-Owns binary socket f (done pid) m t k g =
    let t' = started pid binary socket ∷ t in
    drop_on_error-owned pid (m pid t').0 (m pid t').1 (undropped t) ((g pid).at t') ((k pid).at t')
began-Owns binary socket f (failed e) m t k g = refl

Owns-start :
    (env : Env) (binary socket : PathBuf) (f : IoError → ExecutorError)
    (m : Pid → Action Trace VmHandle)
    → ((pid : Pid) → Keeps undropped (m pid))
    → ((pid : Pid) → Gives (IsFor pid) (m pid))
    → Owns (start env binary socket f >>= λ pid. holding pid (m pid))
Owns-start env binary socket f m k g = record {
  at = λ t. began-Owns binary socket f (env.spawn t binary socket) m t k g;
}

module _ (env : Env) (socket : PathBuf) (pid : Pid) where
  bring_up-undropped :
      (config : VmConfig) (vm_id : Uuid) → Keeps undropped (bring_up env config vm_id socket pid)
  unfolding bring_up
  bring_up-undropped config vm_id = search step_rules depth 30

  bring_up-IsFor :
      (config : VmConfig) (vm_id : Uuid) → Gives (IsFor pid) (bring_up env config vm_id socket pid)
  unfolding bring_up new_vm_handle IsFor
  bring_up-IsFor config vm_id = search (Gives-bind, Gives-pure) depth 30

  load_up-undropped :
      (id : SnapshotId) (body : Outcome Json) (vm_id : Uuid)
      → Keeps undropped (load_up env id body vm_id socket pid)
  unfolding load_up
  load_up-undropped id body vm_id = search step_rules depth 30

  load_up-IsFor :
      (id : SnapshotId) (body : Outcome Json) (vm_id : Uuid)
      → Gives (IsFor pid) (load_up env id body vm_id socket pid)
  unfolding load_up new_vm_handle IsFor
  load_up-IsFor id body vm_id = search (Gives-bind, Gives-pure) depth 30

ruleset owns_rules = (
  Owns-bind, Owns-start, step_rules, bring_up-undropped, bring_up-IsFor, load_up-undropped,
  load_up-IsFor,
)

boot_and_read-undropped :
    (env : Env) (config : VmConfig) (socket : PathBuf) (timeout : Duration) (pid : Pid)
    → Keeps undropped (boot_and_read env config socket timeout pid)
unfolding boot_and_read
boot_and_read-undropped env config socket timeout pid = search step_rules depth 40

scoped-undropped :
    {A : Type 0} (binary socket : PathBuf) (f : IoError → ExecutorError) (answer : Answer Pid)
    (m : Pid → Action Trace A) (t : Trace)
    → ((pid : Pid) → Keeps undropped (m pid))
    → undropped ((began binary socket f answer >>= λ pid. scoped pid (m pid)) t).1 ≡ undropped t
unfolding undropped
scoped-undropped binary socket f (done pid) m t k =
    ap (without pid) ((k pid).at (started pid binary socket ∷ t)) ∙ without_first pid (undropped t)
scoped-undropped binary socket f (failed e) m t k = refl

Keeps-start :
    {A : Type 0} (env : Env) (binary socket : PathBuf) (f : IoError → ExecutorError)
    (m : Pid → Action Trace A)
    → ((pid : Pid) → Keeps undropped (m pid))
    → Keeps undropped (start env binary socket f >>= λ pid. scoped pid (m pid))
Keeps-start env binary socket f m k = record {
  at = λ t. scoped-undropped binary socket f (env.spawn t binary socket) m t k;
}

module _ (env : Env) (self : FirecrackerBackend) where
  pub spawn-Owns : (config : VmConfig) → Owns (spawn env self config)
  unfolding spawn
  spawn-Owns config = search owns_rules depth 60

  pub restore-Owns : (id : SnapshotId) → Owns (restore env self id)
  unfolding restore
  restore-Owns id = search owns_rules depth 60

  pub execute_command-undropped :
      (config : VmConfig) (command : Text) (timeout : Duration)
      → Keeps undropped (execute_command env self config command timeout)
  unfolding execute_command
  execute_command-undropped config command timeout =
      search (Keeps-start, boot_and_read-undropped, step_rules) depth 60

  pub snapshot-undropped : (handle : VmHandle) → Keeps undropped (snapshot env self handle)
  unfolding snapshot pause create resume
  snapshot-undropped handle = search step_rules depth 60

  pub health_check-undropped : Keeps undropped (health_check env self)
  unfolding health_check
  health_check-undropped = search step_rules depth 60

  pub terminate-undropped :
      (handle : VmHandle) (t : Trace)
      → undropped (terminate env self handle t).1 ≡ without handle.process (undropped t)
  unfolding terminate undropped
  terminate-undropped handle t = ap (without handle.process) (ended.at t)
    where
      ended : Keeps undropped do
        answer ← ask (λ t. env.kill t handle.process)
        or_io answer
        emit (killed handle.process)
        emit (remove_file handle.socket_path)
      ended = search step_rules depth 30
