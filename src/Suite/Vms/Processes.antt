-- ===== src/Suite/Vms/Processes.antt =====
-- The integration tests of forge-executor/tests/firecracker_lifecycle.rs drop every process that they
-- start.
use apeiron.Base.{ℕ, ◌≡◌, ◌∙◌, refl, ap, Bool, true, false, List, sym}
use apeiron.Std.FilePath.{PathBuf}
use apeiron.Action.Rules.{Keeps, keeps_rules, continue-Keeps}
use apeiron.Executor.Config.{Pid, VmHandle}
use apeiron.Executor.Action.{Result, ok, err, panicked, Action, continue, ◌>>=◌}
use apeiron.Executor.Host.{Env, Trace, emit, sleep, holding, drop_on_error}
use apeiron.Executor.Firecracker.{FirecrackerBackend}
use apeiron.Executor.Firecracker.Lifecycle.{terminate}
use apeiron.Executor.Firecracker.Processes.{undropped, without, without_first, step_rules}
use apeiron.Executor.Firecracker.Handles.{
  Owns, owned, spawn-Owns, restore-Owns, snapshot-undropped, terminate-undropped,
}
use apeiron.Executor.Runner.Determinism.{expect, no_error}
use apeiron.Suite.Vms.{
  assert, assert_exists, spawn_vm_starts_and_responds, snapshot_creates_recoverable_state,
  restore_from_snapshot_succeeds,
}

-- `m` ends this process, and leaves the others as they are.
record Ends {A : Type 0} (pid : Pid) (m : Action Trace A) : Type 0 where
  at : (t : Trace) → undropped (m t).1 ≡ without pid (undropped t)

Keeps-expect : {A : Type 0} (m : Action Trace A) → Keeps undropped m → Keeps undropped (expect m)
unfolding expect
Keeps-expect m k = record { at = λ t. k.at t }

Ends-expect : {A : Type 0} (pid : Pid) (m : Action Trace A) → Ends pid m → Ends pid (expect m)
unfolding expect
Ends-expect pid m k = record { at = λ t. k.at t }

owned-no_error : (r : Result VmHandle) (ps : List Pid) → owned (no_error r) ps ≡ owned r ps
unfolding owned no_error
owned-no_error (ok h) ps = refl
owned-no_error (err e) ps = refl
owned-no_error panicked ps = refl

Owns-expect : (m : Action Trace VmHandle) → Owns m → Owns (expect m)
unfolding expect
Owns-expect m k = record { at = λ t. k.at t ∙ sym (owned-no_error (m t).0 (undropped t)) }

Keeps-assert : (holds : Bool) → Keeps undropped (assert holds)
unfolding assert
Keeps-assert true = record { at = λ t. refl }
Keeps-assert false = record { at = λ t. refl }

Keeps-assert_exists : (env : Env) (path : PathBuf) → Keeps undropped (assert_exists env path)
unfolding assert_exists
Keeps-assert_exists env path = search (step_rules, Keeps-assert)

Keeps-sleep : (ms : ℕ) → Keeps undropped (emit (sleep ms))
unfolding undropped
Keeps-sleep ms = record { at = λ t. refl }

Ends-terminate :
    (env : Env) (self : FirecrackerBackend) (handle : VmHandle)
    → Ends handle.process (terminate env self handle)
Ends-terminate env self handle = record { at = terminate-undropped env self handle }

-- A step under a handle, and then what ends its process.
held_step :
    {A B : Type 0} (pid : Pid) (r : Result A) (t : Trace) (n : A → Action Trace B)
    → ((a : A) → Ends pid (n a))
    → let (r', t') = drop_on_error pid (r, t) in
      undropped (continue r' n t').1 ≡ without pid (undropped t)
unfolding undropped
held_step pid (ok a) t n k = (k a).at t
held_step pid (err e) t n k = refl
held_step pid panicked t n k = refl

Ends-holding :
    {A B : Type 0} (pid : Pid) (m : Action Trace A) (n : A → Action Trace B)
    → Keeps undropped m
    → ((a : A) → Ends pid (n a))
    → Ends pid (holding pid m >>= n)
Ends-holding pid m n km kn = record {
  at = λ t. held_step pid (m t).0 (m t).1 n kn ∙ ap (without pid) (km.at t);
}

Ends-then :
    {A B : Type 0} (pid : Pid) (m : Action Trace A) (n : A → Action Trace B)
    → Ends pid m
    → ((a : A) → Keeps undropped (n a))
    → Ends pid (m >>= n)
Ends-then pid m n km kn = record { at = λ t. continue-Keeps (m t).0 n (m t).1 kn ∙ km.at t }

-- A process that is brought up and ended.
owned_step :
    {A : Type 0} (r : Result VmHandle) (f : VmHandle → Action Trace A) (t : Trace) (ps : List Pid)
    → undropped t ≡ owned r ps
    → ((h : VmHandle) → Ends h.process (f h))
    → undropped (continue r f t).1 ≡ ps
unfolding owned
owned_step (ok h) f t ps e k = (k h).at t ∙ ap (without h.process) e ∙ without_first h.process ps
owned_step (err x) f t ps e k = e
owned_step panicked f t ps e k = e

Keeps-owned :
    {A : Type 0} (m : Action Trace VmHandle) (f : VmHandle → Action Trace A)
    → Owns m
    → ((h : VmHandle) → Ends h.process (f h))
    → Keeps undropped (m >>= f)
Keeps-owned m f km kf = record { at = λ t. owned_step (m t).0 f (m t).1 (undropped t) (km.at t) kf }

ruleset test_rules = (
  Keeps-owned, Ends-holding, Ends-then, Ends-expect, Ends-terminate, Owns-expect, spawn-Owns,
  restore-Owns, snapshot-undropped, Keeps-expect, Keeps-assert, Keeps-assert_exists, Keeps-sleep,
  keeps_rules,
)

module _ (env : Env) where
  spawn_test-undropped : Keeps undropped (spawn_vm_starts_and_responds env)
  unfolding spawn_vm_starts_and_responds
  spawn_test-undropped = search test_rules depth 60

  snapshot_test-undropped : Keeps undropped (snapshot_creates_recoverable_state env)
  unfolding snapshot_creates_recoverable_state
  snapshot_test-undropped = search test_rules depth 60

  restore_test-undropped : Keeps undropped (restore_from_snapshot_succeeds env)
  unfolding restore_from_snapshot_succeeds
  restore_test-undropped = search test_rules depth 60

-- Each lifecycle test leaves the processes that were started and not dropped as they were, whether it
-- passes or panics, at any of its steps, and whatever the outside answers: each process that it starts
-- is dropped, which kills it.
pub lifecycle_tests-undropped :
    (env : Env) (t : Trace)
    → (undropped (spawn_vm_starts_and_responds env t).1 ≡ undropped t)
      × (undropped (snapshot_creates_recoverable_state env t).1 ≡ undropped t)
      × (undropped (restore_from_snapshot_succeeds env t).1 ≡ undropped t)
lifecycle_tests-undropped env t = (
  (spawn_test-undropped env).at t,
  (snapshot_test-undropped env).at t,
  (restore_test-undropped env).at t,
)
