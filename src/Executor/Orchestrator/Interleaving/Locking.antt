-- ===== src/Executor/Orchestrator/Interleaving/Locking.antt =====
-- The lock of the registry (`active_vms`, forge-executor/src/orchestrator.rs): a task waits until it is
-- free, takes it, and gives it back behind its section. What the tasks come to is what they come to when a
-- section under the lock is one step.
use apeiron.Base.Families.{update, update_same, update_other}
use apeiron.Base.{
  ℕ, ◌≡◌, ◌≢◌, ◌∙◌, refl, sym, ap, Bool, true, false, Option-cases, Option, none, some, ◌⊎◌, inl,
  inr, arith,
}
use apeiron.Executor.Backend.{VmmBackend}
use apeiron.Executor.Orchestrator.Registry.{Call}
use apeiron.Executor.Orchestrator.Sections.{
  Answer, Pc, idle, registering, snapshot_checking, terminate_checking, unregistering, returned,
  section,
}
use apeiron.Executor.Orchestrator.{VmOrchestrator}
use apeiron.Executor.Orchestrator.Interleaving.{
  System, Allowed, start, call_from, run_section, take_answer, call_step, section_step, answer_step,
  Reachable, at_start, after_step,
}

-- The sections that stand behind `self.active_vms.lock().await`.
unfoldable under_lock : Pc → Bool
under_lock (registering handle) = true
under_lock (snapshot_checking handle) = true
under_lock (terminate_checking handle) = true
under_lock (unregistering id) = true
under_lock _ = false

-- The tasks, and who has the lock.
record Guarded (S : Type 0) : Type 0 where
  system : System S
  holder : Option ℕ

abbrev guarded : {S : Type 0} → System S → Option ℕ → Guarded S
guarded s holder = record { system = s; holder = holder }

module _ {S : Type 0} (backend : VmmBackend S) where
  data LockStep (g : Guarded S) : Guarded S → Type 0 where
    lock_step :
        (task : ℕ)
        → under_lock (g.system.tasks task) ≡ true
        → g.holder ≡ none
        → LockStep g (guarded g.system (some task))
    locked_section_step :
        (task : ℕ)
        → g.holder ≡ some task
        → LockStep g (guarded (run_section backend task g.system) none)
    free_section_step :
        (task : ℕ)
        → under_lock (g.system.tasks task) ≡ false
        → LockStep g (guarded (run_section backend task g.system) g.holder)
    locking_call_step :
        (task : ℕ) (call : Call)
        → g.system.tasks task ≡ idle
        → Allowed call g.system
        → LockStep g (guarded (call_from backend task call g.system) g.holder)
    locking_answer_step :
        (task : ℕ) (answer : Answer)
        → g.system.tasks task ≡ returned answer
        → LockStep g (guarded (take_answer backend task answer g.system) g.holder)

  data LockReachable (first : S) : Guarded S → Type 0 where
    unlocked : LockReachable first (guarded (start first) none)
    locked_after : {g h : Guarded S} → LockReachable first g → LockStep g h → LockReachable first h

module _ {S : Type 0} {backend : VmmBackend S} {first : S} where
  -- What is reached with the lock is reached when each section under it is one step.
  system-Reachable :
      {g : Guarded S} → LockReachable backend first g → Reachable backend first g.system
  system-Reachable unlocked = at_start
  system-Reachable (locked_after reach (lock_step task u h)) = system-Reachable reach
  system-Reachable (locked_after reach (locked_section_step task h)) =
      after_step (system-Reachable reach) (section_step task)
  system-Reachable (locked_after reach (free_section_step task u)) =
      after_step (system-Reachable reach) (section_step task)
  system-Reachable (locked_after reach (locking_call_step task call e a)) =
      after_step (system-Reachable reach) (call_step task call e a)
  system-Reachable (locked_after reach (locking_answer_step task answer e)) =
      after_step (system-Reachable reach) (answer_step task answer e)

some_injective : {A : Type 0} (a b : A) → ◌≡◌ {A = Option A} (some a) (some b) → a ≡ b
some_injective a b e = cc

-- Where another task moves that is not under the lock, the holder stays where it is.
stays :
    (tasks : ℕ → Pc) (holder task : ℕ) (pc : Pc)
    → under_lock (tasks holder) ≡ true
    → under_lock (tasks task) ≡ false
    → under_lock (update tasks task pc holder) ≡ true
stays tasks holder task pc u v =
    let apart : holder ≢ task = λ e. let w = ap (λ n. under_lock (tasks n)) e in cc in
    ap under_lock (update_other tasks task holder pc apart) ∙ u

-- Who has the lock is at a section under it.
unfoldable IsHeldAtSection : {S : Type 0} → Guarded S → Type 0
IsHeldAtSection g = (task : ℕ) → g.holder ≡ some task → under_lock (g.system.tasks task) ≡ true

none-IsHeldAtSection : {S : Type 0} (s : System S) → IsHeldAtSection (guarded s none)
unfolding IsHeldAtSection
none-IsHeldAtSection s holder q = cc

module _ {S : Type 0} {backend : VmmBackend S} where
  step-IsHeldAtSection :
      {g h : Guarded S} → LockStep backend g h → IsHeldAtSection g → IsHeldAtSection h
  unfolding IsHeldAtSection run_section call_from take_answer under_lock
  step-IsHeldAtSection (lock_step task u e) k holder q =
      let same = some_injective task holder q in rw (sym same) u
  step-IsHeldAtSection (locked_section_step task e) k holder q = cc
  step-IsHeldAtSection {g = g} (free_section_step task u) k holder q =
      stays g.system.tasks holder task _ (k holder q) u
  step-IsHeldAtSection {g = g} (locking_call_step task call e a) k holder q =
      stays g.system.tasks holder task _ (k holder q) (ap under_lock e)
  step-IsHeldAtSection {g = g} (locking_answer_step task answer e) k holder q =
      stays g.system.tasks holder task _ (k holder q) (ap under_lock e)

  holder-IsHeldAtSection :
      {first : S} {g : Guarded S} → LockReachable backend first g → IsHeldAtSection g
  holder-IsHeldAtSection unlocked = none-IsHeldAtSection _
  holder-IsHeldAtSection (locked_after reach step) =
      step-IsHeldAtSection step (holder-IsHeldAtSection reach)

module _ {S : Type 0} (backend : VmmBackend S) where
  leaves_lock :
      (pc : Pc) (orch : VmOrchestrator S)
      → under_lock pc ≡ true
      → under_lock (section backend pc orch).0 ≡ false
  unfolding section under_lock
  leaves_lock (registering handle) orch u = refl
  leaves_lock (snapshot_checking handle) orch u = ground arith
  leaves_lock (terminate_checking handle) orch u = ground arith
  leaves_lock (unregistering id) orch u = refl
  leaves_lock _ orch u = cc

  -- The lock is free, or the task that has it can run its section as its next step, which gives the lock
  -- back and leaves the task at a section that needs no lock, or returned.
  lock_handed_on :
      {first : S} (g : Guarded S)
      → LockReachable backend first g
      → (g.holder ≡ none)
        ⊎ ((task : ℕ) × (g.holder ≡ some task)
            × LockStep backend g (guarded (run_section backend task g.system) none)
            × (under_lock ((run_section backend task g.system).tasks task) ≡ false))
  unfolding run_section IsHeldAtSection
  lock_handed_on g reach = elim (Option-cases g.holder) [
    | inl h ↦ inl h
    | inr (task, h) ↦ inr (
      task,
      h,
      locked_section_step task h,
      ap under_lock (update_same g.system.tasks task _)
          ∙ leaves_lock (g.system.tasks task) g.system.orch (holder-IsHeldAtSection reach task h),
    )
  ]
