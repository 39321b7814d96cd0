-- ===== src/Tests/Tasks.antt =====
-- Two tasks that share an orchestrator (forge-executor/src/orchestrator.rs).
use apeiron.Base.{ℕ, zero, suc, ◌≡◌, ◌≢◌, refl, ap, true, false, ltb, arith, codes}
use apeiron.Executor.Config.{VmHandle, new_vm_handle}
use apeiron.Executor.Action.{Result, ok}
use apeiron.Executor.Orchestrator.Registry.{spawn_call, snapshot_call, terminate_call}
use apeiron.Executor.Orchestrator.Sections.{brought, idle, vm, snapshotting, section, begin}
use apeiron.Executor.Orchestrator.Interleaving.{
  given, borrower, Allowed, role, System, FreshIds, Reachable, at_start, after_step, call_step,
  section_step, answer_step, start, call_from, run_section, take_answer,
}
use apeiron.Executor.Orchestrator.Interleaving.Safety.{past_check, not_refused}
use apeiron.Tests.Vms.{config, counting}

ok_injective : (a b : VmHandle) → ◌≡◌ {A = Result VmHandle} (ok a) (ok b) → a ≡ b
ok_injective a b e = cc

-- The identifiers below the counter were given.
next_id :
    (s t : ℕ) (handle : VmHandle)
    → counting.spawn config s ≡ (ok handle, t)
    → (ltb handle.id s ≡ false) × (ltb handle.id t ≡ true)
unfolding new_vm_handle
next_id s t handle e =
    let same = ok_injective _ handle (λ i. (e i).0) in
    let id : s ≡ handle.id = ap (λ (h : VmHandle). h.id) same in
    let counter : suc s ≡ t = λ i. (e i).1 in (grind arith, grind arith)

counts : FreshIds counting
counts = record {
  used = λ s id. ltb id s;
  spawn_new = λ config s t handle e. next_id s t handle e;
  restore_new = λ id s t handle e. next_id s t handle e;
  spawn_keeps = λ config s id h. grind arith;
  restore_keeps = λ snapshot_id s id h. grind arith;
  snapshot_keeps = λ handle s id h. grind arith;
  terminate_keeps = λ handle s id h. grind arith;
  drop_keeps = λ handle s id h. h;
}

abbrev vm_7 : VmHandle
vm_7 = new_vm_handle 7 (codes "/s") 7 7

-- Task 0 spawns a VM.
abbrev asked : System ℕ
asked = call_from counting 0 (spawn_call config) (start 7)

abbrev spawned : System ℕ
spawned = run_section counting 0 (run_section counting 0 asked)

abbrev at_hand : System ℕ
at_hand = take_answer counting 0 (vm (ok vm_7)) spawned

spawned-Reachable : Reachable counting 7 spawned
unfolding start Allowed
spawned-Reachable =
    after_step
      (after_step (after_step at_start (call_step 0 (spawn_call config) refl tt)) (section_step 0))
      (section_step 0)

at_hand-Reachable : Reachable counting 7 at_hand
unfolding start call_from run_section section brought begin new_vm_handle
at_hand-Reachable = after_step spawned-Reachable (answer_step 0 (vm (ok vm_7)) refl)

at_hand_idle : (task : ℕ) → at_hand.tasks task ≡ idle
unfolding start call_from run_section take_answer
at_hand_idle zero = refl
at_hand_idle (suc n) = ground arith

-- Then task 1 asks for a snapshot, or task 0 for the end.
abbrev borrowed : System ℕ
borrowed = call_from counting 1 (snapshot_call vm_7) at_hand

abbrev given_up : System ℕ
given_up = call_from counting 0 (terminate_call vm_7) at_hand

borrowed-Reachable : Reachable counting 7 borrowed
unfolding Allowed start call_from run_section take_answer new_vm_handle given
borrowed-Reachable = after_step at_hand-Reachable (call_step 1 (snapshot_call vm_7) refl refl)

not_borrowed : (task : ℕ) → role 7 (at_hand.tasks task) ≢ borrower
unfolding role
not_borrowed task e = let idle_task = at_hand_idle task in cc

given_up-Reachable : Reachable counting 7 given_up
unfolding Allowed start call_from run_section take_answer new_vm_handle given
given_up-Reachable =
    after_step at_hand-Reachable (call_step 0 (terminate_call vm_7) refl (refl, not_borrowed))

not_refused_example :
    section counting (borrowed.tasks 1) borrowed.orch ≡ (snapshotting vm_7, borrowed.orch)
unfolding past_check start call_from run_section take_answer begin
not_refused_example = not_refused counts 7 borrowed 1 (snapshotting vm_7) borrowed-Reachable refl
