-- ===== src/Executor/Orchestrator/Interleaving/Life.antt =====
-- Every reachable state of the tasks has each VM in one place of its life.
use apeiron.Base.Families.{differ, same, update}
use apeiron.Base.{ℕ, ◌≡◌, refl, ap, ◌∙◌, inl, inr, Bool-cases, Bool, true, ◌==◌}
use apeiron.Core.Id.{Uuid}
use apeiron.Std.BTreeSet.{contains, IsAscending}
use apeiron.Executor.Action.{ok, err, panicked}
use apeiron.Executor.Backend.{VmmBackend}
use apeiron.Executor.Orchestrator.{new}
use apeiron.Executor.Orchestrator.Sections.{Answer, vm, snapshot_of, ended, idle, returned}
use apeiron.Executor.Orchestrator.Interleaving.{
  owner, role, failed_stop, System, FreshIds, run_section, call_from, take_answer, given, Step,
  call_step, section_step, answer_step, Reachable, at_start, after_step, start,
}
use apeiron.Executor.Orchestrator.Interleaving.Phase.{
  Phase, gone, arriving, owned, shared, left_behind, section-Effect,
}
use apeiron.Executor.Orchestrator.Interleaving.Updates.{update_none, Alone-eq, guest_apart}
use apeiron.Executor.Orchestrator.Interleaving.Moves.{section-IsAscending, section_keeps, moves}
use apeiron.Executor.Orchestrator.Interleaving.Calls.{rest, call_from-Phase}

module _ {S : Type 0} {backend : VmmBackend S} (fresh : FreshIds backend) where
  run_section-Phase :
      (id : Uuid) (s : System S) (task : ℕ)
      → IsAscending s.orch.active_vms
      → Phase fresh id s
      → Phase fresh id (run_section backend task s)
  unfolding run_section
  run_section-Phase id s task h phase =
      moves fresh s id task _ _ (section_keeps fresh (s.tasks task) s.orch id) phase
        (section-Effect fresh id (s.tasks task) s.orch h)

  -- A handle that an answer brings is the client's from then on.
  handed-shared :
      (id : Uuid) (s : System S) (task : ℕ) (held : Uuid → Bool)
      → role id (s.tasks task) ≡ owner
      → held id ≡ true
      → Phase fresh id s
      → Phase fresh id (record {
        orch = s.orch;
        tasks = update s.tasks task idle;
        held = held;
        stranded = s.stranded;
      })
  unfolding role
  handed-shared id s task held e h (owned holder u h' k n r a) =
      elim (Bool-cases (task == holder)) [
        | inl q ↦ shared u h k n λ other. inl (
            update_none s.tasks id task idle refl
              (Alone-eq s.tasks id task holder (same task holder q) a) other)
        | inr q ↦ (let r' = a task (differ task holder q) in cc)
      ]
  handed-shared id s task held e h (gone h' k n a) = (let r' = a task in cc)
  handed-shared id s task held e h (left_behind u h' k n a) = (let r' = a task in cc)
  handed-shared id s task held e h (shared u h' k n g) =
      guest_apart id (s.tasks task) (g task) (inr e)
  handed-shared id s task held e h (arriving holder u h' k n r a) =
      elim (Bool-cases (task == holder)) [
        | inl q ↦ (let r' = ap (λ t. role id (s.tasks t)) (same task holder q) ∙ r in cc)
        | inr q ↦ (let r' = a task (differ task holder q) in cc)
      ]

  take_answer-Phase :
      (id : Uuid) (s : System S) (task : ℕ) (answer : Answer)
      → s.tasks task ≡ returned answer
      → Phase fresh id s
      → Phase fresh id (take_answer backend task answer s)
  unfolding take_answer given role failed_stop
  take_answer-Phase id s task (vm (ok handle)) e phase = elim (Bool-cases (id == handle.id)) [
    | inl q ↦ handed-shared id s task _ (rw (e, q)) (rw q) phase
    | inr q ↦ rest fresh id s task idle _ (rw (e, q)) (rw e) (rw q) phase
  ]
  take_answer-Phase id s task (vm (err x)) e phase =
      rest fresh id s task idle _ (rw e) (rw e) refl phase
  take_answer-Phase id s task (vm panicked) e phase =
      rest fresh id s task idle _ (rw e) (rw e) refl phase
  take_answer-Phase id s task (snapshot_of r) e phase =
      rest fresh id s task idle _ (rw e) (rw e) refl phase
  take_answer-Phase id s task (ended r) e phase =
      rest fresh id s task idle _ (rw e) (rw e) refl phase

  Step-Phase :
      (id : Uuid) {s t : System S}
      → Step backend s t
      → IsAscending s.orch.active_vms
      → Phase fresh id s
      → Phase fresh id t
  Step-Phase id {s} (call_step task call e a) h phase =
      call_from-Phase fresh id s task call e a phase
  Step-Phase id {s} (section_step task) h phase = run_section-Phase id s task h phase
  Step-Phase id {s} (answer_step task answer e) h phase = take_answer-Phase id s task answer e phase

Step-IsAscending :
    {S : Type 0} {backend : VmmBackend S} {s t : System S}
    → Step backend s t
    → IsAscending s.orch.active_vms
    → IsAscending t.orch.active_vms
unfolding call_from run_section take_answer
Step-IsAscending (call_step task call e a) h = h
Step-IsAscending {S} {backend} {s} (section_step task) h =
    section-IsAscending backend (s.tasks task) s.orch h
Step-IsAscending (answer_step task answer e) h = h

Reachable-IsAscending :
    {S : Type 0} {backend : VmmBackend S} {first : S} {s : System S}
    → Reachable backend first s
    → IsAscending s.orch.active_vms
unfolding start new
Reachable-IsAscending at_start = tt
Reachable-IsAscending (after_step reach step) = Step-IsAscending step (Reachable-IsAscending reach)

pub Reachable-Phase :
    {S : Type 0} {backend : VmmBackend S} (fresh : FreshIds backend) (id : Uuid) {first : S}
    {s : System S}
    → Reachable backend first s
    → Phase fresh id s
unfolding start new contains role
Reachable-Phase fresh id at_start = gone refl refl refl (λ task. refl)
Reachable-Phase fresh id (after_step reach step) =
    Step-Phase fresh id step (Reachable-IsAscending reach) (Reachable-Phase fresh id reach)
