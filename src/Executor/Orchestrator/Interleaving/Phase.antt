-- ===== src/Executor/Orchestrator/Interleaving/Phase.antt =====
-- The life of one VM under concurrent tasks, and what one section of one task does to it.
use apeiron.Base.Families.{same}
use apeiron.Base.{
  ℕ, ◌≡◌, ◌≢◌, ◌⊎◌, refl, sym, ap, ◌∙◌, inl, inr, Bool-cases, true, false, ◌==◌, if◌then◌else◌,
}
use apeiron.Core.Id.{Uuid}
use apeiron.Std.BTreeSet.{contains, IsAscending, contains-insert, contains-remove}
use apeiron.Executor.Config.{VmHandle}
use apeiron.Executor.Action.{Result, ok, err, panicked}
use apeiron.Executor.Backend.{VmmBackend}
use apeiron.Executor.Orchestrator.{VmOrchestrator}
use apeiron.Executor.Orchestrator.Sections.{
  Pc, idle, spawning, restoring, registering, snapshot_checking, snapshotting, terminate_checking,
  terminating, unregistering, returned, section, brought, stopped, with_governed,
}
use apeiron.Executor.Orchestrator.Interleaving.{
  away, borrower, newborn, owner, role, failed_stop, System, FreshIds,
}

-- A task that has no handle of the VM, or a borrowed one.
abbrev pub IsGuest : Uuid → Pc → Type 0
IsGuest id pc = (role id pc ≡ away) ⊎ (role id pc ≡ borrower)

-- No task but this one has the VM.
abbrev pub Alone : (ℕ → Pc) → Uuid → ℕ → Type 0
Alone tasks id task = (other : ℕ) → other ≢ task → role id (tasks other) ≡ away

module _ {S : Type 0} {backend : VmmBackend S} (fresh : FreshIds backend) where
  -- What holds of a VM: it is nowhere; a task brings it up; a task owns it and it is registered; the
  -- clients hold it and it is registered; it is registered though the backend failed to terminate it.
  pub data Phase (id : Uuid) (s : System S) : Type 0 where
    gone :
        s.held id ≡ false
        → s.stranded id ≡ false
        → contains id s.orch.active_vms ≡ false
        → ((task : ℕ) → role id (s.tasks task) ≡ away)
        → Phase id s
    arriving :
        (task : ℕ)
        → fresh.used s.orch.governed id ≡ true
        → s.held id ≡ false
        → s.stranded id ≡ false
        → contains id s.orch.active_vms ≡ false
        → role id (s.tasks task) ≡ newborn
        → Alone s.tasks id task
        → Phase id s
    owned :
        (task : ℕ)
        → fresh.used s.orch.governed id ≡ true
        → s.held id ≡ false
        → s.stranded id ≡ false
        → contains id s.orch.active_vms ≡ true
        → role id (s.tasks task) ≡ owner
        → Alone s.tasks id task
        → Phase id s
    shared :
        fresh.used s.orch.governed id ≡ true
        → s.held id ≡ true
        → s.stranded id ≡ false
        → contains id s.orch.active_vms ≡ true
        → ((task : ℕ) → IsGuest id (s.tasks task))
        → Phase id s
    left_behind :
        fresh.used s.orch.governed id ≡ true
        → s.held id ≡ false
        → s.stranded id ≡ true
        → contains id s.orch.active_vms ≡ true
        → ((task : ℕ) → role id (s.tasks task) ≡ away)
        → Phase id s

  -- What a section does to a VM, from one place in a method to another.
  pub data Effect (id : Uuid) (pc pc' : Pc) (orch orch' : VmOrchestrator S) : Type 0 where
    stays :
        role id pc' ≡ role id pc
        → contains id orch'.active_vms ≡ contains id orch.active_vms
        → failed_stop id pc pc' ≡ false
        → Effect id pc pc' orch orch'
    releases :
        role id pc ≡ borrower
        → role id pc' ≡ away
        → contains id orch'.active_vms ≡ contains id orch.active_vms
        → failed_stop id pc pc' ≡ false
        → Effect id pc pc' orch orch'
    brings :
        role id pc ≡ away
        → role id pc' ≡ newborn
        → fresh.used orch.governed id ≡ false
        → fresh.used orch'.governed id ≡ true
        → contains id orch'.active_vms ≡ contains id orch.active_vms
        → failed_stop id pc pc' ≡ false
        → Effect id pc pc' orch orch'
    registers :
        role id pc ≡ newborn
        → role id pc' ≡ owner
        → contains id orch'.active_vms ≡ true
        → failed_stop id pc pc' ≡ false
        → Effect id pc pc' orch orch'
    refuses : role id pc ≡ owner → contains id orch.active_vms ≡ false → Effect id pc pc' orch orch'
    strands :
        role id pc ≡ owner
        → role id pc' ≡ away
        → contains id orch'.active_vms ≡ contains id orch.active_vms
        → failed_stop id pc pc' ≡ true
        → Effect id pc pc' orch orch'
    unregisters :
        role id pc ≡ owner
        → role id pc' ≡ away
        → contains id orch'.active_vms ≡ false
        → failed_stop id pc pc' ≡ false
        → Effect id pc pc' orch orch'

  abbrev pub SectionEffect : Uuid → Pc → VmOrchestrator S → Type 0
  SectionEffect id pc orch =
      Effect id pc (section backend pc orch).0 orch (section backend pc orch).1

  -- The end of a spawn or a restore in the backend.
  brought-Effect :
      (id : Uuid) (pc : Pc) (orch : VmOrchestrator S) (r : Result VmHandle) (s : S)
      → role id pc ≡ away
      → ((pc' : Pc) → failed_stop id pc pc' ≡ false)
      → ((handle : VmHandle)
          → r ≡ ok handle
          → (fresh.used orch.governed handle.id ≡ false) × (fresh.used s handle.id ≡ true))
      → Effect id pc (brought r) orch (with_governed backend orch s)
  unfolding brought role
  brought-Effect id pc orch (ok handle) s e f new =
      let (before, after) = new handle refl in
      elim (Bool-cases (id == handle.id)) [
        | inl q ↦
            brings e (rw q) (rw (same id handle.id q) before) (rw (same id handle.id q) after) refl
              (f _)
        | inr q ↦ stays (rw q (sym e)) refl (f _)
      ]
  brought-Effect id pc orch (err x) s e f new = stays (sym e) refl (f _)
  brought-Effect id pc orch panicked s e f new = stays (sym e) refl (f _)

  stopped-Effect :
      (id : Uuid) (handle : VmHandle) (orch : VmOrchestrator S) (r : Result (Unit {0})) (s : S)
      → Effect id (terminating handle) (stopped handle.id r) orch (with_governed backend orch s)
  unfolding stopped role failed_stop
  stopped-Effect id handle orch (ok u) s = stays refl refl refl
  stopped-Effect id handle orch (err x) s = elim (Bool-cases (id == handle.id)) [
    | inl q ↦ strands (rw q) refl refl q
    | inr q ↦ stays (rw q) refl q
  ]
  stopped-Effect id handle orch panicked s = elim (Bool-cases (id == handle.id)) [
    | inl q ↦ strands (rw q) refl refl q
    | inr q ↦ stays (rw q) refl q
  ]

  -- A method that had borrowed a handle returns.
  released-Effect :
      (id : Uuid) (handle : VmHandle) (pc pc' : Pc) (orch orch' : VmOrchestrator S)
      → role id pc ≡ (if id == handle.id then borrower else away)
      → role id pc' ≡ away
      → orch'.active_vms ≡ orch.active_vms
      → failed_stop id pc pc' ≡ false
      → Effect id pc pc' orch orch'
  released-Effect id handle pc pc' orch orch' e e' same_set f =
      elim (Bool-cases (id == handle.id)) [
        | inl q ↦ releases (e ∙ rw q) e' (ap (contains id) same_set) f
        | inr q ↦ stays (e' ∙ sym (e ∙ rw q)) (ap (contains id) same_set) f
      ]

  -- A terminate of a VM that is not registered.
  refused-Effect :
      (id : Uuid) (handle : VmHandle) (orch : VmOrchestrator S)
      → contains handle.id orch.active_vms ≡ false
      → SectionEffect id (terminate_checking handle) orch
  unfolding section role failed_stop
  refused-Effect id handle orch q = elim (Bool-cases (id == handle.id)) [
    | inl k ↦ refuses (rw k) (rw (same id handle.id k) q)
    | inr k ↦ rw q (stays (rw k) refl refl)
  ]

  pub section-Effect :
      (id : Uuid) (pc : Pc) (orch : VmOrchestrator S)
      → IsAscending orch.active_vms
      → SectionEffect id pc orch
  unfolding section role failed_stop
  section-Effect id idle orch h = stays refl refl refl
  section-Effect id (spawning config) orch h =
      brought-Effect id (spawning config) orch _ _ refl (λ pc'. refl)
        λ handle e.
          fresh.spawn_new config orch.governed _ handle
            (λ i. (e i, (backend.spawn config orch.governed).1))
  section-Effect id (restoring snapshot_id) orch h =
      brought-Effect id (restoring snapshot_id) orch _ _ refl (λ pc'. refl)
        λ handle e.
          fresh.restore_new snapshot_id orch.governed _ handle
            (λ i. (e i, (backend.restore snapshot_id orch.governed).1))
  section-Effect id (registering handle) orch h = elim (Bool-cases (id == handle.id)) [
    | inl q ↦ registers (rw q) (rw q) (rw (contains-insert id handle.id orch.active_vms, q)) refl
    | inr q ↦ stays (rw q) (rw (contains-insert id handle.id orch.active_vms, q)) refl
  ]
  section-Effect id (snapshot_checking handle) orch h =
      elim (Bool-cases (contains handle.id orch.active_vms)) [
        | inl q ↦ rw q (stays refl refl refl)
        | inr q ↦ released-Effect id handle _ _ _ _ refl (rw q) refl refl
      ]
  section-Effect id (snapshotting handle) orch h =
      released-Effect id handle _ _ _ _ refl refl refl refl
  section-Effect id (terminate_checking handle) orch h =
      elim (Bool-cases (contains handle.id orch.active_vms)) [
        | inl q ↦ rw q (stays refl refl refl)
        | inr q ↦ refused-Effect id handle orch q
      ]
  section-Effect id (terminating handle) orch h = stopped-Effect id handle orch _ _
  section-Effect id (unregistering vm_id) orch h = elim (Bool-cases (id == vm_id)) [
    | inl q ↦ unregisters (rw q) refl (rw (contains-remove id vm_id orch.active_vms h, q)) refl
    | inr q ↦ stays (rw q) (rw (contains-remove id vm_id orch.active_vms h, q)) refl
  ]
  section-Effect id (returned answer) orch h = stays refl refl refl
