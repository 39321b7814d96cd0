-- ===== src/Executor/Orchestrator/Interleaving/Calls.antt =====
-- A call that a task begins keeps each VM in one place of its life.
use mathlib.Core.Path.{subst}
use apeiron.Base.Families.{same, update, update_all, update_same}
use apeiron.Base.{ℕ, ◌≡◌, ◌≢◌, refl, sym, ap, ◌∙◌, inl, inr, Bool-cases, Bool, true, false, ◌==◌}
use apeiron.Core.Id.{Uuid}
use apeiron.Std.BTreeSet.{contains}
use apeiron.Executor.Config.{VmHandle}
use apeiron.Executor.Backend.{VmmBackend}
use apeiron.Executor.Orchestrator.Registry.{
  Call, spawn_call, snapshot_call, restore_call, terminate_call,
}
use apeiron.Executor.Orchestrator.Sections.{Pc, idle, terminate_checking, begin}
use apeiron.Executor.Orchestrator.Interleaving.{
  away, borrower, role, failed_stop, System, FreshIds, call_from, Allowed, taken,
}
use apeiron.Executor.Orchestrator.Interleaving.Phase.{
  IsGuest, Phase, gone, arriving, owned, shared, left_behind, stays,
}
use apeiron.Executor.Orchestrator.Interleaving.Updates.{update-Alone}
use apeiron.Executor.Orchestrator.Interleaving.Moves.{moved, moves}

module _ {S : Type 0} {backend : VmmBackend S} (fresh : FreshIds backend) where
  -- Only what the clients hold and what was stranded of this VM counts.
  Phase-eq :
      (id : Uuid) (s : System S) (held stranded : Uuid → Bool)
      → held id ≡ s.held id
      → stranded id ≡ s.stranded id
      → Phase fresh id s
      → Phase fresh id (record { orch = s.orch; tasks = s.tasks; held = held; stranded = stranded })
  Phase-eq id s held stranded p q (gone h k n a) = gone (p ∙ h) (q ∙ k) n a
  Phase-eq id s held stranded p q (arriving t u h k n r a) = arriving t u (p ∙ h) (q ∙ k) n r a
  Phase-eq id s held stranded p q (owned t u h k n r a) = owned t u (p ∙ h) (q ∙ k) n r a
  Phase-eq id s held stranded p q (shared u h k n g) = shared u (p ∙ h) (q ∙ k) n g
  Phase-eq id s held stranded p q (left_behind u h k n a) = left_behind u (p ∙ h) (q ∙ k) n a

  idle_role :
      (id : Uuid) (s : System S) (task : ℕ) → s.tasks task ≡ idle → away ≡ role id (s.tasks task)
  unfolding role
  idle_role id s task e = rw e refl

  idle_stop :
      (id : Uuid) (s : System S) (task : ℕ)
      → s.tasks task ≡ idle
      → (pc : Pc) → failed_stop id (s.tasks task) pc ≡ false
  unfolding failed_stop
  idle_stop id s task e pc = rw e refl

  -- A task goes on to a place where it has as much of the VM as before, and nothing else changes.
  pub rest :
      (id : Uuid) (s : System S) (task : ℕ) (pc : Pc) (held : Uuid → Bool)
      → role id pc ≡ role id (s.tasks task)
      → failed_stop id (s.tasks task) pc ≡ false
      → held id ≡ s.held id
      → Phase fresh id s
      → Phase fresh id (record {
        orch = s.orch;
        tasks = update s.tasks task pc;
        held = held;
        stranded = s.stranded;
      })
  rest id s task pc held e f h phase =
      Phase-eq id (moved fresh s task pc s.orch) held s.stranded h (rw f)
        (moves fresh s id task pc s.orch (λ u. u) phase (stays e refl f))

  -- A handle that the clients hold is shared.
  held-shared :
      (id : Uuid) (s : System S)
      → s.held id ≡ true
      → Phase fresh id s
      → (fresh.used s.orch.governed id ≡ true)
        × (s.stranded id ≡ false)
        × (contains id s.orch.active_vms ≡ true)
        × ((task : ℕ) → IsGuest id (s.tasks task))
  held-shared id s e (shared u h k n g) = (u, k, n, g)
  held-shared id s e (gone h k n a) = cc
  held-shared id s e (arriving t u h k n r a) = cc
  held-shared id s e (owned t u h k n r a) = cc
  held-shared id s e (left_behind u h k n a) = cc

  -- The two calls that bring a VM up.
  new_call-Phase :
      (id : Uuid) (s : System S) (task : ℕ) (call : Call)
      → s.tasks task ≡ idle
      → role id (begin call) ≡ away
      → taken call id ≡ false
      → Phase fresh id s
      → Phase fresh id (call_from backend task call s)
  unfolding call_from
  new_call-Phase id s task call e a t phase =
      rest id s task (begin call) _ (a ∙ idle_role id s task e) (idle_stop id s task e _) (rw t)
        phase

  snapshot_call-Phase :
      (id : Uuid) (s : System S) (task : ℕ) (handle : VmHandle)
      → s.tasks task ≡ idle
      → s.held handle.id ≡ true
      → Phase fresh id s
      → Phase fresh id (call_from backend task (snapshot_call handle) s)
  unfolding call_from begin taken role
  snapshot_call-Phase id s task handle e h phase = elim (Bool-cases (id == handle.id)) [
    | inl q ↦
        (let held = ap s.held (same id handle.id q) ∙ h in
          let (u, k, n, g) = held-shared id s held phase in
          shared u held k n (update_all (IsGuest id) s.tasks task _ g (inr (rw q))))
    | inr q ↦ new_call-Phase id s task (snapshot_call handle) e (rw q) refl phase
  ]

  -- With no task borrowing it, a shared handle is nowhere but with the clients.
  not_borrowed : (id : Uuid) (pc : Pc) → IsGuest id pc → role id pc ≢ borrower → role id pc ≡ away
  not_borrowed id pc (inl r) h = r
  not_borrowed id pc (inr r) h = absurd (h r)

  terminate_call-Phase :
      (id : Uuid) (s : System S) (task : ℕ) (handle : VmHandle)
      → s.tasks task ≡ idle
      → s.held handle.id ≡ true
      → ((other : ℕ) → role handle.id (s.tasks other) ≢ borrower)
      → Phase fresh id s
      → Phase fresh id (call_from backend task (terminate_call handle) s)
  unfolding call_from begin taken role
  terminate_call-Phase id s task handle e h free phase = elim (Bool-cases (id == handle.id)) [
    | inl q ↦
        (let p = same id handle.id q in
          let (u, k, n, g) = held-shared id s (ap s.held p ∙ h) phase in
          owned task u (rw q) k n
            (ap (role id) (update_same s.tasks task (terminate_checking handle)) ∙ rw q)
            (update-Alone s.tasks id task _ λ other ne.
              not_borrowed id (s.tasks other) (g other)
                (subst (λ v. role v (s.tasks other) ≢ borrower) (sym p) (free other))))
    | inr q ↦ new_call-Phase id s task (terminate_call handle) e (rw q) q phase
  ]

  pub call_from-Phase :
      (id : Uuid) (s : System S) (task : ℕ) (call : Call)
      → s.tasks task ≡ idle
      → Allowed call s
      → Phase fresh id s
      → Phase fresh id (call_from backend task call s)
  unfolding Allowed begin role taken
  call_from-Phase id s task (spawn_call config) e a phase =
      new_call-Phase id s task (spawn_call config) e refl refl phase
  call_from-Phase id s task (restore_call snapshot_id) e a phase =
      new_call-Phase id s task (restore_call snapshot_id) e refl refl phase
  call_from-Phase id s task (snapshot_call handle) e a phase =
      snapshot_call-Phase id s task handle e a phase
  call_from-Phase id s task (terminate_call handle) e (h, free) phase =
      terminate_call-Phase id s task handle e h free phase
