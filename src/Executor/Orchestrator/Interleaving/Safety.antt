-- ===== src/Executor/Orchestrator/Interleaving/Safety.antt =====
-- What concurrent tasks may rely on: "All operations are safe to call concurrently"
-- (forge-executor/src/orchestrator.rs).
use apeiron.Base.Families.{eq_self, differ, same}
use apeiron.Base.{
  ℕ, ◌≡◌, ◌≢◌, ◌⊎◌, refl, sym, ap, ◌∙◌, inl, inr, Bool-cases, Option, none, some, true, ◌==◌,
}
use apeiron.Core.Id.{Uuid}
use apeiron.Std.BTreeSet.{contains}
use apeiron.Executor.Backend.{VmmBackend}
use apeiron.Executor.Orchestrator.Sections.{
  Pc, snapshot_checking, snapshotting, terminate_checking, terminating, section,
}
use apeiron.Executor.Orchestrator.Interleaving.{
  away, borrower, owner, role, System, FreshIds, Reachable,
}
use apeiron.Executor.Orchestrator.Interleaving.Phase.{
  Phase, gone, arriving, owned, shared, left_behind,
}
use apeiron.Executor.Orchestrator.Interleaving.Updates.{guest_apart}
use apeiron.Executor.Orchestrator.Interleaving.Life.{Reachable-Phase}

module _ {S : Type 0} {backend : VmmBackend S} (fresh : FreshIds backend) where
  owner_phase :
      (id : Uuid) (s : System S) (task other : ℕ)
      → Phase fresh id s
      → role id (s.tasks task) ≡ owner
      → other ≢ task
      → role id (s.tasks other) ≡ away
  owner_phase id s task other (owned holder u h k n r a) e ne = elim (Bool-cases (task == holder)) [
    | inl q ↦ a other (λ z. ne (z ∙ sym (same task holder q)))
    | inr q ↦ (let r' = a task (differ task holder q) in cc)
  ]
  owner_phase id s task other (gone h k n a) e ne = a other
  owner_phase id s task other (left_behind u h k n a) e ne = a other
  owner_phase id s task other (shared u h k n g) e ne =
      guest_apart id (s.tasks task) (g task) (inr e)
  owner_phase id s task other (arriving holder u h k n r a) e ne =
      elim (Bool-cases (task == holder)) [
        | inl q ↦ (let r' = ap (λ t. role id (s.tasks t)) (same task holder q) ∙ r in cc)
        | inr q ↦ (let r' = a task (differ task holder q) in cc)
      ]

  used_phase :
      (id : Uuid) (s : System S) (task : ℕ)
      → Phase fresh id s
      → (role id (s.tasks task) ≡ borrower) ⊎ (role id (s.tasks task) ≡ owner)
      → contains id s.orch.active_vms ≡ true
  used_phase id s task (owned holder u h k n r a) e = n
  used_phase id s task (shared u h k n g) e = n
  used_phase id s task (left_behind u h k n a) e = n
  used_phase id s task (gone h k n a) (inl e) = (let r' = a task in cc)
  used_phase id s task (gone h k n a) (inr e) = (let r' = a task in cc)
  used_phase id s task (arriving holder u h k n r a) (inl e) = elim (Bool-cases (task == holder)) [
    | inl q ↦ (let r' = ap (λ t. role id (s.tasks t)) (same task holder q) ∙ r in cc)
    | inr q ↦ (let r' = a task (differ task holder q) in cc)
  ]
  used_phase id s task (arriving holder u h k n r a) (inr e) = elim (Bool-cases (task == holder)) [
    | inl q ↦ (let r' = ap (λ t. role id (s.tasks t)) (same task holder q) ∙ r in cc)
    | inr q ↦ (let r' = a task (differ task holder q) in cc)
  ]

some_eq : {A : Type 0} (a b : A) → ◌≡◌ {A = Option A} (some a) (some b) → a ≡ b
some_eq a b e = cc

-- The place behind the check of a method that looks the VM up.
unfoldable pub past_check : Pc → Option Pc
past_check (snapshot_checking handle) = some (snapshotting handle)
past_check (terminate_checking handle) = some (terminating handle)
past_check _ = none

module _ {S : Type 0} {backend : VmmBackend S} (fresh : FreshIds backend) where
  passes :
      (s : System S) (task : ℕ) (pc pc' : Pc)
      → ((id : Uuid)
          → (role id pc ≡ borrower) ⊎ (role id pc ≡ owner)
          → contains id s.orch.active_vms ≡ true)
      → past_check pc ≡ some pc'
      → section backend pc s.orch ≡ (pc', s.orch)
  unfolding past_check section role
  passes s task (snapshot_checking handle) pc' h e =
      let n = h handle.id (inl (rw (eq_self handle.id) refl)) in
      rw n (let q = some_eq _ _ e in λ i. (q i, s.orch))
  passes s task (terminate_checking handle) pc' h e =
      let n = h handle.id (inr (rw (eq_self handle.id) refl)) in
      rw n (let q = some_eq _ _ e in λ i. (q i, s.orch))
  passes s task _ pc' h e = cc

  -- The backend gives no identifier twice. Tasks share the orchestrator, and each calls with the handles that it was given: it borrows one for a
  -- snapshot and gives one up for a terminate. Whenever a task comes to the check of the registry, in any
  -- interleaving of the tasks' sections, the check passes: a handle of the orchestrator's is never refused
  -- as unknown.
  pub not_refused :
      (first : S) (s : System S) (task : ℕ) (pc : Pc)
      → Reachable backend first s
      → past_check (s.tasks task) ≡ some pc
      → section backend (s.tasks task) s.orch ≡ (pc, s.orch)
  not_refused first s task pc reach e =
      passes s task (s.tasks task) pc
        (λ id. used_phase fresh id s task (Reachable-Phase fresh id reach)) e

  -- The backend gives no identifier twice. In every interleaving of the tasks' sections: while a task owns the handle of a VM, which it does from
  -- the VM's registration to the end of the spawn or restore and through the whole of a terminate, no
  -- other task is in a call with this VM, be it a snapshot or another terminate.
  pub terminate_alone :
      (first : S) (s : System S) (task other : ℕ) (id : Uuid)
      → Reachable backend first s
      → role id (s.tasks task) ≡ owner
      → other ≢ task
      → role id (s.tasks other) ≡ away
  terminate_alone first s task other id reach e ne =
      owner_phase fresh id s task other (Reachable-Phase fresh id reach) e ne
