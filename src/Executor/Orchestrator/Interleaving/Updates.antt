-- ===== src/Executor/Orchestrator/Interleaving/Updates.antt =====
-- Tasks of which one goes on, and what the others have of a VM.
use apeiron.Base.Families.{differ, update, update_other}
use apeiron.Base.{ℕ, ◌≡◌, ◌⊎◌, sym, ap, ◌∙◌, inl, inr, Bool-cases, ◌==◌}
use apeiron.Core.Id.{Uuid}
use apeiron.Executor.Orchestrator.Sections.{Pc}
use apeiron.Executor.Orchestrator.Interleaving.{away, newborn, owner, role}
use apeiron.Executor.Orchestrator.Interleaving.Phase.{IsGuest, Alone}

-- The task that has a VM goes on; the others stay away from it.
pub update-Alone :
    (tasks : ℕ → Pc) (id : Uuid) (task : ℕ) (pc : Pc)
    → Alone tasks id task
    → Alone (update tasks task pc) id task
update-Alone tasks id task pc h other ne =
    ap (role id) (update_other tasks task other pc ne) ∙ h other ne

-- Another task goes on.
pub update-away :
    (tasks : ℕ → Pc) (id : Uuid) (task mover : ℕ) (pc : Pc)
    → role id pc ≡ away
    → Alone tasks id task
    → Alone (update tasks mover pc) id task
update-away tasks id task mover pc e h other ne = elim (Bool-cases (other == mover)) [
  | inl q ↦ rw q e
  | inr q ↦ rw q (h other ne)
]

-- A task that had the VM gives it up.
pub update_none :
    (tasks : ℕ → Pc) (id : Uuid) (task : ℕ) (pc : Pc)
    → role id pc ≡ away
    → Alone tasks id task
    → (other : ℕ) → role id (update tasks task pc other) ≡ away
update_none tasks id task pc e h other = elim (Bool-cases (other == task)) [
  | inl q ↦ rw q e
  | inr q ↦ rw q (h other (differ other task q))
]

pub IsGuest-stays :
    (id : Uuid) (pc pc' : Pc) → IsGuest id pc → role id pc' ≡ role id pc → IsGuest id pc'
IsGuest-stays id pc pc' (inl r) e = inl (e ∙ r)
IsGuest-stays id pc pc' (inr r) e = inr (e ∙ r)

-- A guest neither brings the VM up nor owns it.
pub guest_apart :
    {A : Type 0} (id : Uuid) (pc : Pc)
    → IsGuest id pc
    → (role id pc ≡ newborn) ⊎ (role id pc ≡ owner)
    → A
guest_apart id pc (inl r) (inl e) = cc
guest_apart id pc (inl r) (inr e) = cc
guest_apart id pc (inr r) (inl e) = cc
guest_apart id pc (inr r) (inr e) = cc

pub Alone-eq : (tasks : ℕ → Pc) (id : Uuid) (a b : ℕ) → a ≡ b → Alone tasks id b → Alone tasks id a
Alone-eq tasks id a b e h other ne = h other (λ q. ne (q ∙ sym e))
