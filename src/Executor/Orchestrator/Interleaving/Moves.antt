-- ===== src/Executor/Orchestrator/Interleaving/Moves.antt =====
-- Every move of every task leaves each VM in one of the places of its life.
use apeiron.Base.Families.{differ, update, update_all, update_other, update_same}
use apeiron.Base.{
  ℕ, ◌≡◌, sym, ap, ◌∙◌, inl, inr, Bool-cases, true, false, ◌||◌, ◌==◌, ==_iff, arith,
}
use apeiron.Core.Id.{Uuid}
use apeiron.Std.BTreeSet.{contains, IsAscending, insert-IsAscending, remove-IsAscending}
use apeiron.Executor.Backend.{VmmBackend}
use apeiron.Executor.Orchestrator.{VmOrchestrator}
use apeiron.Executor.Orchestrator.Sections.{
  Pc, idle, spawning, restoring, registering, snapshot_checking, snapshotting, terminate_checking,
  terminating, unregistering, returned, section,
}
use apeiron.Executor.Orchestrator.Interleaving.{
  away, newborn, owner, role, failed_stop, System, FreshIds,
}
use apeiron.Executor.Orchestrator.Interleaving.Phase.{
  IsGuest, Alone, Phase, gone, arriving, owned, shared, left_behind, Effect, stays, releases,
  brings, registers, refuses, strands, unregisters,
}
use apeiron.Executor.Orchestrator.Interleaving.Updates.{
  update-Alone, update-away, update_none, IsGuest-stays, guest_apart, Alone-eq,
}

pub section-IsAscending :
    {S : Type 0} (backend : VmmBackend S) (pc : Pc) (orch : VmOrchestrator S)
    → IsAscending orch.active_vms
    → IsAscending (section backend pc orch).1.active_vms
unfolding section
section-IsAscending backend (registering handle) orch h =
    insert-IsAscending handle.id orch.active_vms h
section-IsAscending backend (unregistering id) orch h = remove-IsAscending id orch.active_vms h
section-IsAscending backend (terminate_checking handle) orch h = ground arith
section-IsAscending backend idle orch h = h
section-IsAscending backend (spawning config) orch h = h
section-IsAscending backend (restoring id) orch h = h
section-IsAscending backend (snapshot_checking handle) orch h = h
section-IsAscending backend (snapshotting handle) orch h = h
section-IsAscending backend (terminating handle) orch h = h
section-IsAscending backend (returned answer) orch h = h

module _ {S : Type 0} {backend : VmmBackend S} (fresh : FreshIds backend) where
  -- An identifier that was given stays given.
  pub section_keeps :
      (pc : Pc) (orch : VmOrchestrator S) (id : Uuid)
      → fresh.used orch.governed id ≡ true
      → fresh.used (section backend pc orch).1.governed id ≡ true
  unfolding section
  section_keeps (spawning config) orch id h = fresh.spawn_keeps config orch.governed id h
  section_keeps (restoring snapshot_id) orch id h =
      fresh.restore_keeps snapshot_id orch.governed id h
  section_keeps (snapshotting handle) orch id h = fresh.snapshot_keeps handle orch.governed id h
  section_keeps (terminating handle) orch id h = fresh.terminate_keeps handle orch.governed id h
  section_keeps (terminate_checking handle) orch id h =
      ground (arith, fresh.drop_keeps handle orch.governed id h)
  section_keeps idle orch id h = h
  section_keeps (registering handle) orch id h = h
  section_keeps (snapshot_checking handle) orch id h = h
  section_keeps (unregistering vm_id) orch id h = h
  section_keeps (returned answer) orch id h = h

module _ {S : Type 0} {backend : VmmBackend S} (fresh : FreshIds backend) where
  -- The system after a section of this task.
  abbrev pub moved : System S → ℕ → Pc → VmOrchestrator S → System S
  moved s task pc orch = record {
    orch = orch;
    tasks = update s.tasks task pc;
    held = s.held;
    stranded = λ id. failed_stop id (s.tasks task) pc || s.stranded id;
  }

  module _ (s : System S) (id : Uuid) (task : ℕ) (pc : Pc) (orch : VmOrchestrator S)
      (keeps : fresh.used s.orch.governed id ≡ true → fresh.used orch.governed id ≡ true) where
    -- A section that has nothing to do with the VM.
    record Unmoved : Type 0 where
      role_of : role id pc ≡ role id (s.tasks task)
      set_of : contains id orch.active_vms ≡ contains id s.orch.active_vms
      stop_of : failed_stop id (s.tasks task) pc ≡ false

    abbrev pub TaskEffect : Type 0
    TaskEffect = Effect fresh id (s.tasks task) pc s.orch orch

    away_effect :
        role id (s.tasks task) ≡ away → fresh.used s.orch.governed id ≡ true → TaskEffect → Unmoved
    away_effect a u (stays e c f) = record { role_of = e; set_of = c; stop_of = f }
    away_effect a u (brings e e' u' v c f) = cc
    away_effect a u (releases e e' c f) = cc
    away_effect a u (registers e e' c f) = cc
    away_effect a u (refuses e c) = cc
    away_effect a u (strands e e' c f) = cc
    away_effect a u (unregisters e e' c f) = cc

    gone_moves :
        s.held id ≡ false
        → s.stranded id ≡ false
        → contains id s.orch.active_vms ≡ false
        → ((other : ℕ) → role id (s.tasks other) ≡ away)
        → role id (s.tasks task) ≡ away
        → TaskEffect
        → Phase fresh id (moved s task pc orch)
    gone_moves h k n a r (stays e c f) =
        gone h (rw (f, k)) (c ∙ n) (update_all (λ p. role id p ≡ away) s.tasks task pc a (e ∙ r))
    gone_moves h k n a r (brings e e' u u' c f) =
        arriving task u' h (rw (f, k)) (c ∙ n) (ap (role id) (update_same s.tasks task pc) ∙ e')
          (update-Alone s.tasks id task pc λ other ne. a other)
    gone_moves h k n a r (releases e e' c f) = cc
    gone_moves h k n a r (registers e e' c f) = cc
    gone_moves h k n a r (refuses e c) = cc
    gone_moves h k n a r (strands e e' c f) = cc
    gone_moves h k n a r (unregisters e e' c f) = cc

    -- The task that brings the VM up goes on.
    arriving_moves :
        fresh.used s.orch.governed id ≡ true
        → s.held id ≡ false
        → s.stranded id ≡ false
        → contains id s.orch.active_vms ≡ false
        → role id (s.tasks task) ≡ newborn
        → Alone s.tasks id task
        → TaskEffect
        → Phase fresh id (moved s task pc orch)
    arriving_moves u h k n r a (stays e c f) =
        arriving task (keeps u) h (rw (f, k)) (c ∙ n)
          (ap (role id) (update_same s.tasks task pc) ∙ e ∙ r) (update-Alone s.tasks id task pc a)
    arriving_moves u h k n r a (registers e e' c f) =
        owned task (keeps u) h (rw (f, k)) c (ap (role id) (update_same s.tasks task pc) ∙ e')
          (update-Alone s.tasks id task pc a)
    arriving_moves u h k n r a (brings e e' u' v c f) = cc
    arriving_moves u h k n r a (releases e e' c f) = cc
    arriving_moves u h k n r a (refuses e c) = cc
    arriving_moves u h k n r a (strands e e' c f) = cc
    arriving_moves u h k n r a (unregisters e e' c f) = cc

    -- The task that owns the VM goes on.
    owned_moves :
        fresh.used s.orch.governed id ≡ true
        → s.held id ≡ false
        → s.stranded id ≡ false
        → contains id s.orch.active_vms ≡ true
        → role id (s.tasks task) ≡ owner
        → Alone s.tasks id task
        → TaskEffect
        → Phase fresh id (moved s task pc orch)
    owned_moves u h k n r a (stays e c f) =
        owned task (keeps u) h (rw (f, k)) (c ∙ n)
          (ap (role id) (update_same s.tasks task pc) ∙ e ∙ r) (update-Alone s.tasks id task pc a)
    owned_moves u h k n r a (strands e e' c f) =
        left_behind (keeps u) h (rw f) (c ∙ n) (update_none s.tasks id task pc e' a)
    owned_moves u h k n r a (unregisters e e' c f) =
        gone h (rw (f, k)) c (update_none s.tasks id task pc e' a)
    owned_moves u h k n r a (refuses e c) = cc
    owned_moves u h k n r a (brings e e' u' v c f) = cc
    owned_moves u h k n r a (releases e e' c f) = cc
    owned_moves u h k n r a (registers e e' c f) = cc

    -- A task goes on while the clients hold the handle.
    shared_moves :
        fresh.used s.orch.governed id ≡ true
        → s.held id ≡ true
        → s.stranded id ≡ false
        → contains id s.orch.active_vms ≡ true
        → ((other : ℕ) → IsGuest id (s.tasks other))
        → IsGuest id (s.tasks task)
        → TaskEffect
        → Phase fresh id (moved s task pc orch)
    shared_moves u h k n g r (stays e c f) =
        shared (keeps u) h (rw (f, k)) (c ∙ n)
          (update_all (IsGuest id) s.tasks task pc g (IsGuest-stays id _ _ r e))
    shared_moves u h k n g r (releases e e' c f) =
        shared (keeps u) h (rw (f, k)) (c ∙ n) (update_all (IsGuest id) s.tasks task pc g (inl e'))
    shared_moves u h k n g r (brings e e' u' v c f) = cc
    shared_moves u h k n g r (registers e e' c f) = guest_apart id _ r (inl e)
    shared_moves u h k n g r (refuses e c) = guest_apart id _ r (inr e)
    shared_moves u h k n g r (strands e e' c f) = guest_apart id _ r (inr e)
    shared_moves u h k n g r (unregisters e e' c f) = guest_apart id _ r (inr e)

    pub moves : Phase fresh id s → TaskEffect → Phase fresh id (moved s task pc orch)
    moves (gone h k n a) e = gone_moves h k n a (a task) e
    moves (shared u h k n g) e = shared_moves u h k n g (g task) e
    moves (left_behind u h k n a) e =
        let m = away_effect (a task) u e in
        left_behind (keeps u) h (rw (m.stop_of, k)) (m.set_of ∙ n)
          (update_all (λ p. role id p ≡ away) s.tasks task pc a (m.role_of ∙ a task))
    moves (arriving holder u h k n r a) e = elim (Bool-cases (task == holder)) [
      | inl q ↦
          (let p = (==_iff task holder).0 q in
            arriving_moves u h k n (ap (λ t. role id (s.tasks t)) p ∙ r)
              (Alone-eq s.tasks id task holder p a) e)
      | inr q ↦
          (let m = away_effect (a task (differ task holder q)) u e in
            arriving holder (keeps u) h (rw (m.stop_of, k)) (m.set_of ∙ n)
              (ap (role id)
                  (update_other s.tasks task holder pc (λ z. differ task holder q (sym z)))
                ∙ r)
              (update-away s.tasks id holder task pc (m.role_of ∙ a task (differ task holder q)) a))
    ]
    moves (owned holder u h k n r a) e = elim (Bool-cases (task == holder)) [
      | inl q ↦
          (let p = (==_iff task holder).0 q in
            owned_moves u h k n (ap (λ t. role id (s.tasks t)) p ∙ r)
              (Alone-eq s.tasks id task holder p a) e)
      | inr q ↦
          (let m = away_effect (a task (differ task holder q)) u e in
            owned holder (keeps u) h (rw (m.stop_of, k)) (m.set_of ∙ n)
              (ap (role id)
                  (update_other s.tasks task holder pc (λ z. differ task holder q (sym z)))
                ∙ r)
              (update-away s.tasks id holder task pc (m.role_of ∙ a task (differ task holder q)) a))
    ]
