-- ===== src/Executor/Managed/Ended.antt =====
-- What the end of a VM leaves of an exact orchestrator over Firecracker (forge-executor/src/orchestrator.rs,
-- firecracker.rs): the process has ended with its handle, and the registry follows or not.
use apeiron.Base.{
  ℕ, suc, ◌≤◌, ◌≡◌, ap, ◌∙◌, true, ◌==◌, List, [], ◌∷◌, arith, count, ==_iff, some, Bool-cases, inl,
  inr, length, if◌then◌else◌,
}
use apeiron.Base.Counts.{pick, pick-count, pick-length}
use apeiron.Core.Id.{Uuid}
use apeiron.Std.BTreeSet.{
  contains, IsAscending, contains-remove, remove-IsAscending, length-remove, remove,
}
use apeiron.Executor.Config.{Pid, VmHandle}
use apeiron.Executor.Host.{Env, Trace}
use apeiron.Executor.Firecracker.Processes.{without, undropped}
use apeiron.Executor.Firecracker.Identifiers.{drawn}
use apeiron.Executor.Orchestrator.{active_count}
use apeiron.Executor.Managed.{Client}
use apeiron.Executor.Managed.Exact.{IsExact, pids, bit}

count-without :
    (p q : Pid) (ps : List Pid) → 1 ≤ count p ps → count q ps ≡ count q (p ∷ without p ps)
unfolding without
count-without p q [] h = absurd (omega arith)
count-without p q (x ∷ ps) h = ground (arith, count-without p q ps)

length-without :
    (p : Pid) (ps : List Pid) → 1 ≤ count p ps → length ps ≡ suc (length (without p ps))
unfolding without
length-without p [] h = absurd (omega arith)
length-without p (x ∷ ps) h = ground (arith, length-without p ps)

bit-remove :
    (x a : Uuid) (xs : List Uuid)
    → IsAscending xs
    → contains a xs ≡ true
    → bit (contains x xs)
      ≡ (if a == x then suc (bit (contains x (remove a xs))) else bit (contains x (remove a xs)))
bit-remove x a xs h c = elim (Bool-cases (x == a)) [
  | inl q ↦
      (let e = ap (λ y. contains y xs) ((==_iff x a).0 q) in
        ground (arith, contains-remove x a xs h, c, e))
  | inr q ↦ ground (arith, contains-remove x a xs h)
]

-- A handle that was picked is registered, and its process runs.
module _ (env : Env) (s : Client) (n : ℕ) (handle : VmHandle) (rest : List VmHandle)
    (chosen : pick n s.handles ≡ some (handle, rest)) (h : IsExact env s) where
  pub picked-registered : contains handle.id s.orch.active_vms ≡ true
  picked-registered = ground (
    arith,
    h.registered handle.id,
    pick-count (λ (x : VmHandle). x.id) handle.id n s.handles handle rest chosen,
  )

  picked-runs : 1 ≤ count handle.process (undropped s.orch.governed)
  picked-runs = ground (
    arith,
    h.kept handle.process,
    pick-count (λ (x : VmHandle). x.process) handle.process n s.handles handle rest chosen,
  )

-- The process of a handle that was picked ended with the handle; the registry is as it was, or is
-- without it.
module _ (env : Env) (s : Client) (n : ℕ) (handle : VmHandle) (rest : List VmHandle) (t : Trace)
    (chosen : pick n s.handles ≡ some (handle, rest)) (h : IsExact env s)
    (l : undropped t ≡ without handle.process (undropped s.orch.governed))
    (d : (id : Uuid) → drawn env t id ≡ drawn env s.orch.governed id) where
  rest-kept : (p : Pid) → count p (undropped t) ≡ count p (pids rest)
  rest-kept p =
      ap (count p) l
      ∙ ground (
        arith,
        h.kept p,
        count-without handle.process p (undropped s.orch.governed)
            (picked-runs env s n handle rest chosen h),
        pick-count (λ (x : VmHandle). x.process) p n s.handles handle rest chosen,
      )

  rest-number : length (undropped t) ≡ length rest
  rest-number =
      ap length l
      ∙ omega (
        arith,
        h.number,
        length-without handle.process (undropped s.orch.governed)
            (picked-runs env s n handle rest chosen h),
        pick-length n s.handles handle rest chosen,
      )

  pub unregistered-IsExact : IsExact env (record {
    handles = rest;
    lost = s.lost;
    orch = record { governed = t; active_vms = remove handle.id s.orch.active_vms };
  })
  unfolding active_count
  unregistered-IsExact = record {
    ascending = remove-IsAscending handle.id s.orch.active_vms h.ascending;
    known = λ id e.
        d id
        ∙ h.known id
            (ground (arith, contains-remove id handle.id s.orch.active_vms h.ascending, e));
    registered = λ id. ground (
      arith,
      h.registered id,
      bit-remove id handle.id s.orch.active_vms h.ascending
          (picked-registered env s n handle rest chosen h),
      pick-count (λ (x : VmHandle). x.id) id n s.handles handle rest chosen,
    );
    kept = rest-kept;
    number = rest-number;
    counted = omega (
      arith,
      h.counted,
      length-remove handle.id s.orch.active_vms (picked-registered env s n handle rest chosen h),
      pick-length n s.handles handle rest chosen,
    );
  }

  pub lost-IsExact : IsExact env (record {
    handles = rest;
    lost = handle.id ∷ s.lost;
    orch = record { governed = t; active_vms = s.orch.active_vms };
  })
  unfolding active_count
  lost-IsExact = record {
    ascending = h.ascending;
    known = λ id e. d id ∙ h.known id e;
    registered = λ id. ground (
      arith,
      h.registered id,
      pick-count (λ (x : VmHandle). x.id) id n s.handles handle rest chosen,
    );
    kept = rest-kept;
    number = rest-number;
    counted = omega (arith, h.counted, pick-length n s.handles handle rest chosen);
  }
