-- ===== src/Executor/Managed/Calls.antt =====
-- A client's calls keep the orchestrator over Firecracker exact (forge-executor/src/orchestrator.rs,
-- firecracker.rs).
use apeiron.Base.{
  arith, ℕ, ◌+◌, ◌≡◌, refl, List, [], ◌∷◌, some, count, length, Option-cases, Bool-cases, inl, inr,
}
use apeiron.Base.Counts.{pick}
use apeiron.Core.Id.{Uuid}
use apeiron.Std.BTreeSet.{contains}
use apeiron.Executor.Config.{VmConfig, SnapshotId, VmHandle, Pid}
use apeiron.Executor.Action.{Result, ok, err, panicked, pure, continue, ◌>>◌}
use apeiron.Executor.Host.{Env, Trace}
use apeiron.Executor.Firecracker.{FirecrackerBackend}
use apeiron.Executor.Firecracker.Lifecycle
use apeiron.Executor.Firecracker.Snapshot
use apeiron.Executor.Firecracker.Processes.{undropped, without}
use apeiron.Executor.Firecracker.Handles.{
  owned, spawn-Owns, restore-Owns, snapshot-undropped, terminate-undropped,
}
use apeiron.Executor.Firecracker.Ownership.{and_returned}
use apeiron.Executor.Firecracker.Identifiers.{
  drawn, NeverTwice, DrawsOne, drawn_stays, spawn-DrawsOne, restore-DrawsOne, snapshot-drawn,
  terminate-drawn,
}
use apeiron.Executor.Orchestrator.{
  register, unregister, new, active_count, spawn, snapshot, restore, terminate,
}
use apeiron.Executor.Managed.{
  Client, Demand, spawn_one, restore_one, snapshot_nth, terminate_nth, and_lost, demand, demand_all,
}
use apeiron.Executor.Managed.Exact.{IsExact, ids, pids, bit, kept-IsExact, returned-IsExact}
use apeiron.Executor.Managed.Ended.{picked-registered, unregistered-IsExact, lost-IsExact}

module _ {env : Env} (never : NeverTwice env) (self : FirecrackerBackend) where
  -- The backend brought up a VM, or failed to, and the orchestrator registers what comes back.
  brought-IsExact :
      (s : Client) (r : Result VmHandle) (t : Trace)
      → DrawsOne env (r, t) s.orch.governed
      → undropped t ≡ owned r (undropped s.orch.governed)
      → IsExact env s
      → let (r', orch) =
          continue r
            (λ handle. register handle.id >> pure handle)
            (record { governed = t; active_vms = s.orch.active_vms }) in
        IsExact env (record { handles = and_returned r' s.handles; lost = s.lost; orch = orch })
  unfolding owned and_returned
  brought-IsExact s (ok handle) t d l h = returned-IsExact never s handle t d l h
  brought-IsExact s (err e) t d l h =
      kept-IsExact env s t l (λ id. drawn_stays never (err e, t) s.orch.governed id d) h
  brought-IsExact s panicked t d l h =
      kept-IsExact env s t l (λ id. drawn_stays never (panicked, t) s.orch.governed id d) h

  spawn-IsExact :
      (config : VmConfig) (s : Client)
      → IsExact env s
      → IsExact env (demand env self (spawn_one config) s)
  unfolding demand spawn
  spawn-IsExact config s h =
      brought-IsExact s _ _ (spawn-DrawsOne env self config s.orch.governed)
        ((spawn-Owns env self config).at s.orch.governed) h

  restore-IsExact :
      (id : SnapshotId) (s : Client)
      → IsExact env s
      → IsExact env (demand env self (restore_one id) s)
  unfolding demand restore
  restore-IsExact id s h =
      brought-IsExact s _ _ (restore-DrawsOne env self id s.orch.governed)
        ((restore-Owns env self id).at s.orch.governed) h

  snapshot-IsExact :
      (n : ℕ) (s : Client) → IsExact env s → IsExact env (demand env self (snapshot_nth n) s)
  unfolding demand snapshot
  snapshot-IsExact n s h = elim (Option-cases (pick n s.handles)) [
    | inl q ↦ rw (demand, q) h
    | inr ((handle, rest), q) ↦ elim (Bool-cases (contains handle.id s.orch.active_vms)) [
      | inl c ↦
          rw (demand, q, c)
            (kept-IsExact env s (Snapshot.snapshot env self handle s.orch.governed).1
              ((snapshot-undropped env self handle).at s.orch.governed)
              (snapshot-drawn never self handle s.orch.governed) h)
      | inr c ↦ rw (demand, q, c) h
    ]
  ]

  -- The backend ended a VM, or failed to, and the orchestrator takes it out of the registry or not.
  ended-IsExact :
      (n : ℕ) (s : Client) (handle : VmHandle) (rest : List VmHandle) (r : Result (Unit {0}))
      (t : Trace)
      → pick n s.handles ≡ some (handle, rest)
      → undropped t ≡ without handle.process (undropped s.orch.governed)
      → ((id : Uuid) → drawn env t id ≡ drawn env s.orch.governed id)
      → IsExact env s
      → let (r', orch) =
          continue r
            (λ u. unregister handle.id)
            (record { governed = t; active_vms = s.orch.active_vms }) in
        IsExact env (record { handles = rest; lost = and_lost r' handle.id s.lost; orch = orch })
  unfolding and_lost
  ended-IsExact n s handle rest (ok u) t q l d h =
      unregistered-IsExact env s n handle rest t q h l d
  ended-IsExact n s handle rest (err e) t q l d h = lost-IsExact env s n handle rest t q h l d
  ended-IsExact n s handle rest panicked t q l d h = lost-IsExact env s n handle rest t q h l d

  terminate-IsExact :
      (n : ℕ) (s : Client) → IsExact env s → IsExact env (demand env self (terminate_nth n) s)
  unfolding demand terminate
  terminate-IsExact n s h = elim (Option-cases (pick n s.handles)) [
    | inl q ↦ rw (demand, q) h
    | inr ((handle, rest), q) ↦
        (let c = picked-registered env s n handle rest q h in
          rw (demand, q, c)
            (ended-IsExact n s handle rest (Lifecycle.terminate env self handle s.orch.governed).0
              (Lifecycle.terminate env self handle s.orch.governed).1 q
              (terminate-undropped env self handle s.orch.governed)
              (terminate-drawn never self handle s.orch.governed) h))
  ]

  demand-IsExact : (d : Demand) (s : Client) → IsExact env s → IsExact env (demand env self d s)
  demand-IsExact (spawn_one config) s h = spawn-IsExact config s h
  demand-IsExact (restore_one id) s h = restore-IsExact id s h
  demand-IsExact (snapshot_nth n) s h = snapshot-IsExact n s h
  demand-IsExact (terminate_nth n) s h = terminate-IsExact n s h

  demand_all-IsExact :
      (ds : List Demand) (s : Client) → IsExact env s → IsExact env (demand_all env self ds s)
  unfolding demand_all
  demand_all-IsExact [] s h = h
  demand_all-IsExact (d ∷ ds) s h =
      demand_all-IsExact ds (demand env self d s) (demand-IsExact d s h)

-- A client with no handle, of a new orchestrator whose backend has done nothing.
abbrev pub new_client : Client
new_client = record { handles = []; lost = []; orch = new [] }

-- What holds between the client's handles, the registry and the processes that were not dropped.
pub record Agree (s : Client) : Type 0 where
  pub kept : (p : Pid) → count p (undropped s.orch.governed) ≡ count p (pids s.handles)
  pub registered :
      (id : Uuid) → bit (contains id s.orch.active_vms) ≡ count id (ids s.handles) + count id s.lost
  pub counted : active_count s.orch ≡ length (undropped s.orch.governed) + length s.lost

-- The host draws no identifier twice. After any calls on a new orchestrator over Firecracker by a
-- client that keeps the handles it is given, whatever the outside answers: the processes that were
-- started and not dropped are those of the client's handles, each as often; the registry has exactly
-- the identifiers of these handles and of those whose terminate failed, and no two of these are equal;
-- so `active_count` is the number of processes not dropped and of failed terminates together. A process
-- that ended by itself, its handle still there, is among those counted.
pub demand_all-Agree :
    (env : Env) (self : FirecrackerBackend) (ds : List Demand)
    → NeverTwice env
    → Agree (demand_all env self ds new_client)
unfolding new undropped active_count contains
demand_all-Agree env self ds never =
    let h = demand_all-IsExact never self ds new_client (record {
      ascending = tt;
      known = λ id c. cc;
      registered = λ id. refl;
      kept = λ p. refl;
      number = refl;
      counted = refl;
    }) in
    record {
      kept = h.kept;
      registered = h.registered;
      counted = omega (arith, h.counted, h.number);
    }
