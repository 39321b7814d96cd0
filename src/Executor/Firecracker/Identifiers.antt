-- ===== src/Executor/Firecracker/Identifiers.antt =====
-- The identifiers that the Firecracker backend (forge-executor/src/firecracker.rs) draws: where the host
-- draws none twice, no two handles have one.
use apeiron.Base.{
  ℕ, zero, suc, ◌≡◌, ◌∙◌, refl, ap, Bool, true, false, ◌||◌, ◌==◌, ◌⊎◌, List, Text, [], ◌∷◌, inl,
  inr, arith,
}
use apeiron.Base.Outcome.{Outcome, value, panic}
use apeiron.Core.Id.{Uuid}
use apeiron.Std.FilePath.{PathBuf}
use apeiron.Executor.Config.{VmConfig, SnapshotId, Pid, VmHandle, new_vm_handle}
use apeiron.Executor.Action.{Result, ok, err, panicked}
use apeiron.Executor.Host.{Env, Trace, Json, Answer-cases, drew_uuid, sleep}
use apeiron.Executor.Orchestrator.Interleaving.{FreshIds}
use apeiron.Executor.Firecracker.Instance.{firecracker}
use apeiron.Executor.Firecracker.{FirecrackerBackend}
use apeiron.Executor.Firecracker.Lifecycle.{spawn, restore, terminate}
use apeiron.Executor.Firecracker.Snapshot.{snapshot}
use apeiron.Executor.Firecracker.Spawning.{SpawnEnd, LaunchEnd, BootEnd, booted, spawn_lem}
use apeiron.Executor.Firecracker.Restoring.{RestoreEnd, LoadEnd, loaded, restore_lem}
use apeiron.Executor.Firecracker.Requests.{
  SnapshotEnd, PauseEnd, CreateEnd, pause_call, resume_call, create_call, snapshot_lem,
}
use apeiron.Executor.Firecracker.Waiting.{after_naps}
use apeiron.Executor.Firecracker.Booting.{Attempts, put_call}

-- Whether an identifier was drawn.
unfoldable pub drawn : Env → Trace → Uuid → Bool
drawn env [] id = false
drawn env (drew_uuid ∷ t) id = env.random t == id || drawn env t id
drawn env (_ ∷ t) id = drawn env t id

-- `Uuid::new_v4` gives no identifier twice.
pub record NeverTwice (env : Env) : Type 0 where
  pub unseen : (t : Trace) → drawn env t (env.random t) ≡ false

module _ (env : Env) (id : Uuid) where
  drawn-after_naps : (k : ℕ) (t : Trace) → drawn env (after_naps k t) id ≡ drawn env t id
  unfolding drawn after_naps
  drawn-after_naps zero t = refl
  drawn-after_naps (suc k) t = drawn-after_naps k (sleep 100 ∷ t)

  -- Requests draw nothing.
  drawn-Attempts :
      (socket : PathBuf) (requests : List (Text × Outcome Json)) (t : Trace)
      (r : Result (Unit {0}) × Trace)
      → Attempts env socket requests t r
      → drawn env r.1 id ≡ drawn env t id
  unfolding drawn Attempts put_call
  drawn-Attempts socket [] t r q = rw q refl
  drawn-Attempts socket ((uri, panic) ∷ rest) t r q = rw q refl
  drawn-Attempts socket ((uri, value body) ∷ rest) t r (inl (e, answer, q)) = rw q refl
  drawn-Attempts socket ((uri, value body) ∷ rest) t r (inr (a, answer, h)) =
      drawn-Attempts socket rest (put_call env socket uri body ∷ t) r h

-- What a method that brings a VM up draws: nothing, or one identifier, which is the handle's.
unfoldable pub DrawsOne : Env → Result VmHandle × Trace → Trace → Type 0
DrawsOne env (ok handle, t') t =
    (handle.id ≡ env.random t)
    × ((id : Uuid) → drawn env t' id ≡ (env.random t == id || drawn env t id))
DrawsOne env (_, t') t =
    ((id : Uuid) → drawn env t' id ≡ drawn env t id)
    ⊎ ((id : Uuid) → drawn env t' id ≡ (env.random t == id || drawn env t id))

-- What a process whose requests are over has drawn.
module _ (env : Env) (t s : Trace) (socket : PathBuf) (pid : Pid) where
  booted-DrawsOne :
      (config : VmConfig) (sent : Result (Unit {0}) × Trace)
      → ((id : Uuid) → drawn env sent.1 id ≡ (env.random t == id || drawn env t id))
      → DrawsOne env (booted env config (env.random t) socket pid s sent) t
  unfolding booted DrawsOne drawn new_vm_handle
  booted-DrawsOne config (ok u, t') h = (refl, h)
  booted-DrawsOne config (err e, t') h = inr h
  booted-DrawsOne config (panicked, t') h = inr h

  loaded-DrawsOne :
      (id : SnapshotId) (body : Outcome Json) (sent : Result (Unit {0}) × Trace)
      → ((id : Uuid) → drawn env sent.1 id ≡ (env.random t == id || drawn env t id))
      → DrawsOne env (loaded env id body (env.random t) socket pid s sent) t
  unfolding loaded DrawsOne drawn new_vm_handle
  loaded-DrawsOne id body (ok u, t') h = (refl, h)
  loaded-DrawsOne id body (err e, t') h = inr h
  loaded-DrawsOne id body (panicked, t') h = inr h

module _ (env : Env) (self : FirecrackerBackend) where
  pub spawn-DrawsOne : (config : VmConfig) (t : Trace) → DrawsOne env (spawn env self config t) t
  unfolding SpawnEnd LaunchEnd BootEnd DrawsOne drawn
  spawn-DrawsOne config t = elim (spawn_lem env self config t) [
    | inl (kvm, q) ↦ rw q (inl λ id. refl)
    | inr (kvm, inl (there, q)) ↦ rw q (inl λ id. refl)
    | inr (kvm, inr (there, inl (e, made, q))) ↦ rw q (inr λ id. refl)
    | inr (kvm, inr (there, inr (made, inl (e, start, q)))) ↦ rw q (inr λ id. refl)
    | inr (kvm, inr (there, inr (made, inr (pid, start, inl (absent, q))))) ↦
        rw q (inr λ id. drawn-after_naps env id 50 _)
    | inr (kvm, inr (there, inr (made, inr (pid, start, inr (k, l, appears, sent, h, q))))) ↦ rw q (
        booted-DrawsOne env t _ _ pid config sent
          λ id. drawn-Attempts env id _ _ _ sent h ∙ drawn-after_naps env id k _)
  ]

  pub restore-DrawsOne :
      (snapshot_id : SnapshotId) (t : Trace) → DrawsOne env (restore env self snapshot_id t) t
  unfolding RestoreEnd LoadEnd DrawsOne drawn
  restore-DrawsOne snapshot_id t = elim (restore_lem env self snapshot_id t) [
    | inl (missing, q) ↦ rw q (inl λ id. refl)
    | inr (there, inl (e, made, q)) ↦ rw q (inr λ id. refl)
    | inr (there, inr (made, inl (e, start, q))) ↦ rw q (inr λ id. refl)
    | inr (there, inr (made, inr (pid, start, inl (absent, q)))) ↦
        rw q (inr λ id. drawn-after_naps env id 50 _)
    | inr (there, inr (made, inr (pid, start, inr (k, l, appears, sent, h, q)))) ↦ rw q (
        loaded-DrawsOne env t _ _ pid snapshot_id _ sent
          λ id. drawn-Attempts env id _ _ _ sent h ∙ drawn-after_naps env id k _)
  ]

-- With no identifier drawn twice, the handle's is new.
module _ {env : Env} (never : NeverTwice env) where
  handle_new :
      (r : Result VmHandle × Trace) (t t' : Trace) (handle : VmHandle)
      → DrawsOne env r t
      → r ≡ (ok handle, t')
      → (drawn env t handle.id ≡ false) × (drawn env t' handle.id ≡ true)
  unfolding DrawsOne
  handle_new r t t' handle d q =
      let d' : DrawsOne env (ok handle, t') t = rw q at d in
      (ap (drawn env t) d'.0 ∙ never.unseen t, d'.1 handle.id ∙ ground (arith, d'.0))

  pub drawn_stays :
      (r : Result VmHandle × Trace) (t : Trace) (id : Uuid)
      → DrawsOne env r t
      → drawn env t id ≡ true
      → drawn env r.1 id ≡ true
  unfolding DrawsOne
  drawn_stays (ok handle, t') t id (p, e) d = e id ∙ ground arith
  drawn_stays (err x, t') t id (inl e) d = e id ∙ d
  drawn_stays (err x, t') t id (inr e) d = e id ∙ ground arith
  drawn_stays (panicked, t') t id (inl e) d = e id ∙ d
  drawn_stays (panicked, t') t id (inr e) d = e id ∙ ground arith

  pub snapshot-drawn :
      (self : FirecrackerBackend) (handle : VmHandle) (t : Trace) (id : Uuid)
      → drawn env t id ≡ true
      → drawn env (snapshot env self handle t).1 id ≡ true
  unfolding SnapshotEnd PauseEnd CreateEnd pause_call resume_call create_call drawn
  snapshot-drawn self handle t id d = elim (snapshot_lem env self handle t) [
    | inl (e, made, q) ↦ rw q (ground (arith, d))
    | inr (made, inl (e, paused, q)) ↦ rw q (ground (arith, d))
    | inr (made, inr (a, paused, inl (json, q))) ↦ rw q (ground (arith, d))
    | inr (made, inr (a, paused, inr (body, json, q))) ↦ rw q (ground (arith, d))
  ]

  pub terminate-drawn :
      (self : FirecrackerBackend) (handle : VmHandle) (t : Trace) (id : Uuid)
      → drawn env (terminate env self handle t).1 id ≡ drawn env t id
  unfolding terminate drawn
  terminate-drawn self handle t id = elim (Answer-cases (env.kill t handle.process)) [
    | inl (u, q) ↦ rw q refl
    | inr (e, q) ↦ rw q refl
  ]

  -- The backend gives no identifier twice, as the tasks that share an orchestrator rely on.
  pub firecracker-FreshIds : (self : FirecrackerBackend) → FreshIds (firecracker env self)
  unfolding drawn
  firecracker-FreshIds self = record {
    used = drawn env;
    spawn_new = λ config s t handle e.
        handle_new (spawn env self config s) s t handle (spawn-DrawsOne env self config s) e;
    restore_new = λ id s t handle e.
        handle_new (restore env self id s) s t handle (restore-DrawsOne env self id s) e;
    spawn_keeps = λ config s id d. drawn_stays _ s id (spawn-DrawsOne env self config s) d;
    restore_keeps =
        λ snapshot_id s id d. drawn_stays _ s id (restore-DrawsOne env self snapshot_id s) d;
    snapshot_keeps = λ handle s id d. snapshot-drawn self handle s id d;
    terminate_keeps = λ handle s id d. terminate-drawn self handle s id ∙ d;
    drop_keeps = λ handle s id d. d;
  }
