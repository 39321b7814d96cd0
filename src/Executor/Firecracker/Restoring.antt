-- ===== src/Executor/Firecracker/Restoring.antt =====
-- The order of what `restore` (forge-executor/src/firecracker.rs) does: the process, its socket, the
-- request that loads the snapshot, and the handle.
use apeiron.Base.{
  ℕ, ◌<◌, ◌≡◌, refl, true, false, not, Bool, ◌||◌, Bool-cases, inl, inr, ◌⊎◌, Text, [], ◌∷◌, ◌++◌,
  codes,
}
use apeiron.Base.Outcome.{Outcome}
use apeiron.Core.Id.{Uuid}
use apeiron.Std.FilePath.{PathBuf}
use apeiron.Executor.ExecutorError.{IoError, io, spawn_failed, restore_failed}
use apeiron.Executor.Config.{SnapshotId, Pid, VmHandle, new_vm_handle}
use apeiron.Executor.Action.{
  Action, Result, ok, err, panicked, pure, continue, map_result, ◌>>=◌, ◌>>◌,
}
use apeiron.Executor.Host.{
  Answer-cases, done, failed, drop_on_error, clock, Env, Trace, Json, create_dir_all, drew_uuid,
  read_clock, started, dropped, holding,
}
use apeiron.Executor.Firecracker.{
  FirecrackerBackend, put_json, to_string, socket_path, snapshot_mem_path, snapshot_state_path,
}
use apeiron.Executor.Firecracker.Lifecycle.{exec_failed, load_body, load_up, restore}
use apeiron.Executor.Firecracker.Booting.{Attempts, put_json-Attempts, no_more-Attempts}
use apeiron.Executor.Firecracker.Waiting.{after_naps, IsAbsent, AppearsAfter, wait_for_socket_lem}

-- What a process that was started goes through: the trace `s` is that of its start.
module _ (env : Env) (snapshot_id : SnapshotId) (body : Outcome Json) (vm_id : Uuid)
    (socket : PathBuf) (pid : Pid) (s : Trace) where
  -- What the end of the request leads to: a handle, or the process is dropped.
  unfoldable pub loaded : Result (Unit {0}) × Trace → Result VmHandle × Trace
  loaded (ok u, t) = (ok (new_vm_handle vm_id socket pid (env.now t)), read_clock ∷ t)
  loaded (err e, t) = (err (restore_failed snapshot_id.uuid (to_string env e)), dropped pid ∷ t)
  loaded (panicked, t) = (panicked, dropped pid ∷ t)

  -- The socket does not appear in time, or it does and the request is sent.
  unfoldable pub LoadEnd : Result VmHandle × Trace → Type 0
  LoadEnd r =
      (IsAbsent env socket 50 s
        × (r ≡ (
          err (
              restore_failed snapshot_id.uuid (
                to_string env (
                  spawn_failed
                    (codes "socket " ++ (socket ++ codes " did not appear within 5s"))))),
          dropped pid ∷ after_naps 50 s,
        )))
      ⊎ ((k : ℕ) × (k < 50)
          × AppearsAfter env socket k s
          × (sent : Result (Unit {0}) × Trace) × Attempts env socket
              ((codes "/snapshot/load", body) ∷ []) (after_naps k s) sent
          × (r ≡ loaded sent))

  abbrev load : Action Trace (Unit {0})
  load = put_json env socket (codes "/snapshot/load") body >> pure tt

  -- What is done behind the request.
  loaded_after :
      (r : Result Text) (t : Trace)
      → drop_on_error pid (
          continue
            (map_result (λ e. restore_failed snapshot_id.uuid (to_string env e)) r)
            (λ _. clock env >>= λ now. pure (new_vm_handle vm_id socket pid now))
            t)
        ≡ loaded (continue r (λ _. pure tt) t)
  unfolding loaded
  loaded_after (ok u) t = refl
  loaded_after (err e) t = refl
  loaded_after panicked t = refl

  load_up_lem : LoadEnd (holding pid (load_up env snapshot_id body vm_id socket pid) s)
  unfolding load_up LoadEnd
  load_up_lem = elim (wait_for_socket_lem env socket s) [
    | inr (absent, q) ↦ inl (absent, rw q refl)
    | inl (k, l, there, q) ↦
        (let answer = put_json env socket (codes "/snapshot/load") body (after_naps k s) in
          inr (
            k,
            l,
            there,
            load (after_naps k s),
            put_json-Attempts env socket (codes "/snapshot/load") body [] (pure tt) (after_naps k s)
                (λ t. no_more-Attempts env socket t),
            rw q (loaded_after answer.0 answer.1),
          ))
  ]

module _ (env : Env) (self : FirecrackerBackend) (snapshot_id : SnapshotId) (t : Trace) where
  abbrev mem_path : PathBuf
  mem_path = snapshot_mem_path env self snapshot_id

  abbrev state_path : PathBuf
  state_path = snapshot_state_path env self snapshot_id

  abbrev missing : Bool
  missing = not (env.exists t mem_path) || not (env.exists t state_path)

  abbrev socket : PathBuf
  socket = socket_path env self (env.random t)

  -- The trace once the directory of the sockets was asked for.
  abbrev made : Trace
  made = create_dir_all self.socket_dir ∷ drew_uuid ∷ t

  unfoldable pub RestoreEnd : Result VmHandle × Trace → Type 0
  RestoreEnd r =
      ((missing ≡ true)
        × (r ≡ (
          err (restore_failed snapshot_id.uuid (codes "snapshot files not found at " ++ mem_path)),
          t,
        )))
      ⊎ ((missing ≡ false)
          × (((e : IoError) × (env.make_dirs (drew_uuid ∷ t) self.socket_dir ≡ failed e)
                × (r ≡ (err (io e), made)))
              ⊎ ((env.make_dirs (drew_uuid ∷ t) self.socket_dir ≡ done tt)
                  × (((e : IoError) × (env.spawn made self.binary_path socket ≡ failed e)
                        × (r ≡ (err (restore_failed snapshot_id.uuid (exec_failed env e)), made)))
                      ⊎ ((pid : Pid) × (env.spawn made self.binary_path socket ≡ done pid)
                          × LoadEnd env snapshot_id (load_body env state_path mem_path)
                              (env.random t) socket pid (started pid self.binary_path socket ∷ made)
                              r)))))

  -- A restore first looks for the two files of the snapshot, and does nothing else if one is missing.
  -- Otherwise it fails because the directory cannot be made or the process not started, or starts one
  -- process. Then it waits for the socket, up to 50 times 100 ms; only once the socket is there it
  -- sends one request, to load the two files through that socket. If it succeeds, the restore returns a
  -- handle with the identifier that was drawn, the socket and the process. If it fails, the process is
  -- dropped and the error names the snapshot; if a path of the snapshot is not UTF-8, nothing is sent, the
  -- process is dropped and the restore panics.
  pub restore_lem : RestoreEnd (restore env self snapshot_id t)
  unfolding restore RestoreEnd
  restore_lem = elim (Bool-cases missing) [
    | inl m ↦ inl (m, rw m refl)
    | inr m ↦ inr (
      m,
      elim (Answer-cases (env.make_dirs (drew_uuid ∷ t) self.socket_dir)) [
        | inr (e, q) ↦ inl (e, q, rw (m, q) refl)
        | inl (u, q) ↦ inr (
          q,
          elim (Answer-cases (env.spawn made self.binary_path socket)) [
            | inr (e, q') ↦ inl (e, q', rw (m, q, q') refl)
            | inl (pid, q') ↦ inr (pid, q', rw (m, q, q') (load_up_lem env _ _ _ _ pid _))
          ],
        )
      ],
    )
  ]
