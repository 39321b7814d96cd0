-- ===== src/Executor/Firecracker/Spawning.antt =====
-- The order of what `spawn` (forge-executor/src/firecracker.rs) does: its checks, the process, its
-- socket, the requests that boot the VM, and the handle.
use apeiron.Base.{
  ℕ, ◌<◌, ◌≡◌, refl, true, false, Bool, ◌||◌, if◌then◌else◌, Bool-cases, inl, inr, ◌⊎◌, ◌∷◌, ◌++◌,
  codes, unwrap_or, [],
}
use apeiron.Core.Id.{Uuid}
use apeiron.Std.FilePath.{PathBuf, is_absolute}
use apeiron.Executor.ExecutorError.{IoError, io, spawn_failed, kvm_unavailable, binary_not_found}
use apeiron.Executor.Config.{VmConfig, Pid, VmHandle, new_vm_handle}
use apeiron.Executor.Action.{
  Action, Result, ok, err, panicked, pure, continue, map_result, ◌>>=◌, ◌>>◌,
}
use apeiron.Executor.Host.{
  Answer-cases, done, failed, drop_on_error, clock, Env, Trace, create_dir_all, drew_uuid,
  read_clock, started, dropped, holding, draw_uuid, make_directory, start,
}
use apeiron.Executor.Firecracker.{
  FirecrackerBackend, configure_and_boot, to_string, socket_path, dev_kvm, found_in, split,
  which_binary,
}
use apeiron.Executor.Firecracker.Lifecycle.{exec_failed, require_kvm, bring_up, spawn}
use apeiron.Executor.Firecracker.Booting.{Attempts, boot_requests, configure_and_boot_lem}
use apeiron.Executor.Firecracker.Waiting.{after_naps, IsAbsent, AppearsAfter, wait_for_socket_lem}

-- Whether a binary is there: an absolute path itself, a relative one in a directory of the `PATH`.
unfoldable pub findable : Env → PathBuf → Trace → Bool
findable env path t =
    if is_absolute path
    then env.exists t path
    else found_in (env.exists t) path (split b':' (unwrap_or [] env.path_variable))

pub which_binary_lem :
    (env : Env) (path : PathBuf) (t : Trace)
    → which_binary env path t
      ≡ (if findable env path t then (ok tt, t) else (err (binary_not_found path), t))
unfolding which_binary findable
which_binary_lem env path t = elim (Bool-cases (is_absolute path)) [
  | inl q ↦ elim (Bool-cases (env.exists t path)) [
    | inl q' ↦ rw (q, q') refl
    | inr q' ↦ rw (q, q') refl
  ]
  | inr q ↦
      elim (Bool-cases
        (found_in (env.exists t) path (split b':' (unwrap_or [] env.path_variable)))) [
          | inl q' ↦ rw (q, q') refl
          | inr q' ↦ rw (q, q') refl
        ]
]

-- What a process that was started goes through: the trace `s` is that of its start.
module _ (env : Env) (config : VmConfig) (vm_id : Uuid) (socket : PathBuf) (pid : Pid)
    (s : Trace) where
  -- What the end of the requests leads to: a handle, or the process is dropped.
  unfoldable pub booted : Result (Unit {0}) × Trace → Result VmHandle × Trace
  booted (ok u, t) = (ok (new_vm_handle vm_id socket pid (env.now t)), read_clock ∷ t)
  booted (err e, t) = (err (spawn_failed (to_string env e)), dropped pid ∷ t)
  booted (panicked, t) = (panicked, dropped pid ∷ t)

  -- The socket does not appear in time, or it does and the requests are sent.
  unfoldable pub BootEnd : Result VmHandle × Trace → Type 0
  BootEnd r =
      (IsAbsent env socket 50 s
        × (r ≡ (
          err (spawn_failed (codes "socket " ++ (socket ++ codes " did not appear within 5s"))),
          dropped pid ∷ after_naps 50 s,
        )))
      ⊎ ((k : ℕ) × (k < 50)
          × AppearsAfter env socket k s
          × (sent : Result (Unit {0}) × Trace) × Attempts env socket (boot_requests env config)
              (after_naps k s) sent
          × (r ≡ booted sent))

  -- What is done behind the requests.
  booted_after :
      (r : Result (Unit {0})) (t : Trace)
      → drop_on_error pid (
          continue
            (map_result (λ e. spawn_failed (to_string env e)) r)
            (λ _. clock env >>= λ now. pure (new_vm_handle vm_id socket pid now))
            t)
        ≡ booted (r, t)
  unfolding booted
  booted_after (ok u) t = refl
  booted_after (err e) t = refl
  booted_after panicked t = refl

  bring_up_lem : BootEnd (holding pid (bring_up env config vm_id socket pid) s)
  unfolding bring_up BootEnd
  bring_up_lem = elim (wait_for_socket_lem env socket s) [
    | inr (absent, q) ↦ inl (absent, rw q refl)
    | inl (k, l, there, q) ↦
        (let sent = configure_and_boot env socket config (after_naps k s) in
          inr (
            k,
            l,
            there,
            sent,
            configure_and_boot_lem env socket config (after_naps k s),
            rw q (booted_after sent.0 sent.1),
          ))
  ]

module _ (env : Env) (self : FirecrackerBackend) (config : VmConfig) (t : Trace) where
  abbrev runnable : Bool
  runnable = env.exists t self.binary_path || findable env self.binary_path t

  abbrev socket : PathBuf
  socket = socket_path env self (env.random t)

  -- The trace once the directory of the sockets was asked for.
  abbrev made : Trace
  made = create_dir_all self.socket_dir ∷ drew_uuid ∷ t

  -- How `spawn` ends behind its checks.
  unfoldable pub LaunchEnd : Result VmHandle × Trace → Type 0
  LaunchEnd r =
      ((e : IoError) × (env.make_dirs (drew_uuid ∷ t) self.socket_dir ≡ failed e)
        × (r ≡ (err (io e), made)))
      ⊎ ((env.make_dirs (drew_uuid ∷ t) self.socket_dir ≡ done tt)
          × (((e : IoError) × (env.spawn made self.binary_path socket ≡ failed e)
                × (r ≡ (err (spawn_failed (exec_failed env e)), made)))
              ⊎ ((pid : Pid) × (env.spawn made self.binary_path socket ≡ done pid)
                  × BootEnd env config (env.random t) socket pid
                      (started pid self.binary_path socket ∷ made) r)))

  unfoldable pub SpawnEnd : Result VmHandle × Trace → Type 0
  SpawnEnd r =
      ((env.exists t dev_kvm ≡ false)
        × (r ≡ (err (kvm_unavailable (codes "/dev/kvm not found")), t)))
      ⊎ ((env.exists t dev_kvm ≡ true)
          × (((runnable ≡ false) × (r ≡ (err (binary_not_found self.binary_path), t)))
              ⊎ ((runnable ≡ true) × LaunchEnd r)))

  -- What `spawn` does behind its checks.
  abbrev launch : Action Trace VmHandle
  launch = do
    vm_id ← draw_uuid env
    let socket = socket_path env self vm_id
    make_directory env self.socket_dir
    process ← start env self.binary_path socket (λ e. spawn_failed (exec_failed env e))
    holding process (bring_up env config vm_id socket process)

  pub spawn-launch :
      env.exists t dev_kvm ≡ true → runnable ≡ true → spawn env self config t ≡ launch t
  unfolding spawn require_kvm
  spawn-launch kvm there = elim (Bool-cases (env.exists t self.binary_path)) [
    | inl q ↦ rw (kvm, q) refl
    | inr q ↦
        (let f : findable env self.binary_path t ≡ true = rw q at there in
          rw (kvm, q, which_binary_lem env self.binary_path t, f) refl)
  ]

  spawn-missing :
      env.exists t dev_kvm ≡ true
      → runnable ≡ false
      → spawn env self config t ≡ (err (binary_not_found self.binary_path), t)
  unfolding spawn require_kvm
  spawn-missing kvm there = elim (Bool-cases (env.exists t self.binary_path)) [
    | inl q ↦ cc
    | inr q ↦
        (let f : findable env self.binary_path t ≡ false = rw q at there in
          rw (kvm, q, which_binary_lem env self.binary_path t, f) refl)
  ]

  pub launch_lem : LaunchEnd (launch t)
  unfolding LaunchEnd
  launch_lem = elim (Answer-cases (env.make_dirs (drew_uuid ∷ t) self.socket_dir)) [
    | inr (e, q) ↦ inl (e, q, rw q refl)
    | inl (u, q) ↦ inr (
      q,
      elim (Answer-cases (env.spawn made self.binary_path socket)) [
        | inr (e, q') ↦ inl (e, q', rw (q, q') refl)
        | inl (pid, q') ↦ inr (pid, q', rw (q, q') (bring_up_lem env config _ _ pid _))
      ],
    )
  ]

  -- A spawn first looks for `/dev/kvm` and for the binary, and does nothing else if one is missing.
  -- Otherwise it fails because the directory cannot be made or the process not started, or starts one
  -- process. Then it waits for the socket, up to 50 times 100 ms; only once the socket is there it
  -- sends the four requests that boot the VM, in their order, each after the one before succeeded. If all
  -- four succeed, it returns a handle with the identifier that was drawn, the socket and the process. At
  -- the first that fails it drops the process and fails; at the first whose body has a path that is not
  -- UTF-8 it drops the process and panics.
  pub spawn_lem : SpawnEnd (spawn env self config t)
  unfolding spawn require_kvm SpawnEnd
  spawn_lem = elim (Bool-cases (env.exists t dev_kvm)) [
    | inr k ↦ inl (k, rw k refl)
    | inl k ↦ inr (
      k,
      elim (Bool-cases runnable) [
        | inr m ↦ inl (m, spawn-missing k m)
        | inl m ↦ inr (m, rw (spawn-launch k m) launch_lem)
      ],
    )
  ]
