-- ===== src/Executor/Firecracker/Waiting.antt =====
-- How `wait_for_socket` (forge-executor/src/firecracker.rs) waits for the API socket of a new process.
use apeiron.Base.{
  ℕ, zero, suc, ◌<◌, ◌≡◌, refl, true, false, Bool-cases, inl, inr, ◌⊎◌, arith, ◌∷◌, ◌++◌, codes,
}
use apeiron.Std.FilePath.{PathBuf}
use apeiron.Executor.ExecutorError.{spawn_failed}
use apeiron.Executor.Action.{ok, err}
use apeiron.Executor.Host.{Env, Trace, sleep}
use apeiron.Executor.Firecracker.{poll_socket, wait_for_socket}

-- The trace after a number of sleeps of 100 ms.
unfoldable pub after_naps : ℕ → Trace → Trace
after_naps zero t = t
after_naps (suc k) t = after_naps k (sleep 100 ∷ t)

module _ (env : Env) (socket : PathBuf) where
  -- The socket is absent at each of the first polls.
  unfoldable pub IsAbsent : ℕ → Trace → Type 0
  IsAbsent zero t = Unit
  IsAbsent (suc k) t = (env.exists t socket ≡ false) × IsAbsent k (sleep 100 ∷ t)

  -- The socket is there at the poll after `k` sleeps, and was not before.
  pub AppearsAfter : ℕ → Trace → Type 0
  AppearsAfter k t = IsAbsent k t × (env.exists (after_naps k t) socket ≡ true)

  pub WaitResult : ℕ → Trace → Type 0
  WaitResult rounds t =
      let r = poll_socket rounds env socket t in
      ((k : ℕ) × (k < rounds) × AppearsAfter k t × (r ≡ (ok tt, after_naps k t)))
      ⊎ (IsAbsent rounds t
          × (r ≡ (
            err (spawn_failed (codes "socket " ++ (socket ++ codes " did not appear within 5s"))),
            after_naps rounds t,
          )))

  later :
      (rounds : ℕ) (t : Trace)
      → env.exists t socket ≡ false
      → WaitResult rounds (sleep 100 ∷ t)
      → WaitResult (suc rounds) t
  unfolding poll_socket after_naps WaitResult AppearsAfter IsAbsent
  later rounds t e (inl (k, l, (absent, there), r)) =
      inl (suc k, omega arith, (((e, absent), there)), rw e r)
  later rounds t e (inr (absent, r)) = inr ((e, absent), rw e r)

  poll_socket_lem : (rounds : ℕ) (t : Trace) → WaitResult rounds t
  unfolding poll_socket after_naps WaitResult AppearsAfter IsAbsent
  poll_socket_lem zero t = inr (tt, refl)
  poll_socket_lem (suc rounds) t = elim (Bool-cases (env.exists t socket)) [
    | inl e ↦ inl (0, omega arith, (tt, e), rw e refl)
    | inr e ↦ later rounds t e (poll_socket_lem rounds (sleep 100 ∷ t))
  ]

  -- Waiting ends at the first of at most 50 polls, 100 ms apart, that finds the socket; it fails only
  -- if the socket was absent at all 50 polls, after 50 sleeps, that is 5 seconds.
  pub wait_for_socket_lem :
      (t : Trace)
      → let r = wait_for_socket env socket t in
        ((k : ℕ) × (k < 50) × AppearsAfter k t × (r ≡ (ok tt, after_naps k t)))
        ⊎ (IsAbsent 50 t
            × (r ≡ (
              err (spawn_failed (codes "socket " ++ (socket ++ codes " did not appear within 5s"))),
              after_naps 50 t,
            )))
  unfolding wait_for_socket WaitResult
  wait_for_socket_lem t = poll_socket_lem 50 t
