-- ===== src/Executor/Firecracker/Health.antt =====
-- What `health_check` (forge-executor/src/firecracker.rs) says, and what it says of a spawn.
use apeiron.Base.{◌≡◌, refl, true, false, Bool-cases, inl, inr, ◌⊎◌, codes, arith}
use apeiron.Executor.ExecutorError.{IoError, kvm_unavailable, binary_not_found}
use apeiron.Executor.Config.{VmConfig}
use apeiron.Executor.Action.{Result, ok, err}
use apeiron.Executor.Host.{Env, Trace, Answer-cases, done, failed}
use apeiron.Executor.Firecracker.{FirecrackerBackend, dev_kvm}
use apeiron.Executor.Firecracker.Lifecycle.{health_check, require_kvm, readable, spawn}
use apeiron.Executor.Firecracker.Spawning.{
  findable, which_binary_lem, LaunchEnd, spawn-launch, launch_lem,
}

module _ (env : Env) (self : FirecrackerBackend) (t : Trace) where
  -- The first of the three conditions that fails, or none.
  unfoldable pub HealthEnd : Result (Unit {0}) × Trace → Type 0
  HealthEnd r =
      ((env.exists t dev_kvm ≡ false)
        × (r ≡ (err (kvm_unavailable (codes "/dev/kvm not found")), t)))
      ⊎ ((env.exists t dev_kvm ≡ true)
          × (((e : IoError) × (env.metadata t dev_kvm ≡ failed e)
                × (r ≡ (
                  err (kvm_unavailable (codes "cannot access /dev/kvm (permission denied?)")),
                  t,
                )))
              ⊎ ((env.metadata t dev_kvm ≡ done tt)
                  × (((findable env self.binary_path t ≡ false)
                        × (r ≡ (err (binary_not_found self.binary_path), t)))
                      ⊎ ((findable env self.binary_path t ≡ true) × (r ≡ (ok tt, t)))))))

  -- A health check ends with the error of the first of three conditions that fails: `/dev/kvm` exists,
  -- it can be accessed, the binary is found; if all hold it succeeds. It does nothing to the host.
  pub health_check_lem : HealthEnd (health_check env self t)
  unfolding HealthEnd health_check require_kvm readable
  health_check_lem = elim (Bool-cases (env.exists t dev_kvm)) [
    | inr k ↦ inl (k, rw k refl)
    | inl k ↦ inr (
      k,
      elim (Answer-cases (env.metadata t dev_kvm)) [
        | inr (e, q) ↦ inl (e, q, rw (k, q) refl)
        | inl (u, q) ↦ inr (
          q,
          elim (Bool-cases (findable env self.binary_path t)) [
            | inr f ↦ inl (f, rw (k, q, which_binary_lem env self.binary_path t, f) refl)
            | inl f ↦ inr (f, rw (k, q, which_binary_lem env self.binary_path t, f) refl)
          ],
        )
      ],
    )
  ]

  healthy_checks :
      (r : Result (Unit {0}) × Trace)
      → HealthEnd r
      → r ≡ (ok tt, t)
      → (env.exists t dev_kvm ≡ true) × (findable env self.binary_path t ≡ true)
  unfolding HealthEnd
  healthy_checks r (inl (k, q)) h = cc
  healthy_checks r (inr (k, inl (e, m, q))) h = cc
  healthy_checks r (inr (k, inr (m, inl (f, q)))) h = cc
  healthy_checks r (inr (k, inr (m, inr (f, q)))) h = (k, f)

  -- A spawn from where a health check succeeds passes the checks of its own: what is left to it is to
  -- fail at making the directory, at starting the process or at bringing the VM up (with a panic where a
  -- path is not UTF-8), or to succeed.
  pub health_check-spawn :
      (config : VmConfig)
      → health_check env self t ≡ (ok tt, t)
      → LaunchEnd env self config t (spawn env self config t)
  health_check-spawn config healthy =
      let (k, f) = healthy_checks (health_check env self t) health_check_lem healthy in
      rw (spawn-launch env self config t k (ground (arith, f))) (launch_lem env self config t)
