-- ===== src/Gateway/Routes/Concurrent/Begins.antt =====
-- Which sections begin a program (forge-gateway/src/routes.rs).
use apeiron.Base.{
  ◌≡◌, refl, sym, ap, ◌∙◌, inl, inr, Bool-cases, Bool, true, false, not, ◌&&◌, ◌==◌, arith, text_eq,
  codes,
}
use apeiron.Base.Families.{same}
use apeiron.Core.Id.{Uuid}
use apeiron.Action.{Result, ok, err, panicked}
use apeiron.Gateway.Pool.{IndexMap, SandboxEntry, create}
use apeiron.Gateway.Pool.Registry.{registered, contains-registered}
use apeiron.Gateway.GatewayError.{GatewayError, ok_200, created_201}
use apeiron.Gateway.Process.{Host, run_shell, run_code}
use apeiron.Gateway.Routes.{
  health_request, create_request, destroy_request, shell_request, execute_request, Response,
  pool_contains, pool_remove, on_pool, on_host, reply, result, created,
}
use apeiron.Gateway.Routes.Sections.{
  Pc, idle, received, inserting, running_shell, running_code, answered, Site, section, receive,
  checked, removed, ending,
}
use apeiron.Gateway.Routes.Concurrent.{is_running}

module _ (index_map : IndexMap SandboxEntry) (host : Host) (id : Uuid) where
  ending_rests :
      {A : Type 0} (f : A → Response) (r : Result GatewayError A)
      → is_running index_map host id (ending index_map host f r) ≡ false
  unfolding is_running
  ending_rests f (ok a) = refl
  ending_rests f (err e) = refl
  ending_rests f panicked = refl

  removed_rests :
      (sandbox : Uuid) (r : Result GatewayError Bool)
      → is_running index_map host id (removed index_map host sandbox r) ≡ false
  unfolding is_running removed
  removed_rests sandbox r = ground arith

  -- A check that lets a request pass has found its sandbox.
  checked_running :
      (sandbox : Uuid) (next : Pc index_map host) (s : Site index_map host)
      → s.pool.poisoned ≡ false
      → is_running index_map host id next ≡ (id == sandbox)
      → is_running index_map host id
          (checked index_map host sandbox next (pool_contains index_map host sandbox s).0)
        ≡ true
      → registered index_map s.pool id ≡ true
  unfolding checked is_running
  checked_running sandbox next s h n e = elim (Bool-cases (registered index_map s.pool sandbox)) [
    | inl q ↦
        (let e' = rw (contains-registered index_map sandbox s.pool h, q) at e in
          ap (registered index_map s.pool) (same id sandbox (sym n ∙ e')) ∙ q)
    | inr q ↦ (let e' = rw (contains-registered index_map sandbox s.pool h, q) at e in cc)
  ]

  -- A section that begins a program has found the sandbox in the pool.
  pub begins :
      (pc : Pc index_map host) (s : Site index_map host)
      → s.pool.poisoned ≡ false
      → is_running index_map host id (section index_map host pc s).0 ≡ true
      → registered index_map s.pool id ≡ true
  unfolding section receive is_running
  begins idle s h e = cc
  begins (answered answer) s h e = cc
  begins (received health_request) s h e = cc
  begins (received (create_request body)) s h e =
      elim (Bool-cases (
        not (text_eq body.runtime (codes "node")) && not (text_eq body.runtime (codes "python")))) [
          | inl q ↦ (let e' = rw q at e in cc)
          | inr q ↦ (let e' = rw q at e in cc)
        ]
  begins (received (destroy_request sandbox)) s h e =
      let r = removed_rests sandbox (pool_remove index_map host sandbox s).0 in cc
  begins (received (shell_request sandbox body)) s h e = checked_running sandbox _ s h refl e
  begins (received (execute_request sandbox body)) s h e = checked_running sandbox _ s h refl e
  begins (inserting drawn now runtime) s h e =
      let r =
        ending_rests (λ id. reply created_201 (created (record { id = id })))
          (on_pool index_map host s (create index_map drawn now runtime s.pool)).0 in
      cc
  begins (running_shell sandbox command) s h e =
      let r =
        ending_rests (λ answer. reply ok_200 (result answer))
          (on_host index_map host (run_shell host command) s).0 in
      cc
  begins (running_code sandbox runtime source) s h e =
      let r =
        ending_rests (λ answer. reply ok_200 (result answer))
          (on_host index_map host (run_code host runtime source) s).0 in
      cc
