-- ===== src/Gateway/Routes/Concurrent/Keeps.antt =====
-- What a section of a request keeps (forge-gateway/src/routes.rs).
use apeiron.Base.{◌≡◌, refl, inl, inr, Bool-cases, true, false, arith, Text, text_eq, codes}
use apeiron.Core.Id.{Uuid}
use apeiron.Gateway.Pool.{IndexMap, SandboxEntry, create, remove, contains, lock}
use apeiron.Gateway.Process.{Host, History, drew_uuid, run_shell, run_code, timed_run}
use apeiron.Gateway.Routes.{
  health_request, create_request, destroy_request, shell_request, execute_request,
}
use apeiron.Gateway.Routes.Sections.{
  Pc, idle, received, inserting, running_shell, running_code, answered, Site, section, receive,
}
use apeiron.Gateway.Routes.Concurrent.{FreshDraws}

module _ (index_map : IndexMap SandboxEntry) (host : Host) where
  -- No section poisons the lock of the pool.
  pub section_unpoisoned :
      (pc : Pc index_map host) (s : Site index_map host)
      → s.pool.poisoned ≡ false
      → (section index_map host pc s).1.pool.poisoned ≡ false
  unfolding section receive create remove contains lock
  section_unpoisoned idle s h = h
  section_unpoisoned (answered answer) s h = h
  section_unpoisoned (received health_request) s h = h
  section_unpoisoned (received (create_request body)) s h = ground arith
  section_unpoisoned (received (destroy_request id)) s h = rw h refl
  section_unpoisoned (received (shell_request id body)) s h = rw h refl
  section_unpoisoned (received (execute_request id body)) s h = rw h refl
  section_unpoisoned (inserting id now runtime) s h = rw h refl
  section_unpoisoned (running_shell id command) s h = h
  section_unpoisoned (running_code id runtime source) s h = h

module _ {host : Host} (fresh : FreshDraws host) where
  timed_run_keeps :
      (what : Text) (program : _) (h : History) (id : Uuid)
      → fresh.used h id ≡ true
      → fresh.used (timed_run host what program h).1 id ≡ true
  unfolding timed_run
  timed_run_keeps what program h id k = fresh.deed_keeps _ h id k

  run_code_keeps :
      (runtime source : Text) (h : History) (id : Uuid)
      → fresh.used h id ≡ true
      → fresh.used (run_code host runtime source h).1 id ≡ true
  unfolding run_code
  run_code_keeps runtime source h id k = elim (Bool-cases (text_eq runtime (codes "node"))) [
    | inl q ↦ rw q (timed_run_keeps _ _ h id k)
    | inr q ↦ elim (Bool-cases (text_eq runtime (codes "python"))) [
      | inl q' ↦ rw (q, q') (timed_run_keeps _ _ h id k)
      | inr q' ↦ rw (q, q') k
    ]
  ]

module _ {index_map : IndexMap SandboxEntry} {host : Host} (fresh : FreshDraws host) where
  pub section_keeps :
      (pc : Pc index_map host) (s : Site index_map host) (id : Uuid)
      → s.pool.poisoned ≡ false
      → fresh.used s.history id ≡ true
      → fresh.used (section index_map host pc s).1.history id ≡ true
  unfolding section receive create remove contains lock run_shell
  section_keeps idle s id p h = h
  section_keeps (answered answer) s id p h = h
  section_keeps (received health_request) s id p h = h
  section_keeps (received (create_request body)) s id p h =
      ground (arith, fresh.deed_keeps drew_uuid s.history id h)
  section_keeps (received (destroy_request sandbox)) s id p h = rw p h
  section_keeps (received (shell_request sandbox body)) s id p h = rw p h
  section_keeps (received (execute_request sandbox body)) s id p h = rw p h
  section_keeps (inserting sandbox now runtime) s id p h = rw p h
  section_keeps (running_shell sandbox command) s id p h = timed_run_keeps fresh _ _ s.history id h
  section_keeps (running_code sandbox runtime source) s id p h =
      run_code_keeps fresh runtime source s.history id h
