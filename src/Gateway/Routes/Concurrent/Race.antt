-- ===== src/Gateway/Routes/Concurrent/Race.antt =====
-- What concurrent requests may not rely on (forge-gateway/src/routes.rs): the check of a sandbox and the
-- program that follows it are not one step.
use apeiron.Base.{ℕ, ◌≡◌, ◌≢◌, refl, sym, ap, ◌∙◌, true, false, ◌==◌, arith, Text}
use apeiron.Base.Families.{update_same, update_other, differ}
use apeiron.Core.Id.{Uuid}
use apeiron.Gateway.Pool.{IndexMap, SandboxEntry}
use apeiron.Gateway.Pool.Registry.{registered, remove-registered, contains-registered}
use apeiron.Gateway.Process.{Host, History}
use apeiron.Gateway.Routes.{Request, destroy_request, shell_request, ShellBody}
use apeiron.Gateway.Routes.Sections.{
  Pc, idle, received, running_shell, Site, section, receive, checked, removed,
}
use apeiron.Gateway.Routes.Concurrent.{
  FreshDraws, System, run_section, at_place, request_step, section_step, Steps, stop, then_step,
  Reachable,
}
use apeiron.Gateway.Routes.Concurrent.Safety.{Reachable-Holds}

module _ (index_map : IndexMap SandboxEntry) (host : Host) (s : System index_map host) (a b : ℕ)
    (id : Uuid) (command : Text) where
  -- Task `a` asks for a program, and its check finds the sandbox; then task `b` destroys the sandbox.
  abbrev asked : System index_map host
  asked = at_place index_map host a (received (shell_request id (record { command = command }))) s

  abbrev pub raced : System index_map host
  raced = run_section index_map host b (
      at_place index_map host b (received (destroy_request id))
        (run_section index_map host a asked))

module _ (index_map : IndexMap SandboxEntry) (host : Host) where
  -- The check of a registered sandbox.
  shell_found :
      (id : Uuid) (body : ShellBody) (s : Site index_map host)
      → s.pool.poisoned ≡ false
      → registered index_map s.pool id ≡ true
      → section index_map host (received (shell_request id body)) s
        ≡ (running_shell id body.command, s)
  unfolding section receive checked
  shell_found id body s h q = rw (contains-registered index_map id s.pool h, q) refl

  destroy_done :
      (id : Uuid) (s : Site index_map host)
      → s.pool.poisoned ≡ false
      → registered index_map (section index_map host (received (destroy_request id)) s).1.pool id
        ≡ false
  unfolding section receive removed
  destroy_done id s h =
      let (after, e, h', r) = remove-registered index_map id s.pool h in rw e (ground (arith, r id))

  -- The site and the place of a task after its section.
  site_after :
      (s : System index_map host) (task : ℕ) (pc : Pc index_map host)
      → s.tasks task ≡ pc
      → (run_section index_map host task s).site ≡ (section index_map host pc s.site).1
  unfolding run_section
  site_after s task pc e = rw e refl

  place_after :
      (s : System index_map host) (task : ℕ) (pc : Pc index_map host)
      → s.tasks task ≡ pc
      → (run_section index_map host task s).tasks task ≡ (section index_map host pc s.site).0
  unfolding run_section
  place_after s task pc e =
      update_same s.tasks task _ ∙ ap (λ p. (section index_map host p s.site).0) e

module _ {index_map : IndexMap SandboxEntry} {host : Host} (fresh : FreshDraws host) where
  -- The host never draws an identifier twice. In every reachable state with two tasks that wait for a request, and for every sandbox that is
  -- registered: a task that is asked for a program can be at running it, its check passed, when the other
  -- has destroyed the sandbox.
  pub destroy_race :
      (past : History) (s : System index_map host) (a b : ℕ) (id : Uuid) (command : Text)
      → Reachable index_map host past s
      → s.tasks a ≡ idle
      → s.tasks b ≡ idle
      → (a == b) ≡ false
      → registered index_map s.site.pool id ≡ true
      → Steps index_map host s (raced index_map host s a b id command)
        × ((raced index_map host s a b id command).tasks a ≡ running_shell id command)
        × (registered index_map (raced index_map host s a b id command).site.pool id ≡ false)
  unfolding run_section at_place
  destroy_race past s a b id command reach ia ib ne reg =
      let un = (Reachable-Holds fresh past reach).unpoisoned in
      let request : Request index_map host = shell_request id (record { command = command }) in
      let found = shell_found index_map host id (record { command = command }) s.site un reg in
      let at_a = asked index_map host s a b id command in
      let started = update_same s.tasks a (received request) in
      let second = run_section index_map host a at_a in
      let third = at_place index_map host b (received (destroy_request id)) second in
      let site_of_third : third.site ≡ s.site =
        site_after index_map host at_a a (received request) started
        ∙ ap (λ (r : Pc index_map host × Site index_map host). r.1) found in
      let apart : b ≢ a = λ z. differ a b ne (sym z) in
      let stopped = update_same second.tasks b (received (destroy_request id)) in
      (
        then_step
            (then_step (then_step (then_step stop (request_step a request ia)) (section_step a)) (
              request_step b (destroy_request id)
                (update_other at_a.tasks a b _ apart ∙ update_other s.tasks a b _ apart ∙ ib)))
            (section_step b),
        update_other third.tasks b a _ (differ a b ne)
            ∙ update_other second.tasks b a _ (differ a b ne)
            ∙ place_after index_map host at_a a (received request) started
            ∙ ap (λ (r : Pc index_map host × Site index_map host). r.0) found,
        ap (λ (site : Site index_map host). registered index_map site.pool id)
              (site_after index_map host third b (received (destroy_request id)) stopped
                ∙ ap (λ site. (section index_map host (received (destroy_request id)) site).1)
                    site_of_third)
            ∙ destroy_done index_map host id s.site un,
      )
