-- ===== src/Gateway/Routes/Concurrent/Answers.antt =====
-- Every request is answered (forge-gateway/src/routes.rs): no handler waits for another request, and none
-- panics.
use apeiron.Base.{ℕ, suc, ◌+◌, ◌-◌, ◌≤◌, ◌≡◌, refl, Bool, true, false, arith}
use apeiron.Base.Families.{update_same, update_all}
use apeiron.Core.Id.{Uuid}
use apeiron.Action.{Result, ok, err, panicked}
use apeiron.Action.Rules.{Fails}
use apeiron.Gateway.Pool.{IndexMap, SandboxEntry, new_pool, create, lock, remove, contains}
use apeiron.Gateway.GatewayError.{GatewayError}
use apeiron.Gateway.Process.{Host, History, run_shell-Fails, run_code-Fails}
use apeiron.Gateway.Routes.{
  new_state, Request, health_request, create_request, destroy_request, shell_request,
  execute_request, Response, on_pool,
}
use apeiron.Gateway.Routes.Sections.{
  Pc, idle, received, inserting, running_shell, running_code, answered, Site, section, receive,
  checked, removed, ending,
}
use apeiron.Gateway.Routes.Concurrent.{
  System, start, run_section, at_place, Step, request_step, section_step, answer_step, stop,
  then_step, Reachable,
}
use apeiron.Gateway.Routes.Concurrent.Keeps.{section_unpoisoned}

module _ (index_map : IndexMap SandboxEntry) (host : Host) where
  -- How many sections a request still has at most.
  sections_left : Pc index_map host → ℕ
  sections_left idle = 3
  sections_left (received request) = 2
  sections_left (answered answer) = 0
  sections_left _ = 1

  section_left :
      (pc : Pc index_map host) (s : Site index_map host) (n : ℕ)
      → n ≤ 1
      → sections_left pc ≤ suc n
      → sections_left (section index_map host pc s).0 ≤ n
  unfolding section receive sections_left checked removed
  section_left pc s n h k = ground arith

  -- A place whose answer, if there is one, is no panic.
  IsCalm : Pc index_map host → Type 0
  IsCalm (answered answer) = Fails (λ e. Unit {0}) answer
  IsCalm _ = Unit

  ending-IsCalm :
      {A : Type 0} (f : A → Response) (r : Result GatewayError A)
      → Fails (λ e. Unit {0}) r
      → IsCalm (ending index_map host f r)
  unfolding IsCalm
  ending-IsCalm f (ok a) h = tt
  ending-IsCalm f (err e) h = tt
  ending-IsCalm f panicked h = h

  checked-IsCalm :
      (id : Uuid) (next : Pc index_map host) (r : Result GatewayError Bool)
      → Fails (λ e. Unit {0}) r
      → IsCalm next
      → IsCalm (checked index_map host id next r)
  unfolding IsCalm checked
  checked-IsCalm id next (ok true) h k = k
  checked-IsCalm id next (ok false) h k = tt
  checked-IsCalm id next (err e) h k = tt
  checked-IsCalm id next panicked h k = h

  removed-IsCalm :
      (id : Uuid) (r : Result GatewayError Bool)
      → Fails (λ e. Unit {0}) r
      → IsCalm (removed index_map host id r)
  unfolding IsCalm removed
  removed-IsCalm id (ok true) h = tt
  removed-IsCalm id (ok false) h = tt
  removed-IsCalm id (err e) h = tt
  removed-IsCalm id panicked h = h

  section-IsCalm :
      (pc : Pc index_map host) (s : Site index_map host)
      → s.pool.poisoned ≡ false
      → IsCalm pc
      → IsCalm (section index_map host pc s).0
  unfolding section receive IsCalm create lock remove contains
  section-IsCalm idle s h c = tt
  section-IsCalm (answered answer) s h c = c
  section-IsCalm (received health_request) s h c = tt
  section-IsCalm (received (create_request body)) s h c = ground arith
  section-IsCalm (received (destroy_request id)) s h c = removed-IsCalm id _ (rw h tt)
  section-IsCalm (received (shell_request id body)) s h c =
      checked-IsCalm id (running_shell id body.command) _ (rw h tt) tt
  section-IsCalm (received (execute_request id body)) s h c =
      checked-IsCalm id (running_code id body.runtime body.code) _ (rw h tt) tt
  section-IsCalm (inserting id now runtime) s h c =
      ending-IsCalm _ (on_pool index_map host s (create index_map id now runtime s.pool)).0
        (rw h tt)
  section-IsCalm (running_shell id command) s h c =
      ending-IsCalm _ _ (run_shell-Fails host command s.history)
  section-IsCalm (running_code id runtime source) s h c =
      ending-IsCalm _ _ (run_code-Fails host runtime source s.history)

  -- No lock is poisoned and no handler has panicked.
  record AllCalm (s : System index_map host) : Type 0 where
    unpoisoned : s.site.pool.poisoned ≡ false
    calm : (task : ℕ) → IsCalm (s.tasks task)

  Step-AllCalm : {s t : System index_map host} → Step index_map host s t → AllCalm s → AllCalm t
  unfolding at_place run_section IsCalm
  Step-AllCalm {s} (request_step task request e) c = record {
    unpoisoned = c.unpoisoned;
    calm = update_all IsCalm s.tasks task (received request) c.calm tt;
  }
  Step-AllCalm {s} (section_step task) c = record {
    unpoisoned = section_unpoisoned index_map host (s.tasks task) s.site c.unpoisoned;
    calm =
        update_all IsCalm s.tasks task _ c.calm
          (section-IsCalm (s.tasks task) s.site c.unpoisoned (c.calm task));
  }
  Step-AllCalm {s} (answer_step task answer e) c = record {
    unpoisoned = c.unpoisoned;
    calm = update_all IsCalm s.tasks task idle c.calm tt;
  }

  Reachable-AllCalm :
      (past : History) {s : System index_map host} → Reachable index_map host past s → AllCalm s
  unfolding start new_state new_pool IsCalm
  Reachable-AllCalm past stop = record { unpoisoned = refl; calm = λ task. tt }
  Reachable-AllCalm past (then_step reach step) = Step-AllCalm step (Reachable-AllCalm past reach)

  module _ (task : ℕ) where
    -- Moves of all tasks, of which so many are sections of this one.
    pub data Run (s : System index_map host) : ℕ → System index_map host → Type 0 where
      no_move : Run s 0 s
      own_section :
          {n : ℕ} {t : System index_map host}
          → Run s n t
          → Run s (suc n) (run_section index_map host task t)
      other_move :
          {n : ℕ} {t u : System index_map host}
          → Run s n t
          → Step index_map host t u
          → u.tasks task ≡ t.tasks task
          → Run s n u

    Run-left :
        {s t : System index_map host} {n : ℕ}
        → Run s n t
        → n ≤ 2
        → sections_left (s.tasks task) ≤ 2
        → sections_left (t.tasks task) + n ≤ 2
    unfolding run_section
    Run-left no_move h k = omega (arith, k)
    Run-left (own_section {n} {t} run) h k =
        let before = Run-left run (omega (arith, h)) k in
        rw (update_same t.tasks task (section index_map host (t.tasks task) t.site).0) (
          omega (
            arith,
            section_left (t.tasks task) t.site (1 - n) (omega (arith, before))
                (omega (arith, h, before)),
          ))
    Run-left (other_move run step e) h k = rw e (Run-left run h k)

    Run-AllCalm : {s t : System index_map host} {n : ℕ} → Run s n t → AllCalm s → AllCalm t
    Run-AllCalm no_move c = c
    Run-AllCalm (own_section run) c = Step-AllCalm (section_step task) (Run-AllCalm run c)
    Run-AllCalm (other_move run step e) c = Step-AllCalm step (Run-AllCalm run c)

    none_left :
        (pc : Pc index_map host)
        → sections_left pc ≤ 0
        → (answer : Result GatewayError Response) × (pc ≡ answered answer)
    unfolding sections_left
    none_left (answered answer) h = (answer, refl)
    none_left _ h = absurd (omega arith)

    -- In every interleaving of the requests: two sections after its task took it, whatever the other
    -- tasks do in between, a request has an answer, and the answer is a response or an error, never a
    -- panic.
    pub request_answered :
        (past : History) (request : Request index_map host) (s t : System index_map host)
        → Reachable index_map host past s
        → s.tasks task ≡ received request
        → Run s 2 t
        → (answer : Result GatewayError Response) × (t.tasks task ≡ answered answer)
          × Fails (λ e. Unit {0}) answer
    unfolding IsCalm sections_left
    request_answered past request s t reach e run =
        let (answer, q) =
          none_left (t.tasks task)
            (omega (arith, Run-left run (omega arith) (rw e (omega arith)))) in
        (answer, q, rw q at ((Run-AllCalm run (Reachable-AllCalm past reach)).calm task))
