-- ===== src/Gateway/Routes/Concurrent/Safety.antt =====
-- What clients may rely on when their requests are served at the same time, and what not
-- (forge-gateway/src/routes.rs, forge-gateway/src/pool.rs).
use apeiron.Base.{ℕ, ◌≤◌, ◌≡◌, refl, sym, ◌∙◌, Bool, true, false, arith}
use apeiron.Base.Families.{update_all}
use apeiron.Core.Id.{Uuid}
use apeiron.Gateway.Pool.{IndexMap, SandboxEntry, new_pool}
use apeiron.Gateway.Pool.Registry.{registered, registered-new}
use apeiron.Gateway.Process.{Host, History}
use apeiron.Gateway.Routes.{new_state}
use apeiron.Gateway.Routes.Sections.{Pc, idle, received, section}
use apeiron.Gateway.Routes.Concurrent.{
  FreshDraws, is_inserting, is_running, made, unmade, System, counted, start, run_section, at_place,
  Step, request_step, section_step, answer_step, stop, then_step, Reachable,
}
use apeiron.Gateway.Routes.Concurrent.Life.{stays, section-Effect}
use apeiron.Gateway.Routes.Concurrent.Moves.{Phase, unborn, awaited, live, dead, moved, moves}
use apeiron.Gateway.Routes.Concurrent.Keeps.{section_unpoisoned, section_keeps}
use apeiron.Gateway.Routes.Concurrent.Begins.{begins}

at_least : (n k : ℕ) → 1 ≤ n → n ≤ k → 1 ≤ k
at_least n k h g = omega arith

counted_grows : (b : Bool) (n : ℕ) → n ≤ counted b n
counted_grows true n = omega arith
counted_grows false n = omega arith

module _ {index_map : IndexMap SandboxEntry} {host : Host} (fresh : FreshDraws host) where
  -- Only the counts of this sandbox matter.
  Phase-eq :
      (id : Uuid) (s : System index_map host) (created destroyed : Uuid → ℕ)
      → created id ≡ s.created id
      → destroyed id ≡ s.destroyed id
      → Phase fresh id s
      → Phase fresh id
          (record { site = s.site; tasks = s.tasks; created = created; destroyed = destroyed })
  Phase-eq id s created destroyed p q (unborn g c d n) = unborn g (p ∙ c) (q ∙ d) n
  Phase-eq id s created destroyed p q (awaited t f g c d i o) = awaited t f g (p ∙ c) (q ∙ d) i o
  Phase-eq id s created destroyed p q (live f g c d n) = live f g (p ∙ c) (q ∙ d) n
  Phase-eq id s created destroyed p q (dead f g c d n) = dead f g (p ∙ c) (q ∙ d) n

  at_place-Phase :
      (id : Uuid) (s : System index_map host) (task : ℕ) (pc : Pc index_map host)
      → is_inserting index_map host id pc ≡ is_inserting index_map host id (s.tasks task)
      → made index_map host id (s.tasks task) pc ≡ false
      → unmade index_map host id (s.tasks task) pc ≡ false
      → Phase fresh id s
      → Phase fresh id (at_place index_map host task pc s)
  unfolding at_place
  at_place-Phase id s task pc e m u phase =
      Phase-eq id (moved fresh s task pc s.site) s.created s.destroyed (rw m refl) (rw u refl)
        (moves fresh s id task pc s.site (λ f. f) phase (stays e refl m u))

  -- What holds of every reachable state.
  pub record Holds (s : System index_map host) : Type 0 where
    pub unpoisoned : s.site.pool.poisoned ≡ false
    pub phase : (id : Uuid) → Phase fresh id s
    pub running :
        (task : ℕ) (id : Uuid)
        → is_running index_map host id (s.tasks task) ≡ true
        → 1 ≤ s.created id

  registered-created :
      (id : Uuid) (s : System index_map host)
      → Phase fresh id s
      → registered index_map s.site.pool id ≡ true
      → 1 ≤ s.created id
  registered-created id s (live f g c d n) r = omega (arith, c)
  registered-created id s (unborn g c d n) r = cc
  registered-created id s (awaited t f g c d i o) r = cc
  registered-created id s (dead f g c d n) r = cc

  Holds-start : (past : History) → Holds (start index_map host past)
  unfolding start new_state new_pool is_inserting is_running
  Holds-start past = record {
    unpoisoned = refl;
    phase = λ id. unborn (registered-new index_map id) refl refl (λ task. refl);
    running = λ task id e. cc;
  }

  -- A task that goes to a place where it neither registers nor runs.
  Holds-at_place :
      (s : System index_map host) (task : ℕ) (pc : Pc index_map host)
      → ((id : Uuid) → is_inserting index_map host id pc ≡ false)
      → ((id : Uuid) → is_inserting index_map host id (s.tasks task) ≡ false)
      → ((id : Uuid) → is_running index_map host id pc ≡ false)
      → ((id : Uuid) → made index_map host id (s.tasks task) pc ≡ false)
      → ((id : Uuid) → unmade index_map host id (s.tasks task) pc ≡ false)
      → Holds s
      → Holds (at_place index_map host task pc s)
  unfolding at_place
  Holds-at_place s task pc i i' r m u holds = record {
    unpoisoned = holds.unpoisoned;
    phase = λ id. at_place-Phase id s task pc (i id ∙ sym (i' id)) (m id) (u id) (holds.phase id);
    running = λ other id.
        update_all (λ p. is_running index_map host id p ≡ true → 1 ≤ s.created id) s.tasks task pc
          (λ t. holds.running t id) (λ k. let q = r id in cc) other;
  }

  Holds-section :
      (s : System index_map host) (task : ℕ) → Holds s → Holds (run_section index_map host task s)
  unfolding run_section
  Holds-section s task holds = record {
    unpoisoned = section_unpoisoned index_map host (s.tasks task) s.site holds.unpoisoned;
    phase = λ id.
        moves fresh s id task _ _ (section_keeps fresh (s.tasks task) s.site id holds.unpoisoned)
          (holds.phase id) (section-Effect fresh id (s.tasks task) s.site holds.unpoisoned);
    running = λ other id.
        let pc = (section index_map host (s.tasks task) s.site).0 in
        let count = counted (made index_map host id (s.tasks task) pc) (s.created id) in
        let grows : s.created id ≤ count = counted_grows _ (s.created id) in
        update_all (λ p. is_running index_map host id p ≡ true → 1 ≤ count) s.tasks task pc
          (λ t k. at_least (s.created id) count (holds.running t id k) grows)
          (λ k.
            at_least (s.created id) count
              (registered-created id s (holds.phase id)
                (begins index_map host id (s.tasks task) s.site holds.unpoisoned k))
              grows)
          other;
  }

  Step-Holds : {s t : System index_map host} → Step index_map host s t → Holds s → Holds t
  unfolding is_inserting is_running made unmade
  Step-Holds {s} (request_step task request e) holds =
      Holds-at_place s task (received request) (λ id. refl) (λ id. rw e refl) (λ id. refl)
        (λ id. rw e refl) (λ id. rw e refl) holds
  Step-Holds {s} (section_step task) holds = Holds-section s task holds
  Step-Holds {s} (answer_step task answer e) holds =
      Holds-at_place s task idle (λ id. refl) (λ id. rw e refl) (λ id. refl) (λ id. rw e refl)
        (λ id. rw e refl) holds

  pub Reachable-Holds :
      (past : History) {s : System index_map host} → Reachable index_map host past s → Holds s
  Reachable-Holds past stop = Holds-start past
  Reachable-Holds past (then_step steps step) = Step-Holds step (Reachable-Holds past steps)

  phase_counts :
      (id : Uuid) (s : System index_map host)
      → Phase fresh id s
      → (s.created id ≡ counted (registered index_map s.site.pool id) (s.destroyed id))
        × (s.created id ≤ 1)
  phase_counts id s (unborn g c d n) = (rw (g, c, d) refl, omega (arith, c))
  phase_counts id s (awaited t f g c d i o) = (rw (g, c, d) refl, omega (arith, c))
  phase_counts id s (live f g c d n) = (rw (g, c, d) refl, omega (arith, c))
  phase_counts id s (dead f g c d n) = (rw (g, c, d) refl, omega (arith, c))

  -- The host never draws an identifier twice. In every interleaving of the requests: each sandbox was
  -- created at most once, and the answers 201 for it are one more than the answers 204 while it is
  -- registered, and as many otherwise. So of the requests that destroy one sandbox at the same time, at
  -- most one is answered 204.
  pub destroyed_once :
      (past : History) (s : System index_map host) (id : Uuid)
      → Reachable index_map host past s
      → (s.created id ≡ counted (registered index_map s.site.pool id) (s.destroyed id))
        × (s.created id ≤ 1)
  destroyed_once past s id reach = phase_counts id s ((Reachable-Holds past reach).phase id)

  -- The host never draws an identifier twice. In every interleaving of the requests, a task that is at
  -- running a program runs it for a sandbox for which 201 was answered.
  pub program_of_created :
      (past : History) (s : System index_map host) (task : ℕ) (id : Uuid)
      → Reachable index_map host past s
      → is_running index_map host id (s.tasks task) ≡ true
      → s.created id ≡ 1
  program_of_created past s task id reach e =
      let once = (destroyed_once past s id reach).1 in
      let some_time = (Reachable-Holds past reach).running task id e in
      omega (arith, once, some_time)
