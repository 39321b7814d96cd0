-- ===== src/Gateway/Routes/Concurrent/Moves.antt =====
-- Every section of every request leaves each sandbox in one of the places of its life.
use apeiron.Base.{ℕ, ◌≡◌, ◌≢◌, sym, ap, ◌∙◌, inl, inr, Bool-cases, true, false, ◌==◌}
use apeiron.Base.Families.{update, update_all, update_same, update_other, same, differ}
use apeiron.Core.Id.{Uuid}
use apeiron.Gateway.Pool.{IndexMap, SandboxEntry}
use apeiron.Gateway.Pool.Registry.{registered}
use apeiron.Gateway.Process.{Host}
use apeiron.Gateway.Routes.Sections.{Pc, Site}
use apeiron.Gateway.Routes.Concurrent.{FreshDraws, is_inserting, made, unmade, System, counted}
use apeiron.Gateway.Routes.Concurrent.Life.{Effect, stays, draws, registers, removes}

module _ {index_map : IndexMap SandboxEntry} {host : Host} (fresh : FreshDraws host) where
  abbrev pub NoneInserts : (ℕ → Pc index_map host) → Uuid → Type 0
  NoneInserts tasks id = (task : ℕ) → is_inserting index_map host id (tasks task) ≡ false

  -- No task but this one is about to register the sandbox.
  abbrev pub OnlyInserts : (ℕ → Pc index_map host) → Uuid → ℕ → Type 0
  OnlyInserts tasks id task =
      (other : ℕ) → other ≢ task → is_inserting index_map host id (tasks other) ≡ false

  -- What holds of a sandbox: it was never there; its identifier is drawn; it is there; it was destroyed.
  pub data Phase (id : Uuid) (s : System index_map host) : Type 0 where
    unborn :
        registered index_map s.site.pool id ≡ false
        → s.created id ≡ 0
        → s.destroyed id ≡ 0
        → NoneInserts s.tasks id
        → Phase id s
    awaited :
        (task : ℕ)
        → fresh.used s.site.history id ≡ true
        → registered index_map s.site.pool id ≡ false
        → s.created id ≡ 0
        → s.destroyed id ≡ 0
        → is_inserting index_map host id (s.tasks task) ≡ true
        → OnlyInserts s.tasks id task
        → Phase id s
    live :
        fresh.used s.site.history id ≡ true
        → registered index_map s.site.pool id ≡ true
        → s.created id ≡ 1
        → s.destroyed id ≡ 0
        → NoneInserts s.tasks id
        → Phase id s
    dead :
        fresh.used s.site.history id ≡ true
        → registered index_map s.site.pool id ≡ false
        → s.created id ≡ 1
        → s.destroyed id ≡ 1
        → NoneInserts s.tasks id
        → Phase id s

  -- The system after a section of this task.
  abbrev pub moved :
      System index_map host → ℕ → Pc index_map host → Site index_map host → System index_map host
  moved s task pc site = record {
    site = site;
    tasks = update s.tasks task pc;
    created = λ id. counted (made index_map host id (s.tasks task) pc) (s.created id);
    destroyed = λ id. counted (unmade index_map host id (s.tasks task) pc) (s.destroyed id);
  }

  module _ (s : System index_map host) (id : Uuid) (task : ℕ) (pc : Pc index_map host)
      (site : Site index_map host)
      (keeps : fresh.used s.site.history id ≡ true → fresh.used site.history id ≡ true) where
    abbrev pub TaskEffect : Type 0
    TaskEffect = Effect fresh id (s.tasks task) pc s.site site

    none_after :
        NoneInserts s.tasks id
        → is_inserting index_map host id pc ≡ is_inserting index_map host id (s.tasks task)
        → NoneInserts (update s.tasks task pc) id
    none_after n e =
        update_all (λ p. is_inserting index_map host id p ≡ false) s.tasks task pc n (e ∙ n task)

    unborn_moves :
        registered index_map s.site.pool id ≡ false
        → s.created id ≡ 0
        → s.destroyed id ≡ 0
        → NoneInserts s.tasks id
        → is_inserting index_map host id (s.tasks task) ≡ false
        → TaskEffect
        → Phase id (moved s task pc site)
    unborn_moves g c d n i (stays e r m u) = unborn (r ∙ g) (rw (m, c)) (rw (u, d)) (none_after n e)
    unborn_moves g c d n i (draws e e' f f' r m u) =
        awaited task f' (r ∙ g) (rw (m, c)) (rw (u, d))
          (ap (is_inserting index_map host id) (update_same s.tasks task pc) ∙ e')
          λ other ne.
            ap (is_inserting index_map host id) (update_other s.tasks task other pc ne) ∙ n other
    unborn_moves g c d n i (registers e e' r m u) = cc
    unborn_moves g c d n i (removes e r r' m u) = cc

    -- A sandbox that is there, or was.
    live_moves :
        fresh.used s.site.history id ≡ true
        → registered index_map s.site.pool id ≡ true
        → s.created id ≡ 1
        → s.destroyed id ≡ 0
        → NoneInserts s.tasks id
        → is_inserting index_map host id (s.tasks task) ≡ false
        → TaskEffect
        → Phase id (moved s task pc site)
    live_moves f g c d n i (stays e r m u) =
        live (keeps f) (r ∙ g) (rw (m, c)) (rw (u, d)) (none_after n e)
    live_moves f g c d n i (removes e r r' m u) =
        dead (keeps f) r' (rw (m, c)) (rw (u, d)) (none_after n e)
    live_moves f g c d n i (draws e e' k k' r m u) = cc
    live_moves f g c d n i (registers e e' r m u) = cc

    dead_moves :
        fresh.used s.site.history id ≡ true
        → registered index_map s.site.pool id ≡ false
        → s.created id ≡ 1
        → s.destroyed id ≡ 1
        → NoneInserts s.tasks id
        → is_inserting index_map host id (s.tasks task) ≡ false
        → TaskEffect
        → Phase id (moved s task pc site)
    dead_moves f g c d n i (stays e r m u) =
        dead (keeps f) (r ∙ g) (rw (m, c)) (rw (u, d)) (none_after n e)
    dead_moves f g c d n i (removes e r r' m u) = cc
    dead_moves f g c d n i (draws e e' k k' r m u) = cc
    dead_moves f g c d n i (registers e e' r m u) = cc

    -- The task that drew the identifier goes on.
    drawn_moves :
        fresh.used s.site.history id ≡ true
        → registered index_map s.site.pool id ≡ false
        → s.created id ≡ 0
        → s.destroyed id ≡ 0
        → is_inserting index_map host id (s.tasks task) ≡ true
        → OnlyInserts s.tasks id task
        → TaskEffect
        → Phase id (moved s task pc site)
    drawn_moves f g c d i o (stays e r m u) =
        awaited task (keeps f) (r ∙ g) (rw (m, c)) (rw (u, d))
          (ap (is_inserting index_map host id) (update_same s.tasks task pc) ∙ e ∙ i)
          λ other ne.
            ap (is_inserting index_map host id) (update_other s.tasks task other pc ne) ∙ o other ne
    drawn_moves f g c d i o (registers e e' r m u) =
        live (keeps f) r (rw (m, c)) (rw (u, d)) λ other. elim (Bool-cases (other == task)) [
          | inl q ↦ rw q e'
          | inr q ↦ rw q (o other (differ other task q))
        ]
    drawn_moves f g c d i o (removes e r r' m u) = cc
    drawn_moves f g c d i o (draws e e' k k' r m u) = cc

    -- Another task goes on.
    waiting_moves :
        (holder : ℕ)
        → holder ≢ task
        → fresh.used s.site.history id ≡ true
        → registered index_map s.site.pool id ≡ false
        → s.created id ≡ 0
        → s.destroyed id ≡ 0
        → is_inserting index_map host id (s.tasks holder) ≡ true
        → OnlyInserts s.tasks id holder
        → is_inserting index_map host id (s.tasks task) ≡ false
        → TaskEffect
        → Phase id (moved s task pc site)
    waiting_moves holder ne f g c d i o a (stays e r m u) =
        awaited holder (keeps f) (r ∙ g) (rw (m, c)) (rw (u, d))
          (ap (is_inserting index_map host id) (update_other s.tasks task holder pc ne) ∙ i)
          λ other ne'. elim (Bool-cases (other == task)) [
            | inl q ↦ rw q (e ∙ a)
            | inr q ↦ rw q (o other ne')
          ]
    waiting_moves holder ne f g c d i o a (registers e e' r m u) = cc
    waiting_moves holder ne f g c d i o a (removes e r r' m u) = cc
    waiting_moves holder ne f g c d i o a (draws e e' k k' r m u) = cc

    pub moves : Phase id s → TaskEffect → Phase id (moved s task pc site)
    moves (unborn g c d n) e = unborn_moves g c d n (n task) e
    moves (live f g c d n) e = live_moves f g c d n (n task) e
    moves (dead f g c d n) e = dead_moves f g c d n (n task) e
    moves (awaited holder f g c d i o) e = elim (Bool-cases (holder == task)) [
      | inl q ↦
          (let p = same holder task q in
            drawn_moves f g c d (ap (λ t. is_inserting index_map host id (s.tasks t)) (sym p) ∙ i)
              (λ other ne. o other (λ z. ne (z ∙ p))) e)
      | inr q ↦
          (let ne = differ holder task q in
            waiting_moves holder ne f g c d i o (o task (λ z. ne (sym z))) e)
    ]
