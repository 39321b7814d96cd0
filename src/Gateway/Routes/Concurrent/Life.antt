-- ===== src/Gateway/Routes/Concurrent/Life.antt =====
-- The life of one sandbox under concurrent requests, and what one section does to it.
use apeiron.Base.{
  ℕ, ◌≡◌, refl, sym, ap, ◌∙◌, inl, inr, Bool-cases, Bool, true, false, not, ◌&&◌, ◌==◌, arith, Text,
  text_eq, codes, ◌∷◌,
}
use apeiron.Base.Families.{same}
use apeiron.Core.Id.{Uuid}
use apeiron.Action.{Result, ok, err, panicked}
use apeiron.Gateway.Pool.{IndexMap, SandboxEntry}
use apeiron.Gateway.Pool.Registry.{
  registered, create-registered, remove-registered, contains-registered,
}
use apeiron.Gateway.GatewayError.{GatewayError}
use apeiron.Gateway.Process.{Host, History, drew_uuid, ShellResult}
use apeiron.Gateway.Routes.{
  Request, health_request, create_request, destroy_request, shell_request, execute_request,
  Response, CreateSandboxBody, pool_contains,
}
use apeiron.Gateway.Routes.Sections.{
  Pc, idle, received, inserting, running_shell, running_code, answered, Site, ending, section,
  receive, checked, removed,
}
use apeiron.Gateway.Routes.Concurrent.{FreshDraws, is_inserting, made, unmade}

-- A removal that finds nothing changes nothing.
unregistered :
    (id sandbox : Uuid) (before after : Bool)
    → after ≡ (not (sandbox == id) && before)
    → (id ≡ sandbox → before ≡ false)
    → after ≡ before
unregistered id sandbox before after e h = elim (Bool-cases (id == sandbox)) [
  | inl k ↦ (let b = h (same id sandbox k) in ground arith)
  | inr k ↦ ground arith
]

module _ {index_map : IndexMap SandboxEntry} {host : Host} (fresh : FreshDraws host) where
  -- What a section does to a sandbox.
  pub data Effect (id : Uuid) (pc pc' : Pc index_map host) (s s' : Site index_map host)
      : Type 0 where
    stays :
        is_inserting index_map host id pc' ≡ is_inserting index_map host id pc
        → registered index_map s'.pool id ≡ registered index_map s.pool id
        → made index_map host id pc pc' ≡ false
        → unmade index_map host id pc pc' ≡ false
        → Effect id pc pc' s s'
    draws :
        is_inserting index_map host id pc ≡ false
        → is_inserting index_map host id pc' ≡ true
        → fresh.used s.history id ≡ false
        → fresh.used s'.history id ≡ true
        → registered index_map s'.pool id ≡ registered index_map s.pool id
        → made index_map host id pc pc' ≡ false
        → unmade index_map host id pc pc' ≡ false
        → Effect id pc pc' s s'
    registers :
        is_inserting index_map host id pc ≡ true
        → is_inserting index_map host id pc' ≡ false
        → registered index_map s'.pool id ≡ true
        → made index_map host id pc pc' ≡ true
        → unmade index_map host id pc pc' ≡ false
        → Effect id pc pc' s s'
    removes :
        is_inserting index_map host id pc' ≡ is_inserting index_map host id pc
        → registered index_map s.pool id ≡ true
        → registered index_map s'.pool id ≡ false
        → made index_map host id pc pc' ≡ false
        → unmade index_map host id pc pc' ≡ true
        → Effect id pc pc' s s'

  abbrev pub SectionEffect : Uuid → Pc index_map host → Site index_map host → Type 0
  SectionEffect id pc s =
      Effect id pc (section index_map host pc s).0 s (section index_map host pc s).1

  destroy-Effect :
      (id sandbox : Uuid) (s : Site index_map host)
      → s.pool.poisoned ≡ false
      → SectionEffect id (received (destroy_request sandbox)) s
  unfolding section receive removed is_inserting made unmade
  destroy-Effect id sandbox s h =
      let (after, e, h', r) = remove-registered index_map sandbox s.pool h in
      elim (Bool-cases (registered index_map s.pool sandbox)) [
        | inl q ↦ elim (Bool-cases (id == sandbox)) [
          | inl k ↦
              rw (e, q)
                (removes refl (ap (registered index_map s.pool) (same id sandbox k) ∙ q)
                  (ground (arith, r id, k)) refl k)
          | inr k ↦ rw (e, q) (stays refl (ground (arith, r id, k)) refl k)
        ]
        | inr q ↦
            rw (e, q)
              (stays refl
                (unregistered id sandbox _ _ (r id) (λ k. ap (registered index_map s.pool) k ∙ q))
                refl refl)
      ]

  insert-Effect :
      (id drawn : Uuid) (now : ℕ) (runtime : Text) (s : Site index_map host)
      → s.pool.poisoned ≡ false
      → SectionEffect id (inserting drawn now runtime) s
  unfolding section is_inserting made unmade
  insert-Effect id drawn now runtime s h =
      let (after, e, h', r) = create-registered index_map drawn now runtime s.pool h in
      elim (Bool-cases (id == drawn)) [
        | inl k ↦ rw e (registers k refl (ground (arith, r id, k)) k refl)
        | inr k ↦ rw e (stays (sym k) (ground (arith, r id, k)) k refl)
      ]

  drawn_by :
      (id : Uuid) (s : Site index_map host) (pc : Pc index_map host) (drawn now : ℕ)
      (runtime : Text)
      → is_inserting index_map host id pc ≡ false
      → made index_map host id pc (inserting drawn now runtime) ≡ false
      → unmade index_map host id pc (inserting drawn now runtime) ≡ false
      → drawn ≡ host.random s.history
      → Effect id pc (inserting drawn now runtime) s (record s { history = drew_uuid ∷ s.history })
  unfolding is_inserting
  drawn_by id s pc drawn now runtime a b c e = elim (Bool-cases (id == drawn)) [
    | inl k ↦
        (let p = same id drawn k ∙ e in
          draws a k (rw p (fresh.draw_new s.history)) (rw p (fresh.draw_used s.history)) refl b c)
    | inr k ↦ stays (k ∙ sym a) refl b c
  ]

  create-Effect :
      (id : Uuid) (body : CreateSandboxBody) (s : Site index_map host)
      → SectionEffect id (received (create_request body)) s
  unfolding section receive is_inserting made unmade
  create-Effect id body s =
      elim (Bool-cases (
        not (text_eq body.runtime (codes "node")) && not (text_eq body.runtime (codes "python")))) [
          | inl q ↦ rw q (stays refl refl refl refl)
          | inr q ↦ rw q (drawn_by id s _ _ _ _ refl refl refl refl)
        ]

  checked-rest :
      (id sandbox : Uuid) (next : Pc index_map host) (r : Result GatewayError Bool)
      → is_inserting index_map host id next ≡ false
      → is_inserting index_map host id (checked index_map host sandbox next r) ≡ false
  unfolding checked is_inserting
  checked-rest id sandbox next r h = ground arith

  -- The check of a program's request, and the program, leave the sandboxes.
  checked-Effect :
      (id sandbox : Uuid) (request : Request index_map host) (next : Pc index_map host)
      (s : Site index_map host)
      → s.pool.poisoned ≡ false
      → is_inserting index_map host id next ≡ false
      → ((r : Result GatewayError Bool)
          → unmade index_map host id (received request) (checked index_map host sandbox next r)
            ≡ false)
      → Effect id
          (received request)
          (checked index_map host sandbox next (pool_contains index_map host sandbox s).0)
          s
          (pool_contains index_map host sandbox s).1
  unfolding is_inserting made
  checked-Effect id sandbox request next s h a u =
      rw (contains-registered index_map sandbox s.pool h)
        (stays (checked-rest id sandbox next _ a) refl refl (u _))

  program-Effect :
      (id : Uuid) (pc : Pc index_map host) (s : Site index_map host) (f : ShellResult → Response)
      (r : Result GatewayError ShellResult) (history : History)
      → is_inserting index_map host id pc ≡ false
      → ((pc' : Pc index_map host) → made index_map host id pc pc' ≡ false)
      → ((pc' : Pc index_map host) → unmade index_map host id pc pc' ≡ false)
      → Effect id pc (ending index_map host f r) s (record s { history = history })
  unfolding is_inserting
  program-Effect id pc s f (ok a) history e m u = stays (sym e) refl (m _) (u _)
  program-Effect id pc s f (err x) history e m u = stays (sym e) refl (m _) (u _)
  program-Effect id pc s f panicked history e m u = stays (sym e) refl (m _) (u _)

  pub section-Effect :
      (id : Uuid) (pc : Pc index_map host) (s : Site index_map host)
      → s.pool.poisoned ≡ false
      → SectionEffect id pc s
  unfolding section receive is_inserting made unmade
  section-Effect id idle s h = stays refl refl refl refl
  section-Effect id (answered answer) s h = stays refl refl refl refl
  section-Effect id (received health_request) s h = stays refl refl refl refl
  section-Effect id (received (create_request body)) s h = create-Effect id body s
  section-Effect id (received (destroy_request sandbox)) s h = destroy-Effect id sandbox s h
  section-Effect id (received (shell_request sandbox body)) s h =
      checked-Effect id sandbox (shell_request sandbox body) _ s h refl (λ r. refl)
  section-Effect id (received (execute_request sandbox body)) s h =
      checked-Effect id sandbox (execute_request sandbox body) _ s h refl (λ r. refl)
  section-Effect id (inserting drawn now runtime) s h = insert-Effect id drawn now runtime s h
  section-Effect id (running_shell sandbox command) s h =
      program-Effect id (running_shell sandbox command) s _ _ _ refl (λ pc'. refl) (λ pc'. refl)
  section-Effect id (running_code sandbox runtime source) s h =
      program-Effect id (running_code sandbox runtime source) s _ _ _ refl (λ pc'. refl)
        (λ pc'. refl)
