-- ===== src/Gateway/Routes/Session.antt =====
-- A session of requests with the gateway.
use mathlib.Core.Path.{fun_ext}
use apeiron.Base.{◌≡◌, ◌∙◌, refl, ap, Bool, false, List, [], ◌∷◌}
use apeiron.Base.Outcome.{Outcome, value, panic}
use apeiron.Core.Id.{Uuid}
use apeiron.Gateway.Pool.{IndexMap, SandboxEntry}
use apeiron.Gateway.Pool.Registry.{registered, registered-new}
use apeiron.Gateway.Process.{Host, History}
use apeiron.Gateway.Routes.{State, Request, Response, serve_all, new_state}
use apeiron.Gateway.Routes.Lifecycle.{told, serve_lem}

-- Every request got a response.
abbrev pub AllAnswered : List (Outcome Response) → Type 0
AllAnswered [] = Unit
AllAnswered (value r ∷ answers) = AllAnswered answers
AllAnswered (panic ∷ answers) = ⊥

module _ (index_map : IndexMap SandboxEntry) (host : Host) where
  -- What the responses of a session tell of the sandboxes.
  unfoldable pub told_all :
      List (Request index_map host) → List (Outcome Response) → (Uuid → Bool) → Uuid → Bool
  told_all (q ∷ qs) (value r ∷ answers) known = told_all qs answers (told index_map host q r known)
  told_all _ _ known = known

  -- The statement for a session that begins in any state.
  abbrev Tells : List (Request index_map host) → State index_map host → Type 0
  Tells requests s =
      AllAnswered (serve_all index_map host requests s).0
      × (registered index_map (serve_all index_map host requests s).1.pool
          ≡ told_all requests (serve_all index_map host requests s).0 (registered index_map s.pool))

  serve_all-Tells :
      (requests : List (Request index_map host)) (s : State index_map host)
      → s.pool.poisoned ≡ false
      → Tells requests s
  unfolding serve_all told_all
  serve_all-Tells [] s h = (tt, refl)
  serve_all-Tells (q ∷ qs) s h =
      let v = serve_lem index_map host q s h in
      let (answered, same) = serve_all-Tells qs v.state v.unpoisoned in
      rw v.answers (
        answered,
        same ∙ ap (told_all qs (serve_all index_map host qs v.state).0) (fun_ext v.tells),
      )

  nothing_registered :
      (past : History) (j : Uuid)
      → registered index_map (new_state index_map host past).pool j ≡ false
  unfolding new_state
  nothing_registered past j = registered-new index_map j

  -- In a session with a new gateway every request gets a response, and the identifiers that are
  -- registered at the end are exactly those that the responses tell: created and not destroyed since.
  pub serve_all-told :
      (requests : List (Request index_map host)) (past : History)
      → AllAnswered (serve_all index_map host requests (new_state index_map host past)).0
        × ((j : Uuid)
            → registered index_map
                (serve_all index_map host requests (new_state index_map host past)).1.pool
                j
              ≡ told_all requests
                  (serve_all index_map host requests (new_state index_map host past)).0
                  (λ _. false)
                  j)
  serve_all-told requests past =
      let (answered, same) =
        serve_all-Tells requests (new_state index_map host past) (unfold new_state in refl) in
      let fresh =
        ap (told_all requests (serve_all index_map host requests (new_state index_map host past)).0)
          (fun_ext (nothing_registered past)) in
      (answered, λ j. ap (λ (f : Uuid → Bool). f j) (same ∙ fresh))
