-- ===== src/Executor/Firecracker/Requests.antt =====
-- The requests that `snapshot` (forge-executor/src/firecracker.rs) sends, and their order.
use apeiron.Base.{◌≡◌, refl, ap, inl, inr, ◌⊎◌, some, ◌∷◌, ◌++◌, Text, codes}
use apeiron.Base.Outcome.{Outcome, Outcome-cases, value, panic}
use apeiron.Action.Rules.{Fails, FailsWith}
use apeiron.Executor.ExecutorError.{ExecutorError, IoError, io, snapshot_failed}
use apeiron.Executor.Config.{VmHandle, SnapshotId, new_snapshot_id}
use apeiron.Executor.Action.{
  Result, ok, err, panicked, Action, pure, lift, map_result, attempt, ◌>>=◌, ◌>>◌,
}
use apeiron.Executor.Host.{
  Answer-cases, Env, Trace, Event, Json, done, failed, built, put, patch, api_call, create_dir_all,
  drew_uuid,
}
use apeiron.Executor.UnixClient.Calls.{Adds, IsApiError, api_request-Adds, api_request-FailsWith}
use apeiron.Executor.Firecracker.{
  FirecrackerBackend, to_string, snapshot_mem_path, snapshot_state_path,
}
use apeiron.Executor.Firecracker.Snapshot.{state_body, create_body, pause, resume, create, snapshot}

-- A step that adds one event succeeds or fails.
unfoldable pub Outcomes : {A : Type 0} → Event → Result A × Trace → Trace → Type 0
Outcomes {A} e r t = ((a : A) × (r ≡ (ok a, e ∷ t))) ⊎ ((x : ExecutorError) × (r ≡ (err x, e ∷ t)))

outcomes :
    {A : Type 0} (e : Event) (r : Result A) (t t' : Trace)
    → t' ≡ e ∷ t
    → Fails IsApiError r
    → Outcomes e (r, t') t
unfolding Outcomes
outcomes e (ok a) t t' p f = inl (a, ap (λ s. (ok a, s)) p)
outcomes e (err x) t t' p f = inr (x, ap (λ s. (err x, s)) p)
outcomes e panicked t t' p f = elim f [ ]

pub call-Outcomes :
    {A : Type 0} (e : Event) (m : Action Trace A) (t : Trace)
    → Adds e m
    → FailsWith IsApiError m
    → Outcomes e (m t) t
call-Outcomes e m t k f = outcomes e (m t).0 t (m t).1 (k.at t) (f.at t)

module _ (env : Env) (handle : VmHandle) where
  unfoldable pub pause_call : Event
  pause_call =
      api_call handle.socket_path patch (codes "/vm")
        (some (env.json_text (state_body (codes "Paused"))))

  unfoldable pub resume_call : Event
  resume_call =
      api_call handle.socket_path patch (codes "/vm")
        (some (env.json_text (state_body (codes "Resumed"))))

  unfoldable pub create_call : Json → Event
  create_call body =
      api_call handle.socket_path put (codes "/snapshot/create") (some (env.json_text body))

  pause-Outcomes : (t : Trace) → Outcomes pause_call (pause env handle t) t
  unfolding pause pause_call
  pause-Outcomes t =
      call-Outcomes pause_call (pause env handle) t (api_request-Adds env _ _ _ _)
        (api_request-FailsWith env _ _ _ _)

  resume-Outcomes : (t : Trace) → Outcomes resume_call (resume env handle t) t
  unfolding resume resume_call
  resume-Outcomes t =
      call-Outcomes resume_call (resume env handle) t (api_request-Adds env _ _ _ _)
        (api_request-FailsWith env _ _ _ _)

  create-Outcomes :
      (body : Json) (t : Trace) → Outcomes (create_call body) (create env handle body t) t
  unfolding create create_call
  create-Outcomes body t =
      call-Outcomes (create_call body) (create env handle body) t (api_request-Adds env _ _ _ _)
        (api_request-FailsWith env _ _ _ _)

-- The result of `snapshot`, from that of the request that makes it.
unfoldable pub snapshot_result : Env → VmHandle → SnapshotId → Result Text → Result SnapshotId
snapshot_result env handle id (ok body) = ok id
snapshot_result env handle id (err e) = err (snapshot_failed handle.id (to_string env e))
snapshot_result env handle id panicked = panicked

module _ (env : Env) (self : FirecrackerBackend) (handle : VmHandle) (t : Trace) where
  abbrev id : SnapshotId
  id = new_snapshot_id (env.random t)

  -- The trace once the directory was asked for.
  abbrev made : Trace
  made = create_dir_all self.snapshot_dir ∷ drew_uuid ∷ t

  -- The trace once the pause was asked for.
  abbrev sent : Trace
  sent = pause_call env handle ∷ made

  abbrev json : Outcome Json
  json = create_body env (snapshot_state_path env self id) (snapshot_mem_path env self id)

  -- Behind a pause that succeeded.
  unfoldable pub CreateEnd : Result SnapshotId × Trace → Type 0
  CreateEnd r =
      ((json ≡ panic) × (r ≡ (panicked, sent)))
      ⊎ ((body : Json) × (json ≡ value body)
          × (r ≡ (
            snapshot_result env handle id (create env handle body sent).0,
            resume_call env handle ∷ create_call env handle body ∷ sent,
          )))

  -- Behind the directory.
  unfoldable pub PauseEnd : Result SnapshotId × Trace → Type 0
  PauseEnd r =
      ((e : ExecutorError) × (pause env handle made ≡ (err e, sent))
        × (r ≡ (err (snapshot_failed handle.id (codes "pause failed: " ++ to_string env e)), sent)))
      ⊎ ((a : Text) × (pause env handle made ≡ (ok a, sent)) × CreateEnd r)

  unfoldable pub SnapshotEnd : Result SnapshotId × Trace → Type 0
  SnapshotEnd r =
      ((e : IoError) × (env.make_dirs (drew_uuid ∷ t) self.snapshot_dir ≡ failed e)
        × (r ≡ (err (io e), made)))
      ⊎ ((env.make_dirs (drew_uuid ∷ t) self.snapshot_dir ≡ done tt) × PauseEnd r)

  -- What `snapshot` does behind a pause that succeeded.
  abbrev create_and_resume : Action Trace SnapshotId
  create_and_resume = do
    body ← built json
    result ← attempt (create env handle body)
    attempt (resume env handle)
    lift (map_result (λ e. snapshot_failed handle.id (to_string env e)) result)
    pure id

  resumed :
      (body : Json)
      → json ≡ value body
      → create_and_resume sent ≡ (
        snapshot_result env handle id (create env handle body sent).0,
        resume_call env handle ∷ create_call env handle body ∷ sent,
      )
  unfolding snapshot_result Outcomes
  resumed body j = elim (create-Outcomes env handle body sent) [
    | inl (b, c) ↦ elim (resume-Outcomes env handle (create_call env handle body ∷ sent)) [
      | inl (b', c') ↦ rw (j, c, c') refl
      | inr (b', c') ↦ rw (j, c, c') refl
    ]
    | inr (b, c) ↦ elim (resume-Outcomes env handle (create_call env handle body ∷ sent)) [
      | inl (b', c') ↦ rw (j, c, c') refl
      | inr (b', c') ↦ rw (j, c, c') refl
    ]
  ]

  create_lem : CreateEnd (create_and_resume sent)
  unfolding CreateEnd
  create_lem = elim (Outcome-cases json) [
    | inl j ↦ inl (j, rw j refl)
    | inr (body, j) ↦ inr (body, j, resumed body j)
  ]

  -- A snapshot fails with the error of its directory if that cannot be made, with no request sent. It
  -- fails with "pause failed" if the request to pause fails, with no other request sent. After a pause that
  -- succeeded it panics if a path of the snapshot is not UTF-8, and no request to resume is sent; if the
  -- paths are, it sends the request that makes the snapshot and last the one to resume, whatever comes of
  -- both, and returns what came of the first of the two.
  pub snapshot_lem : SnapshotEnd (snapshot env self handle t)
  unfolding snapshot SnapshotEnd PauseEnd Outcomes
  snapshot_lem = elim (Answer-cases (env.make_dirs (drew_uuid ∷ t) self.snapshot_dir)) [
    | inr (e, q) ↦ inl (e, q, rw q refl)
    | inl (u, q) ↦ inr (
      q,
      elim (pause-Outcomes env handle made) [
        | inr (e, q') ↦ inl (e, q', rw (q, q') refl)
        | inl (a, q') ↦ inr (a, q', rw (q, q') create_lem)
      ],
    )
  ]
