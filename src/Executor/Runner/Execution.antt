-- ===== src/Executor/Runner/Execution.antt =====
-- What a run of a block records (forge-executor/src/runner.rs).
use apeiron.Base.{refl, ◌-◌, none, ◌≡◌, sym, ap, ◌∙◌, ◌++◌, [], Bytes}
use apeiron.Core.Block.{Block}
use apeiron.Core.Execution.{ExecutionRecord, new_execution_record, succeeded}
use apeiron.Executor.Action.{err, panicked, continue, Result, ok, Action}
use apeiron.Action.Rules.{>>=-ok}
use apeiron.Executor.Backend.{ExecutionOutput}
use apeiron.Executor.Runner.{Sha256, Clock, BlockRunner, compute_hash, build_command, execute}
use apeiron.Executor.Runner.Hash.{compute_hash_cut}

ok_injective : {A : Type 0} (a b : A) → ◌≡◌ {A = Result A} (ok a) (ok b) → a ≡ b
ok_injective a b e = cc

module _ {S : Type 0} (sha : Sha256) (clock : Clock S) (self : BlockRunner S) (block : Block) where
  -- The call of the backend in a run.
  abbrev pub backend_call : Action S ExecutionOutput
  backend_call =
      self.backend.execute_command self.vm_config (build_command block.manifest.name) self.timeout

  -- What the record of a run says: the run began in the state `s`, and the output came in `s'`.
  pub record Records (s s' : S) (input : Bytes) (output : ExecutionOutput) (r : ExecutionRecord)
      : Type 0 where
    pub block_of : r.block_id ≡ block.id
    pub input_of : r.input_hash ≡ compute_hash sha input []
    pub output_of : r.output_hash ≡ compute_hash sha output.stdout output.stderr
    pub start_of : r.started_at ≡ clock.now s
    pub duration_of : r.duration ≡ clock.instant s' - clock.instant s
    pub no_snapshot : r.vm_snapshot_id ≡ none
    pub status_of : r.status ≡ succeeded

  -- The end of a run that has the output of the backend's execution, or its error.
  unfoldable pub RunEnd : S → S → Bytes → Result ExecutionOutput → Result ExecutionRecord → Type 0
  RunEnd s s' input (ok output) (ok r) = Records s s' input output r
  RunEnd s s' input (err e) (err e') = e ≡ e'
  RunEnd s s' input panicked panicked = Unit
  RunEnd s s' input _ _ = ⊥

  run_end :
      (r : Result ExecutionOutput) (s s' : S) (input : Bytes)
      (f : ExecutionOutput → Action S ExecutionRecord)
      → ((output : ExecutionOutput)
          → (q : ExecutionRecord) × (f output s' ≡ (ok q, s')) × Records s s' input output q)
      → ((continue r f s').1 ≡ s') × RunEnd s s' input r (continue r f s').0
  unfolding RunEnd
  run_end (ok output) s s' input f h = let (q, e, told) = h output in rw e (refl, told)
  run_end (err e) s s' input f h = (refl, refl)
  run_end panicked s s' input f h = (refl, tt)

  -- A run ends as the backend's execution of the block's command does, in the state that it leaves:
  -- with a record when it returned an output, with its error when it failed, and with a panic when it
  -- panicked. The record has the block's identifier, the hash of the input, the hash of the two
  -- outputs, the time of the start, and the time that passed; its status is `Succeeded`, whatever
  -- the exit code was.
  pub execute_lem :
      (input : Bytes) (s : S)
      → ((execute sha clock self block input s).1 ≡ (backend_call s).1)
        × RunEnd s
            (backend_call s).1
            input
            (backend_call s).0
            (execute sha clock self block input s).0
  unfolding execute new_execution_record RunEnd
  execute_lem input s = run_end (backend_call s).0 s (backend_call s).1 input _ λ output. (
    _,
    refl,
    record {
      block_of = refl;
      input_of = refl;
      output_of = refl;
      start_of = refl;
      duration_of = refl;
      no_snapshot = refl;
      status_of = refl;
    },
  )

  -- A run returns a record only if the backend's execution of the block's command does, and the
  -- record is that of this output: the hash of the input, the hash of the two outputs, the times.
  -- Its status is `Succeeded`, whatever the exit code was.
  pub execute_output :
      (input : Bytes) (s s' : S) (r : ExecutionRecord)
      → execute sha clock self block input s ≡ (ok r, s')
      → (output : ExecutionOutput) × (backend_call s ≡ (ok output, s'))
        × Records s s' input output r
  unfolding execute new_execution_record
  execute_output input s s' r e =
      let (output, t, p, q) = >>=-ok backend_call _ s s' r e in
      let same = ok_injective _ r (λ i. (q i).0) in
      let last : t ≡ s' = λ i. (q i).1 in
      (
        output,
        p ∙ (λ i. (ok output, last i)),
        record {
          block_of = sym (ap (λ (u : ExecutionRecord). u.block_id) same);
          input_of = sym (ap (λ (u : ExecutionRecord). u.input_hash) same);
          output_of = sym (ap (λ (u : ExecutionRecord). u.output_hash) same);
          start_of = sym (ap (λ (u : ExecutionRecord). u.started_at) same);
          duration_of =
              sym (ap (λ (u : ExecutionRecord). u.duration) same)
              ∙ ap (λ u. clock.instant u - clock.instant s) last;
          no_snapshot = sym (ap (λ (u : ExecutionRecord). u.vm_snapshot_id) same);
          status_of = sym (ap (λ (u : ExecutionRecord). u.status) same);
        },
      )

  -- If two runs of one block with one input, at any times and from any states, both return a
  -- record, and stdout followed by stderr is the same bytes in both, then the two records have the
  -- same output hash, input hash and block.
  execute_deterministic :
      (input : Bytes) (s s' t t' : S) (r q : ExecutionRecord) (a b : ExecutionOutput)
      → execute sha clock self block input s ≡ (ok r, s')
      → execute sha clock self block input t ≡ (ok q, t')
      → backend_call s ≡ (ok a, s')
      → backend_call t ≡ (ok b, t')
      → a.stdout ++ a.stderr ≡ b.stdout ++ b.stderr
      → (r.output_hash ≡ q.output_hash) × (r.input_hash ≡ q.input_hash) × (r.block_id ≡ q.block_id)
  execute_deterministic input s s' t t' r q a b er eq ea eb same =
      let (out, p, rec) = execute_output input s s' r er in
      let (out', p', rec') = execute_output input t t' q eq in
      let x = ok_injective out a (ap (λ (u : Result ExecutionOutput × S). u.0) (sym p ∙ ea)) in
      let y = ok_injective out' b (ap (λ (u : Result ExecutionOutput × S). u.0) (sym p' ∙ eb)) in
      let hash_of = λ (o : ExecutionOutput). compute_hash sha o.stdout o.stderr in
      (
        rec.output_of
            ∙ ap hash_of x
            ∙ compute_hash_cut sha a.stdout a.stderr b.stdout b.stderr same
            ∙ sym (rec'.output_of ∙ ap hash_of y),
        rec.input_of ∙ sym rec'.input_of,
        rec.block_of ∙ sym rec'.block_of,
      )
