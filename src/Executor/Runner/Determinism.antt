-- ===== src/Executor/Runner/Determinism.antt =====
-- The test git_block_five_runs_produce_identical_hash of forge-executor/tests/block_execution.rs, for
-- any number of runs of any block: it passes wherever the console reports one output.
use apeiron.Base.{ℕ, zero, suc, ◌≡◌, Bool, true, ◌&&◌, List, [], ◌∷◌, Bytes, text_eq}
use apeiron.Core.Id.{ContentHash}
use apeiron.Core.Block.{Block}
use apeiron.Core.Execution.{ExecutionRecord}
use apeiron.Executor.Backend.{ExecutionOutput}
use apeiron.Executor.Action.{Result, ok, err, panicked, Action, pure, ◌>>=◌}
use apeiron.Executor.Runner.{Sha256, Clock, BlockRunner, compute_hash, execute}

-- `unwrap_or_else(|e| panic!(…))`
unfoldable pub no_error : {A : Type 0} → Result A → Result A
no_error (ok a) = ok a
no_error (err e) = panicked
no_error panicked = panicked

unfoldable pub expect : {S A : Type 0} → Action S A → Action S A
unfolding no_error
expect m s = let (r, s') = m s in (no_error r, s')

-- The hashes of some runs, one after the other.
unfoldable pub run_hashes :
    {S : Type 0}
    → Sha256
    → Clock S
    → BlockRunner S
    → Block
    → Bytes
    → ℕ
    → Action S (List ContentHash)
unfolding expect
run_hashes sha clock runner block input zero = pure []
run_hashes sha clock runner block input (suc runs) = do
  r ← expect (execute sha clock runner block input)
  hashes ← run_hashes sha clock runner block input runs
  pure (r.output_hash ∷ hashes)

-- `hashes.windows(2).all(|w| w[0] == w[1])`
unfoldable pub all_identical : List ContentHash → Bool
all_identical [] = true
all_identical (h ∷ []) = true
all_identical (h ∷ h' ∷ hashes) = text_eq h.bytes h'.bytes && all_identical (h' ∷ hashes)

-- One hash, over and over.
abbrev pub copies : ℕ → ContentHash → List ContentHash
copies zero h = []
copies (suc n) h = h ∷ copies n h

-- A record of a run of this block, with this input, that gave this output.
pub record IsRecordOf (sha : Sha256) (block : Block) (input : Bytes) (output : ExecutionOutput)
    (r : ExecutionRecord) : Type 0 where
  pub block_of : r.block_id ≡ block.id
  pub input_of : r.input_hash ≡ compute_hash sha input []
  pub output_of : r.output_hash ≡ compute_hash sha output.stdout output.stderr

-- So many times this hash, which the test finds identical.
pub record AreCopies (n : ℕ) (h : ContentHash) (hashes : List ContentHash) : Type 0 where
  pub listed : hashes ≡ copies n h
  pub identical : all_identical hashes ≡ true
