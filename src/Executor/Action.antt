-- ===== src/Executor/Action.antt =====
-- The actions of the executor: those that fail with an `ExecutorError`.
use apeiron.Action as Generic
use apeiron.Executor.ExecutorError.{ExecutorError}
pub use apeiron.Action.{
  ok, err, panicked, pure, fail, lift, map_result, map_err, continue, attempt, ◌>>=◌, ◌>>◌,
}

abbrev pub Result : Type 0 → Type 0
Result A = Generic.Result ExecutorError A

abbrev pub Action : Type 0 → Type 0 → Type 0
Action S A = Generic.Action ExecutorError S A
