-- ===== src/Core/Execution.antt =====
-- forge-core/src/execution.rs. A `Duration` is its nanoseconds.
use apeiron.Base.{ℕ, Option, none, Text}
use apeiron.Core.Id.{Uuid, BlockId, ContentHash, ExecutionId, SnapshotId, UserId, new_execution_id}
use apeiron.Core.Block.{DateTime}

abbrev pub Duration : Type 0
Duration = ℕ

pub data ExecutionStatus : Type 0 where
  pending running succeeded : ExecutionStatus
  failed : Text → ExecutionStatus

pub record ExecutionRecord : Type 0 where
  pub id : ExecutionId
  pub block_id : BlockId
  pub user_id : UserId
  pub input_hash : ContentHash
  pub output_hash : ContentHash
  pub started_at : DateTime
  pub duration : Duration
  pub vm_snapshot_id : Option SnapshotId
  pub status : ExecutionStatus

-- `ExecutionRecord::new`; the first argument is the random number of `ExecutionId::new`.
unfoldable pub new_execution_record :
    Uuid
    → BlockId
    → UserId
    → ContentHash
    → ContentHash
    → DateTime
    → Duration
    → ExecutionStatus
    → ExecutionRecord
unfolding new_execution_id
new_execution_record random block_id user_id input_hash output_hash started_at duration status =
    record {
      id = new_execution_id random;
      block_id = block_id;
      user_id = user_id;
      input_hash = input_hash;
      output_hash = output_hash;
      started_at = started_at;
      duration = duration;
      vm_snapshot_id = none;
      status = status;
    }
