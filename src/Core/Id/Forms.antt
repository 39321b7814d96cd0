-- ===== src/Core/Id/Forms.antt =====
-- The other traits of the identifiers of forge-core/src/id.rs: `Default`, `Display` and `From`. The text of
-- a `Uuid` is that of the crate `uuid`.
use apeiron.Base.{count, ◌≡◌, length, Text}
use apeiron.Core.Id.{
  Uuid, BlockId, new_block_id, ExecutionId, new_execution_id, UserId, ContributorId, SnapshotId,
  new_snapshot_id, DerivationHash,
}

-- `Display for Uuid`: 36 characters, of which four are dashes, and no two have the same.
pub record UuidText : Type 0 where
  pub text : Uuid → Text
  pub text_size : (id : Uuid) → length (text id) ≡ 36
  pub text_dashes : (id : Uuid) → count b'-' (text id) ≡ 4
  pub text_injective : (a b : Uuid) → text a ≡ text b → a ≡ b

unfoldable pub default_block_id : Uuid → BlockId
default_block_id random = new_block_id random

unfoldable pub display_block_id : UuidText → BlockId → Text
display_block_id uuid_text id = uuid_text.text id.uuid

unfoldable pub default_execution_id : Uuid → ExecutionId
default_execution_id random = new_execution_id random

-- `From<Uuid> for ExecutionId`
unfoldable pub execution_id_from : Uuid → ExecutionId
execution_id_from uuid = record { uuid = uuid }

unfoldable pub display_execution_id : UuidText → ExecutionId → Text
display_execution_id uuid_text id = uuid_text.text id.uuid

unfoldable pub display_user_id : UserId → Text
display_user_id id = id.name

-- `From<String> for UserId`
unfoldable pub user_id_from : Text → UserId
user_id_from s = record { name = s }

unfoldable pub display_contributor_id : ContributorId → Text
display_contributor_id id = id.name

-- `From<String> for ContributorId`
unfoldable pub contributor_id_from : Text → ContributorId
contributor_id_from s = record { name = s }

unfoldable pub default_snapshot_id : Uuid → SnapshotId
default_snapshot_id random = new_snapshot_id random

unfoldable pub display_snapshot_id : UuidText → SnapshotId → Text
display_snapshot_id uuid_text id = uuid_text.text id.uuid

unfoldable pub display_derivation_hash : DerivationHash → Text
display_derivation_hash hash = hash.hash
