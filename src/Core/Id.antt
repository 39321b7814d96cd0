-- ===== src/Core/Id.antt =====
-- forge-core/src/id.rs. A `Uuid` of the crate `uuid` is its 128-bit number; a call of `Uuid::new_v4`
-- is an argument of the function that makes it. The text of a `Uuid` is that crate's too.
pub mod Hex
pub mod Forms
use apeiron.Base.{ℕ, ◌+◌, ◌-◌, ◌/◌, ◌%◌, [], ◌∷◌, ltb, if◌then◌else◌, Bytes, Text}

abbrev pub Uuid : Type 0
Uuid = ℕ

pub record BlockId : Type 0 where
  pub uuid : Uuid

unfoldable pub new_block_id : Uuid → BlockId
new_block_id random = record { uuid = random }

-- `as_uuid`
unfoldable pub as_uuid : BlockId → Uuid
as_uuid id = id.uuid

-- `From<Uuid> for BlockId`
unfoldable pub block_id_from : Uuid → BlockId
block_id_from uuid = record { uuid = uuid }

pub record ExecutionId : Type 0 where
  pub uuid : Uuid

unfoldable pub new_execution_id : Uuid → ExecutionId
new_execution_id random = record { uuid = random }

pub record UserId : Type 0 where
  pub name : Text

unfoldable pub new_user_id : Text → UserId
new_user_id id = record { name = id }

pub record ContributorId : Type 0 where
  pub name : Text

unfoldable pub new_contributor_id : Text → ContributorId
new_contributor_id id = record { name = id }

pub record SnapshotId : Type 0 where
  pub uuid : Uuid

unfoldable pub new_snapshot_id : Uuid → SnapshotId
new_snapshot_id random = record { uuid = random }

pub record DerivationHash : Type 0 where
  pub hash : Text

unfoldable pub new_derivation_hash : Text → DerivationHash
new_derivation_hash hash = record { hash = hash }

-- `[u8; 32]`: the array's length is a hypothesis where it matters.
pub record ContentHash : Type 0 where
  pub bytes : Bytes

unfoldable pub new_content_hash : Bytes → ContentHash
new_content_hash bytes = record { bytes = bytes }

unfoldable pub as_bytes : ContentHash → Bytes
as_bytes hash = hash.bytes

hex_digit : ℕ → ℕ
hex_digit d = if ltb d 10 then b'0' + d else b'a' + (d - 10)

-- `{byte:02x}`, for each byte.
unfoldable pub hex_bytes : Bytes → Text
unfolding hex_digit
hex_bytes [] = []
hex_bytes (b ∷ bs) = hex_digit (b / 16) ∷ hex_digit (b % 16) ∷ hex_bytes bs

-- `Display for ContentHash`
unfoldable pub display_hash : ContentHash → Text
unfolding hex_bytes
display_hash hash = hex_bytes hash.bytes
