-- ===== src/Executor/Config.antt =====
-- forge-executor/src/config.rs and forge-executor/src/handle.rs. A child process is its number.
use apeiron.Base.{ℕ, Text, codes}
use apeiron.Core.Id.{Uuid}
use apeiron.Core.Id.Forms.{UuidText}
use apeiron.Core.Block.{DateTime}
use apeiron.Std.FilePath.{PathBuf}

-- `vcpu_count` is a `u8`, `mem_size_mib` a `u32`.
pub record VmConfig : Type 0 where
  pub kernel_path : PathBuf
  pub rootfs_path : PathBuf
  pub vcpu_count : ℕ
  pub mem_size_mib : ℕ
  pub boot_args : Text

unfoldable pub new_vm_config : PathBuf → PathBuf → VmConfig
new_vm_config kernel_path rootfs_path = record {
  kernel_path = kernel_path;
  rootfs_path = rootfs_path;
  vcpu_count = 1;
  mem_size_mib = 128;
  boot_args = codes "console=ttyS0 reboot=k panic=1 pci=off";
}

-- The executor has a snapshot identifier of its own.
pub record SnapshotId : Type 0 where
  pub uuid : Uuid

unfoldable pub new_snapshot_id : Uuid → SnapshotId
new_snapshot_id random = record { uuid = random }

-- `Default` and `Display for SnapshotId`
unfoldable pub default_snapshot_id : Uuid → SnapshotId
default_snapshot_id random = new_snapshot_id random

unfoldable pub display_snapshot_id : UuidText → SnapshotId → Text
display_snapshot_id uuid_text id = uuid_text.text id.uuid

abbrev pub Pid : Type 0
Pid = ℕ

pub record VmHandle : Type 0 where
  pub id : Uuid
  pub socket_path : PathBuf
  pub process : Pid
  pub created_at : DateTime

-- The last argument is the time of `Utc::now`.
unfoldable pub new_vm_handle : Uuid → PathBuf → Pid → DateTime → VmHandle
new_vm_handle id socket_path process now = record {
  id = id;
  socket_path = socket_path;
  process = process;
  created_at = now;
}
