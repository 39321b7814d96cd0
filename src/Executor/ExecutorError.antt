-- ===== src/Executor/ExecutorError.antt =====
-- forge-executor/src/error.rs. An error of the operating system is its number; its text, and that
-- of a `Uuid`, are parameters of `Display`.
use apeiron.Base.{ℕ, Text, ◌++◌, codes}
use apeiron.Core.Id.{Uuid}
use apeiron.Std.FilePath.{PathBuf}

abbrev pub IoError : Type 0
IoError = ℕ

pub data ExecutorError : Type 0 where
  binary_not_found : PathBuf → ExecutorError
  kvm_unavailable : Text → ExecutorError
  spawn_failed : Text → ExecutorError
  snapshot_failed : Uuid → Text → ExecutorError
  restore_failed : Uuid → Text → ExecutorError
  api_error : Text → ExecutorError
  vm_not_found : Uuid → ExecutorError
  io : IoError → ExecutorError

-- `Display`, as `thiserror` derives it from the formats.
unfoldable pub display_error : (Uuid → Text) → (IoError → Text) → ExecutorError → Text
display_error uuid_text io_text (binary_not_found path) =
    codes "firecracker binary not found at " ++ path
display_error uuid_text io_text (kvm_unavailable reason) = codes "KVM not available: " ++ reason
display_error uuid_text io_text (spawn_failed reason) = codes "VM spawn failed: " ++ reason
display_error uuid_text io_text (snapshot_failed vm_id reason) =
    codes "snapshot failed for VM " ++ (uuid_text vm_id ++ (codes ": " ++ reason))
display_error uuid_text io_text (restore_failed snapshot_id reason) =
    codes "restore failed for snapshot " ++ (uuid_text snapshot_id ++ (codes ": " ++ reason))
display_error uuid_text io_text (api_error reason) = codes "API request failed: " ++ reason
display_error uuid_text io_text (vm_not_found id) = codes "VM not found: " ++ uuid_text id
display_error uuid_text io_text (io e) = io_text e
