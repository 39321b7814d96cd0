-- ===== src/Executor/Backend.antt =====
-- forge-executor/src/backend.rs: the trait `VmmBackend`, as the record of its methods over a state
-- `S` of the backend and what it governs.
use apeiron.Base.{Bytes, Text}
use apeiron.Base.Int.{ℤ}
use apeiron.Core.Execution.{Duration}
use apeiron.Executor.Config.{VmConfig, SnapshotId, VmHandle}
use apeiron.Executor.Action.{Action}

pub record ExecutionOutput : Type 0 where
  pub stdout : Bytes
  pub stderr : Bytes
  pub exit_code : ℤ

pub record VmmBackend (S : Type 0) : Type 0 where
  pub spawn : VmConfig → Action S VmHandle
  pub snapshot : VmHandle → Action S SnapshotId
  pub restore : SnapshotId → Action S VmHandle
  pub terminate : VmHandle → Action S (Unit {0})
  pub health_check : Action S (Unit {0})
  -- what the drop of a handle, and of the child process in it, does
  pub drop_handle : VmHandle → S → S
  pub execute_command : VmConfig → Text → Duration → Action S ExecutionOutput
