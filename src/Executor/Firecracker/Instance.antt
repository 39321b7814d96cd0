-- ===== src/Executor/Firecracker/Instance.antt =====
-- `impl VmmBackend for FirecrackerBackend` (forge-executor/src/firecracker.rs): the methods of the
-- modules beside this one, as a backend. A handle that is dropped kills its process.
use apeiron.Base.{◌∷◌}
use apeiron.Executor.Backend.{VmmBackend}
use apeiron.Executor.Host.{Env, Trace, dropped}
use apeiron.Executor.Firecracker.{FirecrackerBackend}
use apeiron.Executor.Firecracker.Lifecycle.{spawn, restore, terminate, health_check}
use apeiron.Executor.Firecracker.Snapshot.{snapshot}
use apeiron.Executor.Firecracker.Execute.{execute_command}

abbrev pub firecracker : Env → FirecrackerBackend → VmmBackend Trace
firecracker env self = record {
  spawn = spawn env self;
  snapshot = snapshot env self;
  restore = restore env self;
  terminate = terminate env self;
  health_check = health_check env self;
  drop_handle = λ handle t. dropped handle.process ∷ t;
  execute_command = execute_command env self;
}
