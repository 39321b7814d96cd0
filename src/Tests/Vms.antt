-- ===== src/Tests/Vms.antt =====
-- The executor (forge-executor) at concrete configurations, with a backend that counts its calls and a
-- host that answers everything at once.
use apeiron.Base.{suc, ◌≡◌, refl, true, none, some, List, [], ◌∷◌, codes}
use apeiron.Base.Int.{pos}
use apeiron.Std.Decimal.{show_ℕ}
use apeiron.Executor.Config.{
  VmConfig, new_vm_config, VmHandle, new_vm_handle, SnapshotId, new_snapshot_id,
}
use apeiron.Executor.Action.{ok, err}
use apeiron.Executor.ExecutorError.{spawn_failed}
use apeiron.Base.{ℕ, ◌<◌, ◌==◌, ◌⊎◌, length}
use apeiron.Action.Rules.{Fails}
use apeiron.Std.BTreeSet.{contains}
use apeiron.Executor.Host.{Env, done, passed, complete}
use apeiron.Executor.Firecracker.{with_defaults, wait_for_socket}
use apeiron.Executor.Firecracker.Snapshot.{snapshot}
use apeiron.Executor.Firecracker.Processes.{undropped}
use apeiron.Executor.Firecracker.Ownership.{
  Use, start_vm, run_in_vm, snapshot_vm, terminate_vm, processes, use_all, use_all-processes,
}
use apeiron.Executor.Firecracker.Waiting.{after_naps, IsAbsent, AppearsAfter, wait_for_socket_lem}
use apeiron.Executor.Firecracker.Requests.{SnapshotEnd, snapshot_lem}
use apeiron.Executor.Firecracker.Spawning.{SpawnEnd, spawn_lem}
use apeiron.Executor.Firecracker.Restoring.{RestoreEnd, restore_lem}
use apeiron.Executor.Firecracker.Lifecycle.{spawn, restore, terminate, health_check}
use apeiron.Executor.Firecracker.Execute.{execute_command}
use apeiron.Executor.Firecracker.Errors.{
  IsHostError, IsSpawnError, IsRestoreError, IsSnapshotError, IsIoError, NamedInUtf8,
  backend_errors,
}
use apeiron.Executor.Firecracker.Paths.{IsUtf8}
use apeiron.Std.FilePath.{PathBuf}
use apeiron.Executor.Orchestrator.{new}
use apeiron.Executor.Orchestrator.Registry.{
  spawn_call, terminate_call, after_call, expected, after_calls, after_calls-expected,
}
use apeiron.Executor.Backend.{VmmBackend}

abbrev pub config : VmConfig
config = new_vm_config (codes "/vmlinux") (codes "/rootfs")

-- A backend whose state counts its calls; a command is its own output.
abbrev pub counting : VmmBackend ℕ
counting = record {
  spawn = λ c s. (ok (new_vm_handle s (codes "/s") s s), suc s);
  snapshot = λ h s. (ok (new_snapshot_id s), suc s);
  restore = λ id s. (ok (new_vm_handle s (codes "/s") s s), suc s);
  terminate = λ h s. (ok tt, suc s);
  health_check = λ s. (ok tt, s);
  drop_handle = λ h s. s;
  execute_command = λ c command timeout s.
      (ok (record { stdout = command; stderr = []; exit_code = pos 1 }), suc s);
}

abbrev vm_7 : VmHandle
vm_7 = new_vm_handle 7 (codes "/s") 8 9

after_calls-expected_example :
    contains 7
      (after_call counting
        (terminate_call vm_7)
        (after_calls counting (spawn_call config ∷ []) (new 7))).active_vms
    ≡ expected counting
        (terminate_call vm_7)
        (after_calls counting (spawn_call config ∷ []) (new 7))
        7
after_calls-expected_example =
    after_calls-expected counting (spawn_call config ∷ []) (terminate_call vm_7) 7 7

-- A host that has every file, and a VM that answers every request.
abbrev pub prompt : Env
prompt = record {
  exists = λ t path. true;
  metadata = λ t path. done tt;
  make_dirs = λ t path. done tt;
  path_variable = none;
  random = λ t. length t;
  now = λ t. length t;
  spawn = λ t binary socket. done (length t);
  kill = λ t pid. done tt;
  read_to_end = λ t pid timeout. complete (codes "FORGE_EXIT:0");
  connect = λ t socket. passed tt;
  handshake = λ t socket. passed tt;
  parse_uri = λ uri. passed tt;
  build_request = λ request. passed tt;
  send_request = λ t request. passed 204;
  collect_body = λ t request. passed [];
  is_success = λ status. status == 204;
  status_text = show_ℕ;
  uuid_text = show_ℕ;
  io_text = show_ℕ;
  json_text = λ json. codes "{}";
  to_str = λ path. some path;
  b64_decode = λ bs. some bs;
}

abbrev uses : List Use
uses =
    start_vm config
    ∷ start_vm config
    ∷ run_in_vm config (codes "true") 1
    ∷ snapshot_vm vm_7
    ∷ terminate_vm vm_7
    ∷ []

use_all-processes_example :
    undropped (use_all prompt with_defaults uses ([], [])).1
    ≡ processes (use_all prompt with_defaults uses ([], [])).0
unfolding processes undropped
use_all-processes_example = use_all-processes prompt with_defaults uses [] [] refl

snapshot_lem_example :
    SnapshotEnd prompt with_defaults vm_7 [] (snapshot prompt with_defaults vm_7 [])
snapshot_lem_example = snapshot_lem prompt with_defaults vm_7 []

spawn_lem_example : SpawnEnd prompt with_defaults config [] (spawn prompt with_defaults config [])
spawn_lem_example = spawn_lem prompt with_defaults config []

restore_lem_example :
    RestoreEnd prompt with_defaults
      (new_snapshot_id 5)
      []
      (restore prompt with_defaults (new_snapshot_id 5) [])
restore_lem_example = restore_lem prompt with_defaults (new_snapshot_id 5) []

wait_for_socket_lem_example :
    ((k : ℕ) × (k < 50)
      × AppearsAfter prompt (codes "/s") k []
      × (wait_for_socket prompt (codes "/s") [] ≡ (ok tt, after_naps k [])))
    ⊎ (IsAbsent prompt (codes "/s") 50 []
        × (wait_for_socket prompt (codes "/s") []
            ≡ (err (spawn_failed (codes "socket /s did not appear within 5s")), after_naps 50 [])))
wait_for_socket_lem_example = wait_for_socket_lem prompt (codes "/s") []

all-IsUtf8 : (path : PathBuf) → IsUtf8 prompt path
all-IsUtf8 path = record { string = path; accepted = refl }

snapshots-NamedInUtf8 : (id : SnapshotId) → NamedInUtf8 prompt with_defaults id
unfolding NamedInUtf8
snapshots-NamedInUtf8 id = (all-IsUtf8 _, all-IsUtf8 _)

backend_errors_example :
    Fails IsHostError (health_check prompt with_defaults []).0
    × Fails IsSpawnError (spawn prompt with_defaults config []).0
    × Fails IsSpawnError (execute_command prompt with_defaults config (codes "true") 1 []).0
    × Fails (IsRestoreError 5) (restore prompt with_defaults (new_snapshot_id 5) []).0
    × Fails (IsSnapshotError 7) (snapshot prompt with_defaults vm_7 []).0
    × Fails IsIoError (terminate prompt with_defaults vm_7 []).0
unfolding new_snapshot_id new_vm_handle
backend_errors_example =
    backend_errors prompt with_defaults config (codes "true") 1 (new_snapshot_id 5) vm_7 []
      (all-IsUtf8 _) (all-IsUtf8 _) snapshots-NamedInUtf8
