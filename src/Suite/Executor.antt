-- ===== src/Suite/Executor.antt =====
-- The unit tests of forge-executor/src/lib.rs, config.rs and orchestrator.rs.
use apeiron.Base.{
  ℕ, ◌≡◌, refl, arith, Bool, Bool-cases, inl, inr, true, false, ◌&&◌, ◌==◌, is_some, length, Text,
  codes,
}
use apeiron.Base.Outcome.{Outcome, value, panic}
use apeiron.Core.Id.{Uuid}
use apeiron.Core.Id.Forms.{UuidText}
use apeiron.Base.{count}
use apeiron.Serial.Search.Find.{find, starts_with}
use apeiron.Std.BTreeSet.{contains}
use apeiron.Std.FilePath.{is_absolute}
use apeiron.Executor.ExecutorError.{
  IoError, binary_not_found, kvm_unavailable, spawn_failed, vm_not_found, display_error,
}
use apeiron.Executor.Config.{
  VmConfig, new_vm_config, SnapshotId, new_snapshot_id, VmHandle, new_vm_handle,
  display_snapshot_id,
}
use apeiron.Executor.Action.{Result, err, pure, fail}
use apeiron.Executor.Backend.{VmmBackend}
use apeiron.Executor.Host.{Env, Trace, Answer-cases}
use apeiron.Executor.Firecracker.{FirecrackerBackend, new_backend, which_binary, dev_kvm}
use apeiron.Executor.Firecracker.Lifecycle.{health_check, require_kvm, readable}
use apeiron.Executor.Orchestrator.{new, active_count, spawn, snapshot, terminate}

abbrev tmp_config : VmConfig
tmp_config = new_vm_config (codes "/tmp/vmlinux") (codes "/tmp/rootfs.ext4")

unfoldable pub vm_config_default_values_are_sane : Bool
vm_config_default_values_are_sane =
    let config = tmp_config in
    config.vcpu_count == 1
    && config.mem_size_mib == 128
    && is_some (find (codes "console=ttyS0") config.boot_args)

unfoldable pub vm_config_custom_vcpu_and_mem_preserved : Bool
vm_config_custom_vcpu_and_mem_preserved =
    let config : VmConfig = record tmp_config { vcpu_count = 4; mem_size_mib = 512 } in
    config.vcpu_count == 4 && config.mem_size_mib == 512

unfoldable pub executor_error_display_includes_context : (Uuid → Text) → (IoError → Text) → Bool
executor_error_display_includes_context uuid_text io_text =
    let msg =
      display_error uuid_text io_text (binary_not_found (codes "/usr/local/bin/firecracker")) in
    let msg2 = display_error uuid_text io_text (kvm_unavailable (codes "permission denied")) in
    is_some (find (codes "firecracker") msg)
    && is_some (find (codes "/usr/local/bin") msg)
    && is_some (find (codes "permission denied") msg2)

-- The `match` of the test: two errors are expected, and all else panics.
no_kvm_or_binary : Result (Unit {0}) → Outcome Bool
no_kvm_or_binary (err (kvm_unavailable reason)) = value true
no_kvm_or_binary (err (binary_not_found path)) = value true
no_kvm_or_binary _ = panic

unfoldable pub health_check_fails_without_kvm : Env → Trace → Outcome Bool
unfolding no_kvm_or_binary
health_check_fails_without_kvm env t =
    let backend = new_backend (codes "/nonexistent/firecracker") (codes "/tmp") (codes "/tmp") in
    no_kvm_or_binary (health_check env backend t).0

unfoldable pub snapshot_id_display_is_uuid_format : UuidText → Uuid → Bool
snapshot_id_display_is_uuid_format uuid_text random =
    let s = display_snapshot_id uuid_text (new_snapshot_id random) in
    length s == 36 && count b'-' s == 4

unfoldable pub snapshot_id_equality_same_uuid : Uuid → Bool
snapshot_id_equality_same_uuid uuid =
    let a : SnapshotId = record { uuid = uuid } in
    let b : SnapshotId = record { uuid = uuid } in a.uuid == b.uuid

-- `AlwaysFailBackend`
abbrev pub always_fail_backend : VmmBackend (Unit {0})
always_fail_backend = record {
  spawn = λ config. fail (spawn_failed (codes "mock always fails"));
  snapshot = λ handle. fail (spawn_failed (codes "mock"));
  restore = λ snapshot_id. fail (spawn_failed (codes "mock"));
  terminate = λ handle. pure tt;
  health_check = pure tt;
  drop_handle = λ handle s. s;
  execute_command = λ config command timeout. fail (spawn_failed (codes "mock"));
}

unfoldable pub orchestrator_active_count_starts_at_zero : Bool
orchestrator_active_count_starts_at_zero = active_count (new tt) == 0

is_spawn_failed : Result VmHandle → Bool
is_spawn_failed (err (spawn_failed reason)) = true
is_spawn_failed _ = false

unfoldable pub orchestrator_spawn_propagates_backend_error : Bool
unfolding is_spawn_failed
orchestrator_spawn_propagates_backend_error =
    is_spawn_failed
      (spawn always_fail_backend (new_vm_config (codes "/tmp/k") (codes "/tmp/r")) (new tt)).0

is_not_found : {A : Type 0} → Result A → Bool
is_not_found (err (vm_not_found id)) = true
is_not_found _ = false

unfoldable pub orchestrator_terminate_unregistered_returns_vm_not_found : Uuid → ℕ → ℕ → Bool
unfolding is_not_found
orchestrator_terminate_unregistered_returns_vm_not_found random child now =
    let handle = new_vm_handle random (codes "/tmp/test.sock") child now in
    is_not_found (terminate always_fail_backend handle (new tt)).0

unfoldable pub orchestrator_snapshot_unregistered_returns_vm_not_found : Uuid → ℕ → ℕ → Bool
unfolding is_not_found
orchestrator_snapshot_unregistered_returns_vm_not_found random child now =
    let handle = new_vm_handle random (codes "/tmp/test.sock") child now in
    is_not_found (snapshot always_fail_backend handle (new tt)).0

config_tests :
    (vm_config_default_values_are_sane ≡ true) × (vm_config_custom_vcpu_and_mem_preserved ≡ true)
unfolding vm_config_default_values_are_sane vm_config_custom_vcpu_and_mem_preserved new_vm_config
    find starts_with
config_tests = (refl, refl)

display_test :
    (uuid_text : Uuid → Text) (io_text : IoError → Text)
    → executor_error_display_includes_context uuid_text io_text ≡ true
unfolding executor_error_display_includes_context display_error find starts_with
display_test uuid_text io_text = refl

id_tests :
    (uuid_text : UuidText) (id : Uuid)
    → (snapshot_id_display_is_uuid_format uuid_text id ≡ true)
      × (snapshot_id_equality_same_uuid id ≡ true)
unfolding snapshot_id_display_is_uuid_format snapshot_id_equality_same_uuid display_snapshot_id
    new_snapshot_id
id_tests uuid_text id = (rw (uuid_text.text_size id, uuid_text.text_dashes id) refl, ground arith)

readable_end :
    (env : Env) (backend : FirecrackerBackend) (t : Trace)
    → ((before : Trace) → env.exists before backend.binary_path ≡ false)
    → is_absolute backend.binary_path ≡ true
    → no_kvm_or_binary (health_check env backend t).0 ≡ value true
unfolding no_kvm_or_binary health_check require_kvm readable which_binary
readable_end env backend t gone absolute = elim (Bool-cases (env.exists t dev_kvm)) [
  | inl q ↦ elim (Answer-cases (env.metadata t dev_kvm)) [
    | inl c ↦ (let (u, e) = c in rw (q, e, absolute, gone t) refl)
    | inr c ↦ (let (x, e) = c in rw (q, e) refl)
  ]
  | inr q ↦ rw q refl
]

-- Where no binary is found at the path, the test of the health check passes, whatever the state of KVM.
pub health_test :
    (env : Env) (t : Trace)
    → ((before : Trace) → env.exists before (codes "/nonexistent/firecracker") ≡ false)
    → health_check_fails_without_kvm env t ≡ value true
unfolding health_check_fails_without_kvm new_backend is_absolute
health_test env t gone = readable_end env _ t gone refl

orchestrator_tests :
    (random : Uuid) (child now : ℕ)
    → (orchestrator_active_count_starts_at_zero ≡ true)
      × (orchestrator_spawn_propagates_backend_error ≡ true)
      × (orchestrator_terminate_unregistered_returns_vm_not_found random child now ≡ true)
      × (orchestrator_snapshot_unregistered_returns_vm_not_found random child now ≡ true)
unfolding orchestrator_active_count_starts_at_zero orchestrator_spawn_propagates_backend_error
    orchestrator_terminate_unregistered_returns_vm_not_found
    orchestrator_snapshot_unregistered_returns_vm_not_found active_count new spawn terminate
    snapshot new_vm_handle contains
orchestrator_tests random child now = (refl, refl, refl, refl)
