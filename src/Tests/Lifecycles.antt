-- ===== src/Tests/Lifecycles.antt =====
-- Whole lives of VMs over Firecracker (forge-executor), with a host that answers everything at once.
use apeiron.Base.{ℕ, ◌≤◌, ◌≡◌, refl, false, List, [], ◌∷◌, length, arith, codes}
use apeiron.Executor.Host.{Trace, drew_uuid}
use apeiron.Executor.Config.{new_snapshot_id}
use apeiron.Executor.Firecracker.{FirecrackerBackend, new_backend, with_defaults}
use apeiron.Executor.Firecracker.Spawning.{LaunchEnd}
use apeiron.Executor.Firecracker.Health.{health_check-spawn}
use apeiron.Executor.Firecracker.Lifecycle.{spawn, health_check}
use apeiron.Executor.Firecracker.Processes.{undropped}
use apeiron.Executor.Firecracker.Identifiers.{drawn, NeverTwice}
use apeiron.Executor.Managed.{
  Demand, spawn_one, restore_one, snapshot_nth, terminate_nth, demand_all,
}
use apeiron.Executor.Managed.Calls.{Agree, new_client, demand_all-Agree}
use apeiron.Suite.Vms.{
  spawn_vm_starts_and_responds, snapshot_creates_recoverable_state, restore_from_snapshot_succeeds,
}
use apeiron.Suite.Vms.Processes.{lifecycle_tests-undropped}
use apeiron.Executor.Firecracker.Instance.{firecracker}
use apeiron.Executor.Orchestrator.Registry.{spawn_call}
use apeiron.Executor.Orchestrator.Interleaving.{System, start, call_from}
use apeiron.Tests.Vms.{config, prompt}

-- It draws the length of the history, which only grows.
undrawn_above : (t : Trace) (n : ℕ) → length t ≤ n → drawn prompt t n ≡ false
unfolding drawn
undrawn_above [] n h = refl
undrawn_above (drew_uuid ∷ t) n h = ground (arith, undrawn_above t n (omega arith))
undrawn_above (_ ∷ t) n h = undrawn_above t n (omega arith)

prompt-NeverTwice : NeverTwice prompt
prompt-NeverTwice = record { unseen = λ t. undrawn_above t (length t) (omega arith) }

abbrev host_backend : FirecrackerBackend
host_backend = new_backend (codes "/bin/firecracker") (codes "/s") (codes "/t")

abbrev demands : List Demand
demands =
    spawn_one config
    ∷ spawn_one config
    ∷ snapshot_nth 1
    ∷ terminate_nth 1
    ∷ restore_one (new_snapshot_id 5)
    ∷ []

demand_all-Agree_example : Agree (demand_all prompt with_defaults demands new_client)
demand_all-Agree_example = demand_all-Agree prompt with_defaults demands prompt-NeverTwice

lifecycle_tests-undropped_example :
    (undropped (spawn_vm_starts_and_responds prompt []).1 ≡ undropped [])
    × (undropped (snapshot_creates_recoverable_state prompt []).1 ≡ undropped [])
    × (undropped (restore_from_snapshot_succeeds prompt []).1 ≡ undropped [])
lifecycle_tests-undropped_example = lifecycle_tests-undropped prompt []

health_check-spawn_example :
    LaunchEnd prompt host_backend config [] (spawn prompt host_backend config [])
unfolding health_check apeiron.Executor.Firecracker.Lifecycle.require_kvm
    apeiron.Executor.Firecracker.Lifecycle.readable apeiron.Executor.Firecracker.which_binary
    apeiron.Executor.Firecracker.new_backend apeiron.Std.FilePath.is_absolute
health_check-spawn_example = health_check-spawn prompt host_backend [] config refl

-- Task 0 has asked for a VM.
abbrev asked : System Trace
asked = call_from (firecracker prompt with_defaults) 0 (spawn_call config) (start [])
