-- ===== src/Tests.antt =====
-- Uses of the theorems at concrete inputs, with an instance of each parameter.
pub mod SerialConsole
pub mod Sandboxes
pub mod Vms
pub mod Blocks
pub mod Reports
mod Tasks
mod Lifecycles
mod Peers
mod Suites
mod Requests
