-- ===== src/Executor.antt =====
-- The crate forge-executor: microVM lifecycle, the Firecracker backend, the orchestrator and the
-- block runner.
pub mod ExecutorError
pub mod Config
pub mod Action
pub mod Backend
pub mod Host
pub mod UnixClient
pub mod Firecracker
pub mod Orchestrator
pub mod Runner
pub mod Managed
