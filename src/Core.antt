-- ===== src/Core.antt =====
-- The crate forge-core: identifiers, trust, blocks, execution records and the example blocks.
pub mod Id
pub mod CoreError
pub mod Trust
pub mod Block
pub mod Execution
pub mod Examples
