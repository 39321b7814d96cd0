-- ===== src/Serial.antt =====
-- The parser of the serial console (forge-executor/src/firecracker.rs).
pub mod Search
pub mod Output
