-- ===== src/Suite.antt =====
-- The program's own tests, as functions: what a test draws at random, and what it takes from outside, is
-- an argument, and the answer is whether all its assertions hold.
pub mod Core
pub mod Serial
pub mod Hashes
pub mod Pool
pub mod Routes
pub mod Executor
pub mod Vms
