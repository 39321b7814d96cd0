-- ===== src/Std.antt =====
-- What the program uses of Rust's standard library: UTF-8, white space, decimal numbers, paths.
pub mod Utf8
pub mod Trim
pub mod Decimal
pub mod FilePath
pub mod BTreeSet
