-- ===== src/Machine.antt =====
-- crates/raynet-core/src/machine.rs: the types that the cores share with their shell.
pub mod Types
pub mod Checks
