-- ===== src/Machine.antt =====
-- crates/ruxmsg-core/src/machine.rs: the sans-IO protocol engine.
pub mod Types
pub mod Deadlines
pub mod Runs
pub mod Steps
pub mod Rekey
pub mod Handle
pub mod Effects
pub mod Spec
