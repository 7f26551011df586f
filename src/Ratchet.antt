-- ===== src/Ratchet.antt =====
-- crates/ruxmsg-core/src/ratchet.rs: the replay window and the receiving key chain.
pub mod Replay
pub mod Chain
