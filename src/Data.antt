-- ===== src/Data.antt =====
-- crates/ruxmsg-core/src/data.rs: DATA payloads, padding, and the two ends of a channel.
pub mod Padding
pub mod Channel
