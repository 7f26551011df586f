-- ===== src/Handshake.antt =====
-- crates/ruxmsg-core/src/handshake.rs: HELLO, COMMIT, AUTH and session confirmation.
pub mod Hello
pub mod Commit
pub mod Auth
pub mod Confirm
