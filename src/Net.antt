-- ===== src/Net.antt =====
-- crates/ruxmsg-net: the driver that feeds one engine from one connection.
pub mod Decoder
pub mod Task
pub mod Facade
