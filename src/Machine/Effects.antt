-- ===== src/Machine/Effects.antt =====
-- What the engine of crates/ruxmsg-core/src/machine.rs asks of its driver: the effects that
-- `Engine::handle` leaves, and the table of armed deadlines beside them.
pub mod Made
pub mod Steps
pub mod Rekey
pub mod Frames
pub mod Handled
pub mod Table
pub mod Follows
pub mod Closing
pub mod Fired
pub mod Lifetime
pub mod Armed
