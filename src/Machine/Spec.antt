-- ===== src/Machine/Spec.antt =====
-- The engine as an abstract protocol machine: what one input may do to the phase, the handshake
-- run and the two sessions.
pub mod Core
pub mod Outcome
pub mod Moves
pub mod Initial
pub mod Start
pub mod Local
pub mod Handlers
pub mod Active
pub mod Rekeying
pub mod Refine
pub mod Safety
