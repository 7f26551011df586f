-- ===== src/Lib.antt =====
-- The core of RUXMSG (crates/ruxmsg-core) and its driver (crates/ruxmsg-net): an authenticated,
-- encrypted two-party messaging protocol as a pure state machine, `Engine::handle`, which the
-- driver feeds with inputs and whose effects it carries out.
--
-- How the parts interact: the engine (machine.rs) runs a handshake over the payloads of
-- handshake.rs, each a CBOR map in a frame of wire.rs; the transcript of encoding.rs is signed
-- and hashed by crypto.rs into session keys; a session sends and receives DATA (data.rs) over a
-- ratchet and a replay window (ratchet.rs); CLOSE (close.rs) ends it. Errors are those of
-- error.rs, constants and registries those of protocol.rs.
--
-- Files, with the sources below crates/ruxmsg-core/src:
--   Prelude      Boolean tests, lists over native numbers, maps, and error.rs with `Result`
--   Protocol     protocol.rs
--   Crypto       crypto.rs; `Primitives` stands for the hash, AEAD and curve crates. Crypto/Nonces
--                and Crypto/Sas are about the nonces and the SAS indices
--   Cbor         `ciborium`: `Cbor` is its reader and writer, as a parameter; Cbor/Reference is the
--                deterministic encoding of RFC 8949
--   Wire         wire.rs: Frame here, validate_cbor_structure in Wire/Structure (its rounds in
--                Wire/Structure/Fuel) and validate_cbor_map_payload in Wire/Payload; Wire/RoundTrip
--                is about encoding and decoding frames
--   Encoding     encoding.rs
--   Close        close.rs
--   Ratchet      ratchet.rs: ReplayWindow in Ratchet/Replay, ReceivingChain in Ratchet/Chain, each
--                with its proofs below it
--   Handshake    handshake.rs, a file for each payload; Handshake/Auth/Glare is about the rule for
--                crossing rekeys
--   Data         data.rs: DataPlaintext in Data/Padding (Least: the padding chosen), the rest in
--                Data/Channel (Again: a frame that comes twice)
--   Machine      machine.rs: types, deadlines, the start of a run (Runs), one frame of a run
--                (Steps), rekeying (Rekey), and `Engine::handle` with its handlers (Handle)
--   Machine/Spec the abstract machine (Moves), the refinement by handlers (Start to Refine), and
--                what follows for whole runs (Safety)
--   Machine/Effects
--                what the engine asks of its driver: how a context grows (Made) handler by handler
--                (Steps, Rekey, Frames, Handled), the table of deadlines (Table, Fired, Follows),
--                the end (Closing), and whole runs (Lifetime, Armed)
--   Net          crates/ruxmsg-net/src/lib.rs: FrameDecoder in Net/Decoder (one call in Reading,
--                loops and chunks in Drain, Chunks and Stream), and the task of a connection in
--                Net/Task (Effects, Coupled, Loop, Ending and Synced are about it); Net/Facade is
--                about what `Net` launches
--   Storage      storage.rs, over a credential store as a parameter (Kept is about it)
--   Display      display.rs
--   Cli          crates/ruxmsg-cli/src: commands.rs in Cli/Commands, over Cli/Text for what it uses
--                of `str`, scrollback.rs in Cli/Scrollback, and config.rs in Cli/Config (Values and
--                Parse; Modifiers, Apart and Sound are about it), each with its proofs below it
--   Tests        concrete instances and the theorems at them
--
-- `&mut self` with `&mut Vec<Effect>` is a context of engine and effects, passed on and returned;
-- a method that fails after it changed its object returns the object beside the result. Bytes are
-- lists of native numbers; integers of fixed width keep their wrap-around and their saturation
-- written out. `Entropy` is a function of the number of the draw. The `while` loops are recursion
-- on the rounds left. For the counters of the chain these are the counters up to the target, for
-- the padding the lengths up to the frame limit; for the CBOR structure one round more than there
-- are bytes, since every round takes a byte, and for the loops over frames two rounds more; for the
-- modifiers of a key, the length of its text.
-- A task of the driver is a state; what `select!` finds ready is a list, and the writes, the event
-- channel and the clock answer from a `World`.
--
-- The limit on retained keys is that of ratchet.rs, 128 after a derivation. Section 7.7 of
-- docs/protocol-spec.md rejects more: every frame, while 64 keys or more are retained.
--
-- Not modelled: wiping of secrets and Debug printing, which no result depends on; the
-- queues of a ConnectionHandle and the sockets of crates/ruxmsg-net; and of crates/ruxmsg-cli the
-- loading of the configuration's file, the state of the prompt, the terminal and calls of other
-- programs.
pub mod Prelude
pub mod Protocol
pub mod Crypto
pub mod Ratchet
pub mod Cbor
pub mod Wire
pub mod Encoding
pub mod Close
pub mod Handshake
pub mod Data
pub mod Machine
pub mod Net
pub mod Tests
pub mod Storage
pub mod Display
pub mod Cli
