-- ===== src/Net/Decoder.antt =====
-- `FrameDecoder` of crates/ruxmsg-net/src/lib.rs: its buffer is the state, and a method returns
-- the new buffer beside its result. The capacity of the buffer has no part in a result.
pub mod Reading
pub mod Drain
pub mod Chunks
pub mod Stream
use ruxmsg.Prelude.{
  ℕ, ◌+◌, List, [], ◌∷◌, ◌++◌, Option, some, none, ltb, if◌then◌else◌, length, take, drop, ◌⊎◌, inl,
  inr, Result, ok, err, Error, unsupported_version,
}
use ruxmsg.Protocol.{Bytes}
use ruxmsg.Wire.{header_size, Frame, parse_header}
use ruxmsg.Wire

pub data DecodeError : Type 0 where
  unsupported malformed_frame : DecodeError

unfoldable pub decode_error : Error → DecodeError
decode_error (unsupported_version _) = unsupported
decode_error _ = malformed_frame

unfoldable pub push : Bytes → Bytes → Bytes
push buffer chunk = buffer ++ chunk

-- `Frame::decode` of the first `total` bytes, which are drained.
unfoldable pub take_frame : ℕ → Bytes → Bytes × (DecodeError ⊎ Option Frame)
take_frame total buffer = elim (Wire.decode (take total buffer)) [
  | err e ↦ (buffer, inl malformed_frame)
  | ok (frame, consumed) ↦ (drop consumed buffer, inr (some frame))
]

-- With a whole header.
unfoldable pub after_header : ℕ → ℕ → ℕ → ℕ → ℕ → ℕ → Bytes → Bytes × (DecodeError ⊎ Option Frame)
after_header h0 h1 h2 h3 h4 h5 buffer = elim (parse_header h0 h1 h2 h3 h4 h5) [
  | err e ↦ (buffer, inl (decode_error e))
  | ok (version, message_type, len) ↦
      if ltb (length buffer) (header_size + len)
      then (buffer, inr none)
      else take_frame (header_size + len) buffer
]

unfoldable pub next_frame : Bytes → Bytes × (DecodeError ⊎ Option Frame)
next_frame (h0 ∷ h1 ∷ h2 ∷ h3 ∷ h4 ∷ h5 ∷ rest) =
    after_header h0 h1 h2 h3 h4 h5 (h0 ∷ h1 ∷ h2 ∷ h3 ∷ h4 ∷ h5 ∷ rest)
next_frame buffer = (buffer, inr none)
