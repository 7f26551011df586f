-- ===== src/Wire.antt =====
-- crates/ruxmsg-core/src/wire.rs: outer frames, and deterministic CBOR maps in their payloads.
-- Wiping secrets from memory (`zeroize`, the `wipe_` calls before a return) has no part in a
-- result and is left out.
pub mod Structure
pub mod Payload
pub mod RoundTrip
use ruxmsg.Prelude.{
  ℕ, ◌+◌, ◌-◌, ◌≤◌, ◌^◌, List, [], ◌∷◌, ◌++◌, ltb, if◌then◌else◌, length, take, drop, be_bytes4,
  be_fold, Result, ok, err, ◌>>=◌, ◌>>◌, invalid_frame_length, truncated_frame, reject_if, Option,
  some, none,
}
use ruxmsg.Protocol.{
  Bytes, ProtocolVersion, v1, version_code, version_try_from, MessageType, message_type_code,
  message_type_try_from, max_payload, frame_length,
}

abbrev pub header_size : ℕ
header_size = 6

pub record Frame : Type 0 where
  pub version : ProtocolVersion
  pub message_type : MessageType
  pub payload : Bytes

unfoldable pub check_length : MessageType → ℕ → Result ℕ
check_length message_type length =
    if ltb (max_payload message_type) length
    then err (invalid_frame_length length)
    else frame_length length

-- `payload.len().try_into()` to a u32.
unfoldable pub u32_length : Bytes → Result ℕ
u32_length payload =
    if ltb (length payload) (2 ^ 32)
    then ok (length payload)
    else err (invalid_frame_length (2 ^ 32 - 1))

unfoldable pub new : MessageType → Bytes → Result Frame
new message_type payload = do
  n ← u32_length payload
  _ ← check_length message_type n
  ok (record { version = v1; message_type = message_type; payload = payload })

unfoldable pub encode : Frame → Result Bytes
encode f = do
  n ← u32_length f.payload
  len ← check_length f.message_type n
  ok (version_code f.version ∷ message_type_code f.message_type ∷ (be_bytes4 len ++ f.payload))

-- The header is `[u8; 6]`; its six bytes are the arguments.
unfoldable pub parse_header : ℕ → ℕ → ℕ → ℕ → ℕ → ℕ → Result (ProtocolVersion × MessageType × ℕ)
parse_header h0 h1 h2 h3 h4 h5 = do
  version ← version_try_from h0
  message_type ← message_type_try_from h1
  let declared = be_fold 0 (h2 ∷ h3 ∷ h4 ∷ h5 ∷ [])
  _ ← check_length message_type declared
  ok (version, message_type, declared)

-- `total` is 6 more than a u32, so that `checked_add` on a 64-bit `usize` never fails.
unfoldable pub decode : Bytes → Result (Frame × ℕ)
decode (h0 ∷ h1 ∷ h2 ∷ h3 ∷ h4 ∷ h5 ∷ rest) = do
  (version, message_type, declared) ← parse_header h0 h1 h2 h3 h4 h5
  reject_if (ltb (length rest) declared) truncated_frame
  ok (
    record { version = version; message_type = message_type; payload = take declared rest },
    header_size + declared,
  )
decode _ = err truncated_frame
