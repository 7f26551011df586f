-- ===== src/Protocol.antt =====
-- crates/ruxmsg-core/src/protocol.rs: constants, wire registries, and bounded lengths.
-- The fixed-size byte arrays (`SessionId`, `PeerIdentity`, keys, nonces) are byte lists; what
-- depends on their length says so.
use ruxmsg.Prelude.{
  ℕ, ◌*◌, List, Bool, true, false, ◌^◌, leb, ◌==◌, if◌then◌else◌, unsupported_version,
  unknown_message_type, invalid_frame_length, invalid_direction, invalid_handshake, Result, ok, err,
}

abbrev pub max_frame_size : ℕ
max_frame_size = 1048576

abbrev pub replay_window_size : ℕ
replay_window_size = 64

abbrev pub max_skipped_keys : ℕ
max_skipped_keys = 64

abbrev pub default_padding_quantum : ℕ
default_padding_quantum = 256

abbrev pub rekey_drain_timeout_secs : ℕ
rekey_drain_timeout_secs = 15

abbrev pub rekey_interval_secs : ℕ
rekey_interval_secs = 24 * 60 * 60

abbrev pub rekey_message_limit_default : ℕ
rekey_message_limit_default = 1000000

abbrev pub handshake_frame_timeout_secs : ℕ
handshake_frame_timeout_secs = 15

abbrev pub sas_decision_timeout_secs : ℕ
sas_decision_timeout_secs = 120

abbrev pub handshake_total_timeout_secs : ℕ
handshake_total_timeout_secs = 180

abbrev pub rekey_retry_secs : ℕ
rekey_retry_secs = 30

abbrev pub max_prepared_keys : ℕ
max_prepared_keys = 128

abbrev pub max_content : ℕ
max_content = 65536

abbrev pub Bytes : Type 0
Bytes = List ℕ

abbrev pub SessionId : Type 0
SessionId = Bytes

abbrev pub PeerIdentity : Type 0
PeerIdentity = Bytes

abbrev pub u64_max : ℕ
u64_max = 2 ^ 64

pub data ProtocolVersion : Type 0 where
  v1 : ProtocolVersion

abbrev pub version_code : ProtocolVersion → ℕ
version_code v1 = 1

unfoldable pub version_try_from : ℕ → Result ProtocolVersion
version_try_from value = if value == 1 then ok v1 else err (unsupported_version value)

pub data HandshakePurpose : Type 0 where
  initial rekey : HandshakePurpose

abbrev pub purpose_code : HandshakePurpose → ℕ
purpose_code initial = 0
purpose_code rekey = 1

unfoldable pub purpose_try_from : ℕ → Result HandshakePurpose
purpose_try_from value =
    if value == 0 then ok initial else if value == 1 then ok rekey else err invalid_handshake

abbrev pub purpose_eq : HandshakePurpose → HandshakePurpose → Bool
purpose_eq initial initial = true
purpose_eq rekey rekey = true
purpose_eq _ _ = false

pub data MessageType : Type 0 where
  handshake_message session_confirm_message data_message rekey_message close_message : MessageType

abbrev pub message_type_code : MessageType → ℕ
message_type_code handshake_message = 1
message_type_code session_confirm_message = 2
message_type_code data_message = 3
message_type_code rekey_message = 4
message_type_code close_message = 5

unfoldable pub message_type_try_from : ℕ → Result MessageType
message_type_try_from value =
    if value == 1
    then ok handshake_message
    else if value == 2
    then ok session_confirm_message
    else if value == 3
    then ok data_message
    else if value == 4
    then ok rekey_message
    else if value == 5
    then ok close_message
    else err (unknown_message_type value)

abbrev pub message_type_eq : MessageType → MessageType → Bool
message_type_eq a b = message_type_code a == message_type_code b

unfoldable pub max_payload : MessageType → ℕ
max_payload handshake_message = 1024
max_payload rekey_message = 1024
max_payload session_confirm_message = 128
max_payload close_message = 256
max_payload data_message = max_frame_size

pub data DirectionId : Type 0 where
  initiator_to_responder responder_to_initiator : DirectionId

abbrev pub direction_code : DirectionId → ℕ
direction_code initiator_to_responder = 1
direction_code responder_to_initiator = 2

unfoldable pub direction_try_from : ℕ → Result DirectionId
direction_try_from value =
    if value == 1
    then ok initiator_to_responder
    else if value == 2
    then ok responder_to_initiator
    else err (invalid_direction value)

abbrev pub direction_eq : DirectionId → DirectionId → Bool
direction_eq a b = direction_code a == direction_code b

-- `FrameLength::new`; the newtype is the number.
unfoldable pub frame_length : ℕ → Result ℕ
frame_length value = if leb value max_frame_size then ok value else err (invalid_frame_length value)
