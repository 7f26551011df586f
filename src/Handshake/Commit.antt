-- ===== src/Handshake/Commit.antt =====
-- `CommitPayload` of crates/ruxmsg-core/src/handshake.rs.
use ruxmsg.Prelude.{
  ℕ, List, [], ◌∷◌, Option, leb, ◌==◌, ◌&&◌, not, length, Result, ok, ◌>>=◌, ◌>>◌,
  invalid_handshake, reject_if,
}
use ruxmsg.Protocol.{
  Bytes, SessionId, HandshakePurpose, purpose_code, purpose_try_from, message_type_eq,
}
use ruxmsg.Cbor.{Value, Cbor, integer, bytes, entries, to_entries, write_value}
use ruxmsg.Encoding.{optional_bytes, map_into_fields}
use ruxmsg.Wire
use ruxmsg.Wire.{Frame}
use ruxmsg.Wire.Payload.{validate_cbor_map}
use ruxmsg.Handshake.Hello.{
  bad_previous, message_type_for_purpose, is_handshake_type, check_version, uint_field, array_field,
  optional_field,
}

pub record CommitPayload : Type 0 where
  pub cipher_suite : ℕ
  pub purpose : HandshakePurpose
  pub commitment : Bytes
  pub previous_session_id : Option SessionId

unfoldable pub commit_entries : CommitPayload → List (ℕ × Value)
commit_entries m =
    (0, integer 1)
    ∷ (1, integer m.cipher_suite)
    ∷ (2, integer (purpose_code m.purpose))
    ∷ (3, bytes m.commitment)
    ∷ optional_bytes 4 m.previous_session_id []

unfoldable pub encode : Cbor → CommitPayload → Result Frame
encode c m = do
  reject_if (not (m.cipher_suite == 1)) invalid_handshake
  reject_if (bad_previous m.purpose m.previous_session_id) invalid_handshake
  encoded ← write_value c (entries (to_entries (commit_entries m)))
  Wire.new (message_type_for_purpose m.purpose) encoded

unfoldable pub commit_of_fields : List (Option Value) → Result CommitPayload
commit_of_fields fields = do
  suite ← check_version fields
  raw_purpose ← uint_field fields 2
  purpose ← purpose_try_from raw_purpose
  commitment ← array_field fields 3 32 "commitment"
  previous ← optional_field fields 4 16 "session ID"
  ok (record {
    cipher_suite = suite;
    purpose = purpose;
    commitment = commitment;
    previous_session_id = previous;
  })

unfoldable pub decode : Cbor → Frame → Result CommitPayload
decode c f = do
  reject_if (not (is_handshake_type f.message_type)) invalid_handshake
  es ← validate_cbor_map c f
  reject_if (not (leb 4 (length es) && leb (length es) 5)) invalid_handshake
  fields ← map_into_fields es 5 invalid_handshake
  payload ← commit_of_fields fields
  reject_if (bad_previous payload.purpose payload.previous_session_id) invalid_handshake
  reject_if (not (message_type_eq f.message_type (message_type_for_purpose payload.purpose)))
      invalid_handshake
  ok payload
