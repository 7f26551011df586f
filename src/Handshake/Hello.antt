-- ===== src/Handshake/Hello.antt =====
-- `HelloPayload` and what the handshake payloads share, of
-- crates/ruxmsg-core/src/handshake.rs.
use ruxmsg.Prelude.{
  ℕ, List, [], ◌∷◌, Option, Bool, true, false, leb, ◌==◌, ◌||◌, ◌&&◌, not, if◌then◌else◌, length,
  is_some, String, Result, ok, err, ◌>>=◌, ◌>>◌, invalid_handshake, unsupported_version, reject_if,
  ok_or, transpose, option_eq,
}
use ruxmsg.Protocol.{
  Bytes, SessionId, PeerIdentity, HandshakePurpose, initial, rekey, purpose_code, purpose_try_from,
  purpose_eq, MessageType, handshake_message, rekey_message, message_type_eq,
}
use ruxmsg.Cbor.{Value, Cbor, integer, bytes, entries, to_entries, write_value}
use ruxmsg.Encoding.{Transcript, optional_bytes, array_value, map_into_fields, field}
use ruxmsg.Wire
use ruxmsg.Wire.{Frame}
use ruxmsg.Wire.Payload.{validate_cbor_map}

pub data HelloRole : Type 0 where
  initiator responder : HelloRole

abbrev pub role_code : HelloRole → ℕ
role_code initiator = 0
role_code responder = 1

abbrev pub role_eq : HelloRole → HelloRole → Bool
role_eq initiator initiator = true
role_eq responder responder = true
role_eq _ _ = false

unfoldable pub role_try_from : ℕ → Result HelloRole
role_try_from v =
    if v == 0 then ok initiator else if v == 1 then ok responder else err invalid_handshake

unfoldable pub message_type_for_purpose : HandshakePurpose → MessageType
message_type_for_purpose initial = handshake_message
message_type_for_purpose rekey = rekey_message

-- An initial handshake with a previous session, or a rekey without one.
unfoldable pub bad_previous : HandshakePurpose → Option SessionId → Bool
bad_previous purpose previous =
    (purpose_eq purpose initial && is_some previous)
    || (purpose_eq purpose rekey && not (is_some previous))

unfoldable pub is_handshake_type : MessageType → Bool
is_handshake_type t = message_type_eq t handshake_message || message_type_eq t rekey_message

unfoldable pub uint_value : Value → Result ℕ
uint_value (integer n) = ok n
uint_value _ = err invalid_handshake

-- `uint_value(fields[i].take().ok_or(InvalidHandshake)?)?`
unfoldable pub uint_field : List (Option Value) → ℕ → Result ℕ
uint_field fields i = ok_or (field fields i) invalid_handshake >>= uint_value

-- `array_value(fields[i].take().ok_or(InvalidHandshake)?, kind)?`
unfoldable pub array_field : List (Option Value) → ℕ → ℕ → String → Result Bytes
array_field fields i n kind =
    ok_or (field fields i) invalid_handshake >>= (λ v. array_value n v kind)

-- `fields[i].take().map(|value| array_value(value, kind)).transpose()?`
unfoldable pub optional_field : List (Option Value) → ℕ → ℕ → String → Result (Option Bytes)
optional_field fields i n kind = transpose (λ v. array_value n v kind) (field fields i)

-- The version and the cipher suite, fields 0 and 1 of HELLO and COMMIT.
unfoldable pub check_version : List (Option Value) → Result ℕ
check_version fields = do
  version ← uint_field fields 0
  reject_if (not (version == 1)) (unsupported_version version)
  suite ← uint_field fields 1
  reject_if (not (suite == 1)) invalid_handshake
  ok suite

pub record HelloPayload : Type 0 where
  pub cipher_suite : ℕ
  pub purpose : HandshakePurpose
  pub role : HelloRole
  pub identity_public_key : PeerIdentity
  pub ephemeral_public_key : Bytes
  pub nonce : Bytes
  pub previous_session_id : Option SessionId

unfoldable pub hello_entries : HelloPayload → List (ℕ × Value)
hello_entries h =
    (0, integer 1)
    ∷ (1, integer h.cipher_suite)
    ∷ (2, integer (purpose_code h.purpose))
    ∷ (3, integer (role_code h.role))
    ∷ (4, bytes h.identity_public_key)
    ∷ (5, bytes h.ephemeral_public_key)
    ∷ (6, bytes h.nonce)
    ∷ optional_bytes 7 h.previous_session_id []

unfoldable pub encode : Cbor → HelloPayload → Result Frame
encode c h = do
  reject_if (not (h.cipher_suite == 1)) invalid_handshake
  reject_if (bad_previous h.purpose h.previous_session_id) invalid_handshake
  encoded ← write_value c (entries (to_entries (hello_entries h)))
  Wire.new (message_type_for_purpose h.purpose) encoded

unfoldable pub hello_of_fields : List (Option Value) → Result HelloPayload
hello_of_fields fields = do
  suite ← check_version fields
  raw_purpose ← uint_field fields 2
  purpose ← purpose_try_from raw_purpose
  raw_role ← uint_field fields 3
  role ← role_try_from raw_role
  identity ← array_field fields 4 32 "identity"
  ephemeral ← array_field fields 5 32 "ephemeral"
  nonce ← array_field fields 6 16 "nonce"
  previous ← optional_field fields 7 16 "session ID"
  ok (record {
    cipher_suite = suite;
    purpose = purpose;
    role = role;
    identity_public_key = identity;
    ephemeral_public_key = ephemeral;
    nonce = nonce;
    previous_session_id = previous;
  })

unfoldable pub decode : Cbor → Frame → Result HelloPayload
decode c f = do
  reject_if (not (is_handshake_type f.message_type)) invalid_handshake
  es ← validate_cbor_map c f
  reject_if (not (leb 7 (length es) && leb (length es) 8)) invalid_handshake
  fields ← map_into_fields es 8 invalid_handshake
  payload ← hello_of_fields fields
  reject_if (bad_previous payload.purpose payload.previous_session_id) invalid_handshake
  reject_if (not (message_type_eq f.message_type (message_type_for_purpose payload.purpose)))
      invalid_handshake
  ok payload

unfoldable pub transcript_from_hellos : HelloPayload → HelloPayload → Result Transcript
transcript_from_hellos i r = do
  reject_if
      (not (role_eq i.role initiator)
        || (not (role_eq r.role responder)
            || (not (i.cipher_suite == r.cipher_suite)
                || (not (purpose_eq i.purpose r.purpose)
                    || not (option_eq i.previous_session_id r.previous_session_id)))))
      invalid_handshake
  ok (record {
    purpose = i.purpose;
    cipher_suite = i.cipher_suite;
    initiator_identity = i.identity_public_key;
    responder_identity = r.identity_public_key;
    initiator_ephemeral = i.ephemeral_public_key;
    responder_ephemeral = r.ephemeral_public_key;
    initiator_nonce = i.nonce;
    responder_nonce = r.nonce;
    previous_session_id = i.previous_session_id;
  })
