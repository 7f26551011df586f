-- ===== src/Handshake/Auth.antt =====
-- `HandshakePayload`, its verification, and the glare rule of
-- crates/ruxmsg-core/src/handshake.rs.
pub mod Glare
use ruxmsg.Prelude.{
  ℕ, List, [], ◌∷◌, ◌++◌, Option, some, none, Bool, true, false, ltb, ◌==◌, ◌||◌, ◌&&◌, not,
  if◌then◌else◌, is_some, Result, ok, ◌>>=◌, ◌>>◌, invalid_handshake, sas_rejected, reject_if,
  option_eq, bytes_eq,
}
use ruxmsg.Protocol.{
  Bytes, SessionId, PeerIdentity, HandshakePurpose, purpose_code, purpose_try_from, purpose_eq,
  message_type_eq,
}
use ruxmsg.Cbor.{Value, Cbor, integer, bytes, entries, to_entries, write_value}
use ruxmsg.Crypto.{
  Primitives, SessionKeys, transcript_hash, verify_transcript_signature, derive_session_keys,
}
use ruxmsg.Encoding.{Transcript, encode_transcript, optional_bytes, map_into_fields}
use ruxmsg.Wire
use ruxmsg.Wire.{Frame}
use ruxmsg.Wire.Payload.{validate_cbor_map, sort_by_key}
use ruxmsg.Handshake.Hello.{
  bad_previous, message_type_for_purpose, is_handshake_type, uint_field, array_field,
  optional_field,
}

pub record HandshakePayload : Type 0 where
  pub purpose : HandshakePurpose
  pub stage : ℕ
  pub cipher_suite : ℕ
  pub initiator_identity : PeerIdentity
  pub responder_identity : PeerIdentity
  pub initiator_ephemeral : Bytes
  pub responder_ephemeral : Bytes
  pub initiator_nonce : Bytes
  pub responder_nonce : Bytes
  pub previous_session_id : Option SessionId
  pub initiator_signature : Bytes
  pub responder_signature : Option Bytes

unfoldable pub transcript : HandshakePayload → Transcript
transcript a = record {
  purpose = a.purpose;
  cipher_suite = a.cipher_suite;
  initiator_identity = a.initiator_identity;
  responder_identity = a.responder_identity;
  initiator_ephemeral = a.initiator_ephemeral;
  responder_ephemeral = a.responder_ephemeral;
  initiator_nonce = a.initiator_nonce;
  responder_nonce = a.responder_nonce;
  previous_session_id = a.previous_session_id;
}

-- The entries as they are pushed, before the sort.
unfoldable pub auth_entries : HandshakePayload → List (ℕ × Value)
auth_entries a =
    (0, integer (purpose_code a.purpose))
    ∷ (1, integer a.stage)
    ∷ (2, integer a.cipher_suite)
    ∷ (3, bytes a.initiator_identity)
    ∷ (4, bytes a.responder_identity)
    ∷ (5, bytes a.initiator_ephemeral)
    ∷ (6, bytes a.responder_ephemeral)
    ∷ (7, bytes a.initiator_nonce)
    ∷ (8, bytes a.responder_nonce)
    ∷ (10, bytes a.initiator_signature)
    ∷ (optional_bytes 9 a.previous_session_id [] ++ optional_bytes 11 a.responder_signature [])

unfoldable pub encode : Cbor → HandshakePayload → Result Frame
encode c a = do
  reject_if (not (a.cipher_suite == 1)) invalid_handshake
  reject_if (ltb 1 a.stage || (a.stage == 0 && is_some a.responder_signature)) invalid_handshake
  reject_if (bad_previous a.purpose a.previous_session_id) invalid_handshake
  encoded ← write_value c (entries (to_entries (sort_by_key (auth_entries a))))
  Wire.new (message_type_for_purpose a.purpose) encoded

-- `u8::try_from` of the stage.
unfoldable pub stage_field : List (Option Value) → Result ℕ
stage_field fields = do
  stage ← uint_field fields 1
  reject_if (not (ltb stage 256)) invalid_handshake
  ok stage

unfoldable pub auth_of_fields : List (Option Value) → Result HandshakePayload
auth_of_fields fields = do
  raw_purpose ← uint_field fields 0
  purpose ← purpose_try_from raw_purpose
  stage ← stage_field fields
  suite ← uint_field fields 2
  reject_if (not (suite == 1)) invalid_handshake
  initiator_identity ← array_field fields 3 32 "identity"
  responder_identity ← array_field fields 4 32 "identity"
  initiator_ephemeral ← array_field fields 5 32 "ephemeral"
  responder_ephemeral ← array_field fields 6 32 "ephemeral"
  initiator_nonce ← array_field fields 7 16 "nonce"
  responder_nonce ← array_field fields 8 16 "nonce"
  previous ← optional_field fields 9 16 "session ID"
  initiator_signature ← array_field fields 10 64 "signature"
  responder_signature ← optional_field fields 11 64 "signature"
  ok (record {
    purpose = purpose;
    stage = stage;
    cipher_suite = suite;
    initiator_identity = initiator_identity;
    responder_identity = responder_identity;
    initiator_ephemeral = initiator_ephemeral;
    responder_ephemeral = responder_ephemeral;
    initiator_nonce = initiator_nonce;
    responder_nonce = responder_nonce;
    previous_session_id = previous;
    initiator_signature = initiator_signature;
    responder_signature = responder_signature;
  })

unfoldable pub bad_stage : HandshakePayload → Bool
bad_stage a =
    ltb 1 a.stage
    || ((a.stage == 1 && not (is_some a.responder_signature))
        || (a.stage == 0 && is_some a.responder_signature))

unfoldable pub decode : Cbor → Frame → Result HandshakePayload
decode c f = do
  reject_if (not (is_handshake_type f.message_type)) invalid_handshake
  es ← validate_cbor_map c f
  fields ← map_into_fields es 12 invalid_handshake
  payload ← auth_of_fields fields
  reject_if (bad_stage payload) invalid_handshake
  reject_if (bad_previous payload.purpose payload.previous_session_id) invalid_handshake
  reject_if (not (message_type_eq f.message_type (message_type_for_purpose payload.purpose)))
      invalid_handshake
  ok payload

-- The derived equality of `Transcript`.
unfoldable pub transcript_eq : Transcript → Transcript → Bool
transcript_eq a b =
    purpose_eq a.purpose b.purpose
    && (a.cipher_suite == b.cipher_suite
        && (bytes_eq a.initiator_identity b.initiator_identity
            && (bytes_eq a.responder_identity b.responder_identity
                && (bytes_eq a.initiator_ephemeral b.initiator_ephemeral
                    && (bytes_eq a.responder_ephemeral b.responder_ephemeral
                        && (bytes_eq a.initiator_nonce b.initiator_nonce
                            && (bytes_eq a.responder_nonce b.responder_nonce
                                && option_eq a.previous_session_id b.previous_session_id)))))))

module _ (c : Cbor) (p : Primitives) where
  -- The check of the optional responder signature.
  unfoldable pub verify_responder : HandshakePayload → Bytes → Result (Unit {0})
  verify_responder a hash = elim a.responder_signature [
    | some signature ↦ verify_transcript_signature p a.responder_identity hash signature false
    | none ↦ reject_if (not (a.stage == 0)) invalid_handshake
  ]

  unfoldable pub verify_handshake_for_role :
      HandshakePayload → Transcript → Bytes → Bool → Result (SessionKeys × Bytes)
  verify_handshake_for_role a local shared sas_approved = do
    reject_if (not sas_approved) sas_rejected
    reject_if (not (transcript_eq (transcript a) local)) invalid_handshake
    encoded ← encode_transcript c local
    let hash = transcript_hash p encoded
    verify_transcript_signature p a.initiator_identity hash a.initiator_signature true
    verify_responder a hash
    keys ← derive_session_keys p shared hash
    ok (keys, hash)

-- The lexicographic `>` of two byte arrays.
unfoldable pub bytes_gt : Bytes → Bytes → Bool
bytes_gt [] b = false
bytes_gt (x ∷ a) [] = true
bytes_gt (x ∷ a) (y ∷ b) =
    let rest = bytes_gt a b in if ltb y x then true else if ltb x y then false else rest

unfoldable pub local_identity_wins_rekey_glare : PeerIdentity → PeerIdentity → Bool
local_identity_wins_rekey_glare local remote_initiator = bytes_gt local remote_initiator
