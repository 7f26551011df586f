-- ===== src/Handshake/Confirm.antt =====
-- `SessionConfirmPayload` of crates/ruxmsg-core/src/handshake.rs.
use ruxmsg.Prelude.{
  ℕ, List, [], ◌∷◌, Option, ◌==◌, not, length, Result, ok, ◌>>=◌, ◌>>◌, confirmation_invalid,
  reject_if, ok_or, or_error, bytes_eq,
}
use ruxmsg.Protocol.{Bytes, SessionId, session_confirm_message, message_type_eq}
use ruxmsg.Cbor.{Value, Cbor, integer, bytes, entries, to_entries, write_value}
use ruxmsg.Crypto.{Primitives, SessionKeys, verify_confirmation}
use ruxmsg.Encoding.{array_value, map_into_fields, field}
use ruxmsg.Wire
use ruxmsg.Wire.{Frame}
use ruxmsg.Wire.Payload.{validate_cbor_map}
use ruxmsg.Handshake.Hello.{HelloRole, initiator, role_code, role_eq, role_try_from, uint_value}

pub record SessionConfirmPayload : Type 0 where
  pub session_id : SessionId
  pub role : HelloRole
  pub confirmation : Bytes

unfoldable pub confirm_entries : SessionConfirmPayload → List (ℕ × Value)
confirm_entries s =
    (0, bytes s.session_id) ∷ (1, integer (role_code s.role)) ∷ (2, bytes s.confirmation) ∷ []

unfoldable pub encode : Cbor → SessionConfirmPayload → Result Frame
encode c s = do
  encoded ← write_value c (entries (to_entries (confirm_entries s)))
  Wire.new session_confirm_message encoded

unfoldable pub confirm_of_fields : List (Option Value) → Result SessionConfirmPayload
confirm_of_fields fields = do
  raw_id ← ok_or (field fields 0) confirmation_invalid
  id ← array_value 16 raw_id "session ID"
  raw_role ← ok_or (field fields 1) confirmation_invalid
  code ← uint_value raw_role
  role ← or_error (role_try_from code) confirmation_invalid
  raw_mac ← ok_or (field fields 2) confirmation_invalid
  mac ← array_value 32 raw_mac "confirmation"
  ok (record { session_id = id; role = role; confirmation = mac })

unfoldable pub decode : Cbor → Frame → Result SessionConfirmPayload
decode c f = do
  reject_if (not (message_type_eq f.message_type session_confirm_message)) confirmation_invalid
  es ← validate_cbor_map c f
  reject_if (not (length es == 3)) confirmation_invalid
  fields ← map_into_fields es 3 confirmation_invalid
  confirm_of_fields fields

unfoldable pub verify : Primitives → SessionConfirmPayload → SessionKeys → Bytes → Result (Unit {0})
verify p s keys hash = do
  reject_if (not (bytes_eq s.session_id keys.session_id)) confirmation_invalid
  verify_confirmation p keys.confirmation_key hash s.confirmation (role_eq s.role initiator)

unfoldable pub verify_from :
    Primitives → SessionConfirmPayload → SessionKeys → Bytes → HelloRole → Result (Unit {0})
verify_from p s keys hash expected_role = do
  reject_if (not (role_eq s.role expected_role)) confirmation_invalid
  verify p s keys hash
