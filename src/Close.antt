-- ===== src/Close.antt =====
-- crates/ruxmsg-core/src/close.rs: CLOSE reasons and payloads. The detail is its UTF-8 bytes.
use ruxmsg.Prelude.{
  ℕ, List, [], ◌∷◌, ◌++◌, Option, some, none, Bool, false, ltb, leb, ◌==◌, not, ◌&&◌, if◌then◌else◌,
  length, Result, ok, err, ◌>>=◌, ◌>>◌, invalid_close_payload, reject_if, ok_or, or_error,
  transpose,
}
use ruxmsg.Protocol.{Bytes, SessionId, close_message, message_type_eq}
use ruxmsg.Cbor.{Value, Cbor, integer, text, entries, to_entries, write_value}
use ruxmsg.Encoding.{optional_bytes, array_value, map_into_fields, field}
use ruxmsg.Wire
use ruxmsg.Wire.{Frame}
use ruxmsg.Wire.Payload.{validate_cbor_map, sort_by_key}

abbrev pub max_detail_bytes : ℕ
max_detail_bytes = 128

pub data CloseReason : Type 0 where
  normal protocol_error authentication_failure identity_changed resource_limit shutdown :
      CloseReason

abbrev pub reason_code : CloseReason → ℕ
reason_code normal = 0
reason_code protocol_error = 1
reason_code authentication_failure = 2
reason_code identity_changed = 3
reason_code resource_limit = 4
reason_code shutdown = 5

unfoldable pub reason_try_from : ℕ → Result CloseReason
reason_try_from v =
    if v == 0
    then ok normal
    else if v == 1
    then ok protocol_error
    else if v == 2
    then ok authentication_failure
    else if v == 3
    then ok identity_changed
    else if v == 4
    then ok resource_limit
    else if v == 5
    then ok shutdown
    else err invalid_close_payload

pub record ClosePayload : Type 0 where
  pub session_id : Option SessionId
  pub reason : CloseReason
  pub detail : Option Bytes

abbrev pub is_long : Option Bytes → Bool
is_long none = false
is_long (some d) = ltb max_detail_bytes (length d)

abbrev detail_entry : Option Bytes → List (ℕ × Value)
detail_entry none = []
detail_entry (some d) = (2, text d) ∷ []

-- The entries as they are pushed, before the sort.
unfoldable pub close_entries : ClosePayload → List (ℕ × Value)
close_entries p =
    (1, integer (reason_code p.reason))
    ∷ (optional_bytes 0 p.session_id [] ++ detail_entry p.detail)

unfoldable pub encode : Cbor → ClosePayload → Result Frame
encode c p = do
  reject_if (is_long p.detail) invalid_close_payload
  encoded ← write_value c (entries (to_entries (sort_by_key (close_entries p))))
  Wire.new close_message encoded

unfoldable pub uint_value : Value → Result ℕ
uint_value (integer n) = ok n
uint_value _ = err invalid_close_payload

unfoldable pub detail_value : Value → Result Bytes
detail_value (text t) = if ltb max_detail_bytes (length t) then err invalid_close_payload else ok t
detail_value _ = err invalid_close_payload

unfoldable pub decode : Cbor → Frame → Result ClosePayload
decode c f = do
  reject_if (not (message_type_eq f.message_type close_message)) invalid_close_payload
  es ← validate_cbor_map c f
  reject_if (not (leb 1 (length es) && leb (length es) 3)) invalid_close_payload
  fields ← map_into_fields es 3 invalid_close_payload
  session_id ←
      transpose (λ v. or_error (array_value 16 v "session ID") invalid_close_payload)
        (field fields 0)
  raw ← ok_or (field fields 1) invalid_close_payload
  code ← uint_value raw
  reason ← reason_try_from code
  detail ← transpose detail_value (field fields 2)
  ok (record { session_id = session_id; reason = reason; detail = detail })
