-- ===== src/Data/Channel.antt =====
-- `DataPayload`, `DataSender` and `DataReceiver` of crates/ruxmsg-core/src/data.rs. A method that
-- changes its object returns the new object beside its result.
pub mod Again
use ruxmsg.Prelude.{
  ℕ, ◌+◌, ◌-◌, ◌^◌, List, [], ◌∷◌, Option, some, none, Bool, ltb, leb, ◌==◌, not, if◌then◌else◌,
  length, bytes_eq, Result, ok, err, ◌>>=◌, ◌>>◌, data_too_large, invalid_data_payload,
  counter_overflow, replay_rejected, reject_if, ok_or,
}
use ruxmsg.Protocol.{
  Bytes, SessionId, DirectionId, direction_code, direction_try_from, direction_eq, data_message,
  message_type_code, message_type_eq, max_content,
}
use ruxmsg.Cbor.{Value, Cbor, integer, bytes, entries, to_entries, write_value}
use ruxmsg.Crypto.{Primitives, derive_message_key, message_nonce, encrypt_message, decrypt_message}
use ruxmsg.Ratchet.Chain.{ReceivingChain, prepare_message_key, commit_message_key}
use ruxmsg.Ratchet.Chain
use ruxmsg.Ratchet.Replay.{ReplayWindow, ReplayStatus, fresh, classify, accept}
use ruxmsg.Ratchet.Replay
use ruxmsg.Wire
use ruxmsg.Wire.{Frame}
use ruxmsg.Wire.Payload.{validate_cbor_map_payload}
use ruxmsg.Data.Padding.{DataPlaintext, aead_tag_size, padded, bytes_value}
use ruxmsg.Data.Padding

pub record DataPayload : Type 0 where
  pub session_id : SessionId
  pub direction_id : DirectionId
  pub message_counter : ℕ
  pub ciphertext : Bytes

unfoldable pub payload_entries : DataPayload → List (ℕ × Value)
payload_entries d =
    (0, bytes d.session_id)
    ∷ (1, integer (direction_code d.direction_id))
    ∷ (2, integer d.message_counter)
    ∷ (3, bytes d.ciphertext)
    ∷ []

unfoldable pub encode_payload : Cbor → DataPayload → Result Frame
encode_payload c d = do
  encoded ← write_value c (entries (to_entries (payload_entries d)))
  Wire.new data_message encoded

unfoldable pub uint_value : Value → Result ℕ
uint_value (integer n) = ok n
uint_value _ = err invalid_data_payload

pub record Parts : Type 0 where
  pub session_id : Option SessionId
  pub direction_id : Option DirectionId
  pub counter : Option ℕ
  pub ciphertext : Option Bytes

-- `bytes.try_into()` to a 16-byte session ID.
unfoldable pub session_id_value : Value → Result SessionId
session_id_value v = do b ← bytes_value v; if length b == 16 then ok b else err invalid_data_payload

-- `u32::try_from`, then the direction registry.
unfoldable pub direction_value : Value → Result DirectionId
direction_value v = do
  n ← uint_value v
  reject_if (leb (2 ^ 32) n) invalid_data_payload
  direction_try_from n

unfoldable pub take_part : Parts → ℕ → Value → Result Parts
take_part s key v =
    if key == 0
    then session_id_value v >>= (λ b. ok (record s { session_id = some b }))
    else if key == 1
    then direction_value v >>= (λ d. ok (record s { direction_id = some d }))
    else if key == 2
    then uint_value v >>= (λ n. ok (record s { counter = some n }))
    else if key == 3
    then bytes_value v >>= (λ b. ok (record s { ciphertext = some b }))
    else err invalid_data_payload

unfoldable pub take_parts : Parts → List (ℕ × Value) → Result Parts
take_parts s [] = ok s
take_parts s ((key, v) ∷ es) = take_part s key v >>= (λ s'. take_parts s' es)

abbrev no_parts : Parts
no_parts = record { session_id = none; direction_id = none; counter = none; ciphertext = none }

unfoldable pub decode_payload : Cbor → Bytes → Result DataPayload
decode_payload c encoded = do
  es ← validate_cbor_map_payload c encoded
  reject_if (not (length es == 4)) invalid_data_payload
  parts ← take_parts no_parts es
  ciphertext ← ok_or parts.ciphertext invalid_data_payload
  reject_if (ltb (length ciphertext) aead_tag_size) invalid_data_payload
  session_id ← ok_or parts.session_id invalid_data_payload
  direction ← ok_or parts.direction_id invalid_data_payload
  counter ← ok_or parts.counter invalid_data_payload
  ok (record {
    session_id = session_id;
    direction_id = direction;
    message_counter = counter;
    ciphertext = ciphertext;
  })

unfoldable pub aad_entries : SessionId → DirectionId → ℕ → List (ℕ × Value)
aad_entries session_id direction counter =
    (0, integer 1)
    ∷ (1, bytes session_id)
    ∷ (2, integer (message_type_code data_message))
    ∷ (3, integer (direction_code direction))
    ∷ (4, integer counter)
    ∷ []

unfoldable pub data_aad : Cbor → SessionId → DirectionId → ℕ → Result Bytes
data_aad c session_id direction counter =
    write_value c (entries (to_entries (aad_entries session_id direction counter)))

pub record DataSender : Type 0 where
  pub session_id : SessionId
  pub direction : DirectionId
  pub chain_key : Bytes
  pub counter : ℕ

unfoldable pub new_sender : SessionId → DirectionId → Bytes → DataSender
new_sender session_id direction chain_key = record {
  session_id = session_id;
  direction = direction;
  chain_key = chain_key;
  counter = 0;
}

pub record DataReceiver : Type 0 where
  pub session_id : SessionId
  pub chain : ReceivingChain
  pub replay : ReplayWindow
  pub direction : DirectionId

unfoldable pub new_receiver : SessionId → DirectionId → Bytes → DataReceiver
new_receiver session_id direction chain_key = record {
  session_id = session_id;
  chain = Chain.new chain_key direction;
  replay = Replay.new;
  direction = direction;
}

abbrev pub is_fresh : ReplayStatus → Bool
is_fresh fresh = Bool.true
is_fresh _ = Bool.false

module _ (c : Cbor) (p : Primitives) where
  -- `encrypt` up to the commit of chain and counter.
  unfoldable pub encrypt_content : DataSender → Bytes → Result Bytes
  encrypt_content s content = do
    reject_if (ltb max_content (length content)) data_too_large
    reject_if (s.counter == 2 ^ 64 - 1) counter_overflow
    d ← padded content
    plaintext ← Padding.encode c d
    aad ← data_aad c s.session_id s.direction s.counter
    encrypt_message p (derive_message_key p s.chain_key s.direction).0
        (message_nonce s.direction s.counter) aad plaintext

  -- The commit, then the frame.
  unfoldable pub sent : DataSender → Bytes → DataSender × Result Frame
  sent s ciphertext = (
    record s {
      chain_key = (derive_message_key p s.chain_key s.direction).1;
      counter = s.counter + 1;
    },
    encode_payload c (record {
      session_id = s.session_id;
      direction_id = s.direction;
      message_counter = s.counter;
      ciphertext = ciphertext;
    }),
  )

  unfoldable pub encrypt : DataSender → Bytes → DataSender × Result Frame
  encrypt s content = elim (encrypt_content s content) [
    | err e ↦ (s, err e)
    | ok ciphertext ↦ sent s ciphertext
  ]

  -- The checks of `decrypt` before the chain is touched.
  unfoldable pub admit : DataReceiver → Frame → Result DataPayload
  admit r f = do
    reject_if (not (message_type_eq f.message_type data_message)) invalid_data_payload
    payload ← decode_payload c f.payload
    reject_if (not (bytes_eq payload.session_id r.session_id)) invalid_data_payload
    reject_if (not (direction_eq payload.direction_id r.direction)) invalid_data_payload
    reject_if (not (is_fresh (classify r.replay payload.message_counter))) replay_rejected
    ok payload

  -- Authentication and validation under a prepared key.
  unfoldable pub open_payload : DataReceiver → DataPayload → Bytes → Result DataPlaintext
  open_payload r d key = do
    aad ← data_aad c r.session_id d.direction_id d.message_counter
    plaintext ←
        decrypt_message p key (message_nonce d.direction_id d.message_counter) aad d.ciphertext
    Padding.decode c plaintext

  -- The commit of the key, then of the counter; each may fail after the other's change.
  unfoldable pub commit_payload : DataReceiver → ℕ → Bytes → DataReceiver × Result Bytes
  commit_payload r counter content =
      let (chain, committed) = commit_message_key r.chain counter in
      let r' = record r { chain = chain } in
      elim committed [
        | err e ↦ (r', err e)
        | ok _ ↦ elim (accept r'.replay counter) [
          | err e ↦ (r', err e)
          | ok replay ↦ (record r' { replay = replay }, ok content)
        ]
      ]

  unfoldable pub decrypt_admitted : DataReceiver → DataPayload → DataReceiver × Result Bytes
  decrypt_admitted r d =
      let (chain, prepared) = prepare_message_key p r.chain d.message_counter in
      let r' = record r { chain = chain } in
      elim prepared [
        | err e ↦ (r', err e)
        | ok key ↦ elim (open_payload r' d key) [
          | err e ↦ (r', err e)
          | ok decoded ↦ commit_payload r' d.message_counter decoded.content
        ]
      ]

  unfoldable pub decrypt : DataReceiver → Frame → DataReceiver × Result Bytes
  decrypt r f = elim (admit r f) [ err e ↦ (r, err e) | ok d ↦ decrypt_admitted r d ]
