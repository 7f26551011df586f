-- ===== src/Tests/Delivery.antt =====
-- One DATA frame, delivered and offered again.
use ruxmsg.Prelude.{
  ◌≡◌, refl, [], ◌∷◌, inl, inr, ok, err, replay_rejected, if◌then◌else◌, bytes_eq, length, lookup,
  insert, remove,
}
use ruxmsg.Protocol.{v1, data_message, responder_to_initiator, direction_try_from}
use ruxmsg.Cbor.{Cbor, Value, entries, to_entries}
use ruxmsg.Cbor.Reference
use ruxmsg.Cbor.Reference.{head}
use ruxmsg.Crypto.{zeros, derive_message_key, message_nonce, hkdf_expand, decrypt_message}
use ruxmsg.Wire.{Frame}
use ruxmsg.Wire.Structure.{
  read_cbor_argument, is_shortest, read_sized, pop_finished, skip_string, push_container, open_item,
  read_item, validate_items, validate_cbor_structure,
}
use ruxmsg.Wire.Payload.{
  collect, insert_by_key, sort_by_key, map_entries, validate_cbor_map_payload,
}
use ruxmsg.Ratchet.Replay.{classify_below, classify, accept, record_counter}
use ruxmsg.Ratchet.Chain
use ruxmsg.Ratchet.Chain.{prepare_message_key, commit_message_key, derive_next, derive_rounds}
use ruxmsg.Data.Padding
use ruxmsg.Data.Padding.{DataPlaintext, plaintext_entries}
use ruxmsg.Data.Channel
use ruxmsg.Data.Channel.{
  DataPayload, DataReceiver, payload_entries, new_receiver, admit, open_payload, commit_payload,
  decrypt_admitted, decrypt, decode_payload, data_aad,
}
use ruxmsg.Data.Channel.Again.{decrypt-replay_rejected}
use ruxmsg.Tests.Toy.{toy_primitives}

abbrev plain_value : Value
plain_value =
    entries (to_entries (plaintext_entries (record { content = 42 ∷ []; padding = zeros 16 })))

abbrev data_value : Value
data_value = entries (
    to_entries (
      payload_entries (record {
        session_id = zeros 16;
        direction_id = responder_to_initiator;
        message_counter = 1;
        ciphertext = Reference.encode plain_value;
      })))

-- A codec that reads these two values.
abbrev data_cbor : Cbor
data_cbor = record {
  into_writer = λ v. inr (Reference.encode v);
  from_reader = λ b.
      if bytes_eq b (Reference.encode data_value)
      then inr (data_value, length b)
      else if bytes_eq b (Reference.encode plain_value)
      then inr (plain_value, length b)
      else inl "unknown";
}

abbrev data_frame : Frame
data_frame = record {
  version = v1;
  message_type = data_message;
  payload = Reference.encode data_value;
}

abbrev data_receiver : DataReceiver
data_receiver = new_receiver (zeros 16) responder_to_initiator (10 ∷ [])

delivered :
    decrypt data_cbor toy_primitives data_receiver data_frame
    ≡ ((decrypt data_cbor toy_primitives data_receiver data_frame).0, ok (42 ∷ []))
unfolding decrypt admit decode_payload validate_cbor_map_payload Reference.encode head
    payload_entries plaintext_entries validate_cbor_structure validate_items pop_finished read_item
    read_cbor_argument open_item push_container skip_string bytes_eq decrypt_message
    derive_message_key message_nonce Channel.aad_entries commit_payload data_aad decrypt_admitted
    Channel.direction_value open_payload Channel.session_id_value Channel.take_part
    Channel.take_parts Channel.uint_value Padding.bytes_value Padding.decode Padding.take_part
    Padding.take_parts insert lookup remove direction_try_from commit_message_key derive_next
    derive_rounds Chain.derive_through Chain.exceeds_limits prepare_message_key Chain.saturating_add
    accept classify classify_below record_counter collect insert_by_key map_entries sort_by_key
    is_shortest read_sized hkdf_expand new_receiver Chain.new
delivered = refl

decrypt-replay_rejected_example :
    let r = (decrypt data_cbor toy_primitives data_receiver data_frame).0 in
    decrypt data_cbor toy_primitives r data_frame ≡ (r, err replay_rejected)
decrypt-replay_rejected_example =
    decrypt-replay_rejected data_cbor toy_primitives data_receiver
      (decrypt data_cbor toy_primitives data_receiver data_frame).0 data_frame (42 ∷ []) delivered
