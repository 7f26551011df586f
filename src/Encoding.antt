-- ===== src/Encoding.antt =====
-- crates/ruxmsg-core/src/encoding.rs: the transcript, and the fields of a decoded map.
use ruxmsg.Prelude.{
  ℕ, List, [], ◌∷◌, Option, some, none, ltb, ◌==◌, ◌||◌, not, if◌then◌else◌, length, get_elem?, set,
  replicate, is_some, String, Result, ok, err, Error, invalid_length,
}
use ruxmsg.Protocol.{Bytes, SessionId, PeerIdentity, HandshakePurpose, purpose_code}
use ruxmsg.Cbor.{Value, Cbor, integer, bytes, entries, to_entries, write_value}

pub record Transcript : Type 0 where
  pub purpose : HandshakePurpose
  pub cipher_suite : ℕ
  pub initiator_identity : PeerIdentity
  pub responder_identity : PeerIdentity
  pub initiator_ephemeral : Bytes
  pub responder_ephemeral : Bytes
  pub initiator_nonce : Bytes
  pub responder_nonce : Bytes
  pub previous_session_id : Option SessionId

-- An optional byte-string field of a map.
abbrev pub optional_bytes : ℕ → Option Bytes → List (ℕ × Value) → List (ℕ × Value)
optional_bytes key none es = es
optional_bytes key (some b) es = (key, bytes b) ∷ es

-- The `BTreeMap` of fields in the order of its keys.
unfoldable pub transcript_fields : Transcript → List (ℕ × Value)
transcript_fields t =
    (0, integer 1)
    ∷ (1, integer t.cipher_suite)
    ∷ (2, integer (purpose_code t.purpose))
    ∷ (3, integer 0)
    ∷ (4, integer 1)
    ∷ optional_bytes 5 t.previous_session_id (
        (6, bytes t.initiator_identity)
        ∷ (7, bytes t.responder_identity)
        ∷ (8, bytes t.initiator_ephemeral)
        ∷ (9, bytes t.responder_ephemeral)
        ∷ (10, bytes t.initiator_nonce)
        ∷ (11, bytes t.responder_nonce)
        ∷ [])

unfoldable pub encode_transcript : Cbor → Transcript → Result Bytes
encode_transcript c t = write_value c (entries (to_entries (transcript_fields t)))

unfoldable pub array_value : ℕ → Value → String → Result Bytes
array_value n (bytes b) kind =
    if length b == n then ok b else err (invalid_length kind n (length b))
array_value n _ kind = err (invalid_length kind 0 0)

-- `fields[i]`, once; every field is taken at most once.
abbrev pub field : List (Option Value) → ℕ → Option Value
field fields i = elim (get_elem? fields i) [ none ↦ none | some v ↦ v ]

unfoldable pub fill_fields :
    List (Option Value) → List (ℕ × Value) → Error → Result (List (Option Value))
fill_fields fields [] invalid = ok fields
fill_fields fields ((key, v) ∷ es) invalid =
    let rest = fill_fields (set fields key (some v)) es invalid in
    if not (ltb key (length fields)) || is_some (field fields key) then err invalid else rest

unfoldable pub map_into_fields : List (ℕ × Value) → ℕ → Error → Result (List (Option Value))
map_into_fields es field_count invalid = fill_fields (replicate field_count none) es invalid
