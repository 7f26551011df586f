-- ===== src/Wire/Payload.antt =====
-- `validate_cbor_map_payload` of crates/ruxmsg-core/src/wire.rs.
use ruxmsg.Prelude.{
  ℕ, ◌-◌, ◌^◌, List, [], ◌∷◌, not, ltb, leb, ◌==◌, if◌then◌else◌, length, contains, bytes_eq,
  Result, ok, err, ◌>>=◌, ◌>>◌, invalid_frame_length, non_canonical_encoding, invalid_payload_shape,
  invalid_map_key, duplicate_map_key, encoding, reject_if, map_err,
}
use ruxmsg.Protocol.{Bytes, max_frame_size}
use ruxmsg.Cbor.{Value, Entries, Cbor, integer, entries, no_entries, entry, to_entries, write_value}
use ruxmsg.Wire.{Frame}
use ruxmsg.Wire.Structure.{validate_cbor_structure}

-- The loop over the map, with the keys met so far.
unfoldable pub collect : Entries → List ℕ → Result (List (ℕ × Value))
collect no_entries keys = ok []
collect (entry (integer k) v es) keys =
    let rest = collect es (k ∷ keys) in
    if contains k keys then err (duplicate_map_key k) else (rest >>= λ r. ok ((k, v) ∷ r))
collect (entry _ v es) keys = err invalid_map_key

-- `sort_by_key`, which is stable.
unfoldable pub insert_by_key : ℕ × Value → List (ℕ × Value) → List (ℕ × Value)
insert_by_key (k, v) [] = (k, v) ∷ []
insert_by_key (k, v) ((j, w) ∷ es) =
    if leb k j then (k, v) ∷ (j, w) ∷ es else (j, w) ∷ insert_by_key (k, v) es

unfoldable pub sort_by_key : List (ℕ × Value) → List (ℕ × Value)
sort_by_key [] = []
sort_by_key (e ∷ es) = insert_by_key e (sort_by_key es)

unfoldable pub map_entries : Value → Result Entries
map_entries (entries es) = ok es
map_entries _ = err invalid_payload_shape

-- The length as a u32, saturated.
abbrev length32 : Bytes → ℕ
length32 b = if ltb (length b) (2 ^ 32) then length b else 2 ^ 32 - 1

unfoldable pub validate_cbor_map_payload : Cbor → Bytes → Result (List (ℕ × Value))
validate_cbor_map_payload c payload = do
  reject_if (ltb max_frame_size (length payload)) (invalid_frame_length (length32 payload))
  validate_cbor_structure payload
  (value, position) ← map_err (c.from_reader payload) encoding
  reject_if (not (position == length payload)) non_canonical_encoding
  es ← map_entries value
  collected ← collect es []
  let canonical_entries = sort_by_key collected
  canonical ← write_value c (entries (to_entries canonical_entries))
  reject_if (not (bytes_eq canonical payload)) non_canonical_encoding
  ok canonical_entries

unfoldable pub validate_cbor_map : Cbor → Frame → Result (List (ℕ × Value))
validate_cbor_map c f = validate_cbor_map_payload c f.payload
