-- ===== src/Cbor/Reference.antt =====
-- The deterministic encoding of RFC 8949, section 4.2.1: what the codec is relied upon to write
-- and to read back, for values without floats, booleans, null and tags.
use ruxmsg.Prelude.{
  ℕ, ◌+◌, ◌*◌, ◌^◌, ◌≡◌, inr, ltb, if◌then◌else◌, [], ◌∷◌, ◌++◌, length, be_bytes2, be_bytes4,
  be_bytes8, suc,
}
use ruxmsg.Protocol.{Bytes}
use ruxmsg.Cbor.{
  Value, Values, Entries, Cbor, integer, negative, bytes, text, array, entries, other, no_values,
  value, no_entries, entry,
}

-- The shortest head of a major type with an argument below 2^64.
unfoldable pub head : ℕ → ℕ → Bytes
head major n =
    if ltb n 24
    then (major * 32 + n) ∷ []
    else if ltb n (2 ^ 8)
    then (major * 32 + 24) ∷ n ∷ []
    else if ltb n (2 ^ 16)
    then (major * 32 + 25) ∷ be_bytes2 n
    else if ltb n (2 ^ 32)
    then (major * 32 + 26) ∷ be_bytes4 n
    else (major * 32 + 27) ∷ be_bytes8 n

abbrev pub count_values : Values → ℕ
count_values no_values = 0
count_values (value v vs) = suc (count_values vs)

abbrev pub count_entries : Entries → ℕ
count_entries no_entries = 0
count_entries (entry k v es) = suc (count_entries es)

unfoldable mutual
  pub encode : Value → Bytes
  encode (integer n) = head 0 n
  encode (negative n) = head 1 n
  encode (bytes b) = head 2 (length b) ++ b
  encode (text b) = head 3 (length b) ++ b
  encode (array vs) = head 4 (count_values vs) ++ encode_values vs
  encode (entries es) = head 5 (count_entries es) ++ encode_entries es
  encode (other n) = []

  pub encode_values : Values → Bytes
  encode_values no_values = []
  encode_values (value v vs) = encode v ++ encode_values vs

  pub encode_entries : Entries → Bytes
  encode_entries no_entries = []
  encode_entries (entry k v es) = encode k ++ (encode v ++ encode_entries es)

-- The codec writes the deterministic encoding of `v`, and reads it back to its end.
pub record Carries (c : Cbor) (v : Value) : Type 0 where
  pub writes : c.into_writer v ≡ inr (encode v)
  pub reads : c.from_reader (encode v) ≡ inr (v, length (encode v))
