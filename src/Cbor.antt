-- ===== src/Cbor.antt =====
-- `ciborium::Value` and the CBOR codec that the core calls. The codec is another crate's code: a
-- `Cbor` value, which every definition that reads or writes CBOR takes. `Value` has the
-- constructors that the core names; floats, booleans, null and tags are `other`. An integer of
-- ciborium lies in -2^64 .. 2^64 - 1: `integer n` is n, and `negative n` is -1 - n. A text is the
-- list of its UTF-8 bytes.
pub mod Reference
use ruxmsg.Prelude.{ℕ, ◌+◌, ◌⊎◌, String, List, [], ◌∷◌, Result, map_err, encoding, suc}
use ruxmsg.Protocol.{Bytes}

mutual
  pub data Value : Type 0 where
    integer : ℕ → Value
    negative : ℕ → Value
    bytes : Bytes → Value
    text : Bytes → Value
    array : Values → Value
    entries : Entries → Value
    other : ℕ → Value

  pub data Values : Type 0 where
    no_values : Values
    value : Value → Values → Values

  pub data Entries : Type 0 where
    no_entries : Entries
    entry : Value → Value → Entries → Entries

-- `ser::into_writer` into a vector, and `de::from_reader` over a cursor, which returns the value
-- and the cursor's position after it. An error is its message.
pub record Cbor : Type 0 where
  pub into_writer : Value → String ⊎ Bytes
  pub from_reader : Bytes → String ⊎ (Value × ℕ)

-- A map whose keys are unsigned integers.
abbrev pub to_entries : List (ℕ × Value) → Entries
to_entries [] = no_entries
to_entries ((k, v) ∷ es) = entry (integer k) v (to_entries es)

-- `into_writer(&value, &mut encoded).map_err(|error| Error::Encoding(error.to_string()))`
abbrev pub write_value : Cbor → Value → Result Bytes
write_value c v = map_err (c.into_writer v) encoding
