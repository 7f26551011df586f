-- ===== src/Data/Padding.antt =====
-- `DataPlaintext` of crates/ruxmsg-core/src/data.rs.
pub mod Least
use ruxmsg.Prelude.{
  ℕ, zero, suc, ◌+◌, ◌%◌, List, [], ◌∷◌, Option, some, none, Bool, false, ltb, ◌==◌, ◌||◌, not,
  if◌then◌else◌, length, replicate, Result, ok, err, ◌>>=◌, ◌>>◌, data_too_large,
  invalid_data_payload, invalid_padding, reject_if, ok_or,
}
use ruxmsg.Protocol.{Bytes, max_content, max_frame_size, default_padding_quantum}
use ruxmsg.Cbor.{Value, Cbor, bytes, entries, to_entries, write_value}
use ruxmsg.Wire.Payload.{validate_cbor_map_payload}

abbrev pub aead_tag_size : ℕ
aead_tag_size = 16

unfoldable pub bstr_header_len : ℕ → ℕ
bstr_header_len n = if ltb n 24 then 1 else if ltb n 256 then 2 else if ltb n 65536 then 3 else 5

pub record DataPlaintext : Type 0 where
  pub content : Bytes
  pub padding : Bytes

unfoldable pub padded_total : ℕ → ℕ → ℕ
padded_total fixed padding_len = fixed + bstr_header_len padding_len + padding_len + aead_tag_size

-- The loop from `padding_len` on, with `left` values before it passes `max_frame_size`.
unfoldable pub find_padding : ℕ → ℕ → ℕ → Result ℕ
find_padding zero fixed padding_len = err data_too_large
find_padding (suc left) fixed padding_len =
    let next = find_padding left fixed (padding_len + 1) in
    if padded_total fixed padding_len % default_padding_quantum == 0 then ok padding_len else next

unfoldable pub fixed_size : ℕ → ℕ
fixed_size content_len = 3 + bstr_header_len content_len + content_len

unfoldable pub padded : Bytes → Result DataPlaintext
padded content = do
  reject_if (ltb max_content (length content)) data_too_large
  n ← find_padding (max_frame_size + 1) (fixed_size (length content)) 0
  ok (record { content = content; padding = replicate n 0 })

unfoldable pub plaintext_entries : DataPlaintext → List (ℕ × Value)
plaintext_entries d = (0, bytes d.content) ∷ (1, bytes d.padding) ∷ []

unfoldable pub encode : Cbor → DataPlaintext → Result Bytes
encode c d = write_value c (entries (to_entries (plaintext_entries d)))

unfoldable pub bytes_value : Value → Result Bytes
bytes_value (bytes b) = ok b
bytes_value _ = err invalid_data_payload

pub record Parts : Type 0 where
  pub content : Option Bytes
  pub padding : Option Bytes

-- The `match key` for one entry, then the loop.
unfoldable pub take_part : Parts → ℕ → Value → Result Parts
take_part s key v =
    if key == 0
    then bytes_value v >>= (λ b. ok (record s { content = some b }))
    else if key == 1
    then bytes_value v >>= (λ b. ok (record s { padding = some b }))
    else err invalid_data_payload

unfoldable pub take_parts : Parts → List (ℕ × Value) → Result Parts
take_parts s [] = ok s
take_parts s ((key, v) ∷ es) = take_part s key v >>= (λ s'. take_parts s' es)

abbrev pub any_nonzero : Bytes → Bool
any_nonzero [] = false
any_nonzero (b ∷ bs) = not (b == 0) || any_nonzero bs

unfoldable pub decode : Cbor → Bytes → Result DataPlaintext
decode c encoded = do
  es ← validate_cbor_map_payload c encoded
  reject_if (not (length es == 2)) invalid_data_payload
  parts ← take_parts (record { content = none; padding = none }) es
  padding ← ok_or parts.padding invalid_data_payload
  content ← ok_or parts.content invalid_data_payload
  reject_if (ltb max_content (length content)) data_too_large
  reject_if (any_nonzero padding) invalid_padding
  ok (record { content = content; padding = padding })
