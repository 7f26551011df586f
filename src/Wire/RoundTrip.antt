-- ===== src/Wire/RoundTrip.antt =====
-- The outer frame: what `encode` writes, `decode` reads back.
use ruxmsg.Prelude.{
  ℕ, ◌+◌, ◌≤◌, ◌^◌, ◌≡◌, refl, ap, ◌∙◌, ◌∷◌, ◌++◌, length, take-append, length-append, be_bytes4,
  be_fold-be_bytes4, le→ltb, le→leb, lt→ltb, ◌>>=◌, ◌/◌, ◌%◌, Result, ok, arith,
}
use ruxmsg.Protocol.{
  Bytes, ProtocolVersion, v1, version_code, version_try_from, MessageType, handshake_message,
  session_confirm_message, data_message, rekey_message, close_message, message_type_code,
  message_type_try_from, max_payload, frame_length, max_frame_size,
}
use ruxmsg.Wire.{header_size, Frame, check_length, u32_length, encode, parse_header, decode}

-- A length that a frame of the type may have is within the frame limit.
fits_frame : (m : MessageType) (n : ℕ) → n ≤ max_payload m → n ≤ max_frame_size
unfolding max_payload
fits_frame handshake_message n h = omega arith
fits_frame session_confirm_message n h = omega arith
fits_frame data_message n h = omega arith
fits_frame rekey_message n h = omega arith
fits_frame close_message n h = omega arith

check_length_ok : (m : MessageType) (n : ℕ) → n ≤ max_payload m → check_length m n ≡ ok n
unfolding check_length frame_length
check_length_ok m n h =
    rw
      (
        le→ltb (max_payload m) n h,
        le→leb n max_frame_size (fits_frame m n h),
        check_length,
        frame_length,
      )
      refl

version_code_back : (v : ProtocolVersion) → version_try_from (version_code v) ≡ ok v
unfolding version_try_from
version_code_back v1 = refl

message_type_code_back : (m : MessageType) → message_type_try_from (message_type_code m) ≡ ok m
unfolding message_type_try_from
message_type_code_back handshake_message = refl
message_type_code_back session_confirm_message = refl
message_type_code_back data_message = refl
message_type_code_back rekey_message = refl
message_type_code_back close_message = refl

-- The bytes of a frame.
abbrev pub frame_bytes : Frame → Bytes
frame_bytes f =
    version_code f.version
    ∷ message_type_code f.message_type
    ∷ (be_bytes4 (length f.payload) ++ f.payload)

pub encode_fits :
    (f : Frame) → length f.payload ≤ max_payload f.message_type → encode f ≡ ok (frame_bytes f)
unfolding encode u32_length
encode_fits f h =
    let n : length f.payload ≤ max_frame_size = fits_frame f.message_type (length f.payload) h in
    rw
      (
        lt→ltb (length f.payload) (2 ^ 32) (omega arith),
        check_length_ok f.message_type (length f.payload) h,
        encode,
        u32_length,
      )
      refl

pub parse_header_lem :
    (v : ProtocolVersion) (m : MessageType) (n : ℕ)
    → n ≤ max_payload m
    → parse_header
        (version_code v)
        (message_type_code m)
        (n / 2 ^ 24 % 256)
        (n / 2 ^ 16 % 256)
        (n / 256 % 256)
        (n % 256)
      ≡ ok (v, m, n)
unfolding parse_header
parse_header_lem v m n h =
    let k : n ≤ max_frame_size = fits_frame m n h in
    rw (version_code_back v, message_type_code_back m, parse_header)
      (ap after (be_fold-be_bytes4 n (omega arith)) ∙ rw (check_length_ok m n h) refl)
  where
    after : ℕ → Result (ProtocolVersion × MessageType × ℕ)
    after declared = check_length m declared >>= λ _. ok (v, m, declared)

decode_frame :
    (f : Frame) (rest : Bytes)
    → length f.payload ≤ max_payload f.message_type
    → decode (frame_bytes f ++ rest) ≡ ok (f, header_size + length f.payload)
unfolding decode
decode_frame f rest h =
    let parsed = parse_header_lem f.version f.message_type (length f.payload) h in
    let enough : length f.payload ≤ length (f.payload ++ rest) =
      omega (arith, length-append f.payload rest) in
    rw
      (
        parsed,
        le→ltb (length (f.payload ++ rest)) (length f.payload) enough,
        take-append f.payload rest,
        decode,
      )
      refl

-- A frame whose payload is within its type's limit is encoded, and decoding the bytes, whatever
-- follows them, gives the frame back with the number of bytes that it took.
pub decode-encode :
    (f : Frame) (rest : Bytes)
    → length f.payload ≤ max_payload f.message_type
    → (sent : Bytes) × (encode f ≡ ok sent) × (decode (sent ++ rest) ≡ ok (f, length sent))
decode-encode f rest h =
    (frame_bytes f, encode_fits f h, decode_frame f rest h ∙ ap (λ n. ok (f, n)) (omega arith))
