-- ===== src/Net/Decoder/Reading.antt =====
-- `FrameDecoder::next_frame` in one test of the declared length, and what more bytes change.
use ruxmsg.Prelude.{
  ℕ, zero, suc, ◌+◌, ◌≤◌, ◌<◌, ◌≡◌, refl, ap, [], ◌∷◌, ◌++◌, Option, some, none, ltb, length, take,
  drop, ◌⊎◌, inl, inr, Result, ok, err, Bool-cases, Result-cases, arith, length-append, le→ltb,
  lt→ltb, Bool, true, false,
}
use ruxmsg.Protocol.{Bytes, ProtocolVersion, MessageType}
use ruxmsg.Wire.{header_size, Frame, parse_header}
use ruxmsg.Wire
use ruxmsg.Net.Decoder.{DecodeError, decode_error, take_frame, after_header, next_frame}

abbrev pub Found : Type 0
Found = Bytes × (DecodeError ⊎ Option Frame)

take-append_more : (n : ℕ) (b c : Bytes) → n ≤ length b → take n (b ++ c) ≡ take n b
take-append_more zero b c h = refl
take-append_more (suc n) [] c h = absurd (omega arith)
take-append_more (suc n) (x ∷ b) c h = ap (λ t. x ∷ t) (take-append_more n b c (omega (arith, h)))

drop-append_more : (n : ℕ) (b c : Bytes) → n ≤ length b → drop n (b ++ c) ≡ drop n b ++ c
drop-append_more zero b c h = refl
drop-append_more (suc n) [] c h = absurd (omega arith)
drop-append_more (suc n) (x ∷ b) c h = drop-append_more n b c (omega (arith, h))

length-take : (n : ℕ) (b : Bytes) → n ≤ length b → length (take n b) ≡ n
length-take zero b h = refl
length-take (suc n) [] h = absurd (omega arith)
length-take (suc n) (x ∷ b) h = omega (arith, length-take n b (omega (arith, h)))

take-take : (n : ℕ) (b : Bytes) → take n (take n b) ≡ take n b
take-take zero b = refl
take-take (suc n) [] = refl
take-take (suc n) (x ∷ b) = ap (λ t. x ∷ t) (take-take n b)

length-drop : (n : ℕ) (b : Bytes) → length (drop n b) ≤ length b
length-drop zero b = omega arith
length-drop (suc n) [] = omega arith
length-drop (suc n) (x ∷ b) = omega (arith, length-drop n b)

-- With `short` for a payload that has not arrived in full.
abbrev pub read_payload : Bool → Bytes → ProtocolVersion → MessageType → ℕ → Bytes → Found
read_payload true buffer v t len rest = (buffer, inr none)
read_payload false buffer v t len rest =
    (drop len rest, inr (some (record { version = v; message_type = t; payload = take len rest })))

abbrev pub read_body : Result (ProtocolVersion × MessageType × ℕ) → Bytes → Bytes → Found
read_body (err e) buffer rest = (buffer, inl (decode_error e))
read_body (ok (v, t, len)) buffer rest = read_payload (ltb (length rest) len) buffer v t len rest

unfoldable pub reading : Bytes → Found
reading (h0 ∷ h1 ∷ h2 ∷ h3 ∷ h4 ∷ h5 ∷ rest) =
    read_body (parse_header h0 h1 h2 h3 h4 h5) (h0 ∷ h1 ∷ h2 ∷ h3 ∷ h4 ∷ h5 ∷ rest) rest
reading buffer = (buffer, inr none)

module _ (h0 h1 h2 h3 h4 h5 : ℕ) where
  abbrev whole : Bytes → Bytes
  whole rest = h0 ∷ h1 ∷ h2 ∷ h3 ∷ h4 ∷ h5 ∷ rest

  six : (n : ℕ) → header_size + n ≡ suc (suc (suc (suc (suc (suc n)))))
  six n = omega arith

  decode_taken :
      (rest : Bytes) (v : ProtocolVersion) (t : MessageType) (len : ℕ)
      → parse_header h0 h1 h2 h3 h4 h5 ≡ ok (v, t, len)
      → len ≤ length rest
      → Wire.decode (whole (take len rest))
        ≡ ok (record { version = v; message_type = t; payload = take len rest }, header_size + len)
  unfolding Wire.decode
  decode_taken rest v t len p h =
      rw
        (
          p,
          le→ltb (length (take len rest)) len (omega (arith, length-take len rest h)),
          take-take len rest,
          Wire.decode,
        )
        refl

  take_frame_lem :
      (rest : Bytes) (v : ProtocolVersion) (t : MessageType) (len : ℕ)
      → parse_header h0 h1 h2 h3 h4 h5 ≡ ok (v, t, len)
      → len ≤ length rest
      → take_frame (suc (suc (suc (suc (suc (suc len)))))) (whole rest)
        ≡ read_payload false (whole rest) v t len rest
  unfolding take_frame
  take_frame_lem rest v t len p h =
      rw (decode_taken rest v t len p h, take_frame) (ap after (six len))
    where
      after : ℕ → Found
      after n = (
        drop n (whole rest),
        inr (some (record { version = v; message_type = t; payload = take len rest })),
      )

  after_header_lem :
      (rest : Bytes)
      → after_header h0 h1 h2 h3 h4 h5 (whole rest)
        ≡ read_body (parse_header h0 h1 h2 h3 h4 h5) (whole rest) rest
  unfolding after_header
  after_header_lem rest = elim (Result-cases (parse_header h0 h1 h2 h3 h4 h5)) [
    | inr (e, p) ↦ rw (p, after_header) refl
    | inl ((v, t, len), p) ↦ elim (Bool-cases (ltb (length rest) len)) [
      | inl s ↦
          rw (p, lt→ltb (length (whole rest)) (header_size + len) (ground arith), s, after_header)
            refl
      | inr s ↦
          rw
            (
              p,
              le→ltb (length (whole rest)) (header_size + len) (ground arith),
              s,
              six len,
              after_header,
            )
            (take_frame_lem rest v t len p (ground arith))
    ]
  ]

pub next_frame-reading : (buffer : Bytes) → next_frame buffer ≡ reading buffer
unfolding next_frame reading
next_frame-reading [] = refl
next_frame-reading (_ ∷ []) = refl
next_frame-reading (_ ∷ _ ∷ []) = refl
next_frame-reading (_ ∷ _ ∷ _ ∷ []) = refl
next_frame-reading (_ ∷ _ ∷ _ ∷ _ ∷ []) = refl
next_frame-reading (_ ∷ _ ∷ _ ∷ _ ∷ _ ∷ []) = refl
next_frame-reading (h0 ∷ h1 ∷ h2 ∷ h3 ∷ h4 ∷ h5 ∷ rest) = after_header_lem h0 h1 h2 h3 h4 h5 rest

-- What is found stays found when bytes follow; what is not leaves the buffer.
abbrev pub Stays : Bytes → Bytes → Found → Type 0
Stays b c (b', inl e) = reading (b ++ c) ≡ (b' ++ c, inl e)
Stays b c (b', inr none) = b' ≡ b
Stays b c (b', inr (some f)) = (reading (b ++ c) ≡ (b' ++ c, inr (some f))) × (length b' < length b)

module _ (h0 h1 h2 h3 h4 h5 : ℕ) where
  payload-Stays :
      (rest c : Bytes) (v : ProtocolVersion) (t : MessageType) (len : ℕ) (short : Bool)
      → parse_header h0 h1 h2 h3 h4 h5 ≡ ok (v, t, len)
      → ltb (length rest) len ≡ short
      → Stays
          (whole h0 h1 h2 h3 h4 h5 rest)
          c
          (read_payload short (whole h0 h1 h2 h3 h4 h5 rest) v t len rest)
  unfolding reading
  payload-Stays rest c v t len true p s = refl
  payload-Stays rest c v t len false p s = (
    rw
        (
          p,
          le→ltb (length (rest ++ c)) len (ground (arith, length-append rest c)),
          take-append_more len rest c (ground arith),
          drop-append_more len rest c (ground arith),
          reading,
        )
        refl,
    omega (arith, length-drop len rest),
  )

  body-Stays :
      (rest c : Bytes) (r : Result (ProtocolVersion × MessageType × ℕ))
      → parse_header h0 h1 h2 h3 h4 h5 ≡ r
      → Stays (whole h0 h1 h2 h3 h4 h5 rest) c (read_body r (whole h0 h1 h2 h3 h4 h5 rest) rest)
  unfolding reading
  body-Stays rest c (err e) p = rw (p, reading) refl
  body-Stays rest c (ok (v, t, len)) p = payload-Stays rest c v t len (ltb (length rest) len) p refl

pub reading-Stays : (b c : Bytes) → Stays b c (reading b)
unfolding reading
reading-Stays [] c = refl
reading-Stays (_ ∷ []) c = refl
reading-Stays (_ ∷ _ ∷ []) c = refl
reading-Stays (_ ∷ _ ∷ _ ∷ []) c = refl
reading-Stays (_ ∷ _ ∷ _ ∷ _ ∷ []) c = refl
reading-Stays (_ ∷ _ ∷ _ ∷ _ ∷ _ ∷ []) c = refl
reading-Stays (h0 ∷ h1 ∷ h2 ∷ h3 ∷ h4 ∷ h5 ∷ rest) c =
    body-Stays h0 h1 h2 h3 h4 h5 rest c (parse_header h0 h1 h2 h3 h4 h5) refl
