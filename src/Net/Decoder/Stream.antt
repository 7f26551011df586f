-- ===== src/Net/Decoder/Stream.antt =====
-- The frames that were encoded come out of the stream of their bytes.
use ruxmsg.Prelude.{
  ◌≤◌, ◌≡◌, ◌≢◌, refl, sym, ap, ◌∙◌, subst, List, [], ◌∷◌, ◌++◌, Option, some, none, length, inl,
  inr, Result, ok, err, ◌>>=◌, arith, take-append, drop-append, le→ltb, length-append, ltb, true,
  ◌-◌, ◌^◌, invalid_frame_length, Bool-cases, Result-cases,
}
use ruxmsg.Protocol.{Bytes, max_payload}
use ruxmsg.Wire.{Frame, encode, check_length, u32_length}
use ruxmsg.Wire.RoundTrip.{frame_bytes, encode_fits, parse_header_lem}
use ruxmsg.Net.Decoder.{next_frame}
use ruxmsg.Net.Decoder.Reading.{reading, next_frame-reading}
use ruxmsg.Net.Decoder.Drain.{
  Drained, Drains, starved, framed, Drains-drain_all, fresh_drain, feed_chunks,
}
use ruxmsg.Net.Decoder.Chunks.{concat, feed_chunks-drain_all}

-- The bytes of frames that are sent one after the other; a frame that cannot be encoded ends it.
unfoldable pub encode_all : List Frame → Result Bytes
encode_all [] = ok []
encode_all (f ∷ fs) = do bytes ← encode f; more ← encode_all fs; ok (bytes ++ more)

reading-encoded :
    (f : Frame) (rest : Bytes)
    → length f.payload ≤ max_payload f.message_type
    → reading (frame_bytes f ++ rest) ≡ (rest, inr (some f))
unfolding reading
reading-encoded f rest h =
    rw
      (
        parse_header_lem f.version f.message_type (length f.payload) h,
        le→ltb (length (f.payload ++ rest)) (length f.payload)
            (omega (arith, length-append f.payload rest)),
        take-append f.payload rest,
        drop-append f.payload rest,
        reading,
      )
      refl

encode_long :
    (f : Frame) (bytes : Bytes)
    → ltb (max_payload f.message_type) (length f.payload) ≡ true
    → encode f ≢ ok bytes
unfolding encode u32_length check_length
encode_long f bytes h e = elim (Bool-cases (ltb (length f.payload) (2 ^ 32))) [
  | inl k ↦
      let w : encode f ≡ err (invalid_frame_length (length f.payload)) =
        rw (k, h, encode, u32_length, check_length) refl in
      ground (arith, w, e)
  | inr k ↦
      let w : encode f ≡ err (invalid_frame_length (2 ^ 32 - 1)) =
        rw (k, encode, u32_length) refl in
      ground (arith, w, e)
]

-- A frame that is encoded is within its limit.
encoded :
    (f : Frame) (bytes : Bytes)
    → encode f ≡ ok bytes
    → (bytes ≡ frame_bytes f) × (length f.payload ≤ max_payload f.message_type)
encoded f bytes e = elim (Bool-cases (ltb (max_payload f.message_type) (length f.payload))) [
  | inl h ↦ absurd (encode_long f bytes h e)
  | inr h ↦
      let n : length f.payload ≤ max_payload f.message_type = ground arith in
      (ground (arith, encode_fits f n), n)
]

abbrev Read : List Frame → Drained
Read fs = record { frames = fs; left = []; failure = none }

empty_bytes : (bytes : Bytes) → ◌≡◌ {A = Result Bytes} (ok []) (ok bytes) → [] ≡ bytes
empty_bytes bytes e = ground (arith, e)

abbrev or_fresh : Option Drained → Drained
or_fresh none = fresh_drain
or_fresh (some d) = d

Drains-encode_all :
    (fs : List Frame) (bytes : Bytes) → encode_all fs ≡ ok bytes → Drains bytes (Read fs)
unfolding encode_all next_frame
Drains-encode_all [] bytes e = subst (λ b. Drains b (Read [])) (empty_bytes bytes e) (starved refl)
Drains-encode_all (f ∷ fs) bytes e = elim (Result-cases (encode f)) [
  | inr (x, p) ↦
      let w : encode_all (f ∷ fs) ≡ err x = rw (p, encode_all) refl in ground (arith, w, e)
  | inl (sent, p) ↦ elim (Result-cases (encode_all fs)) [
    | inr (x, q) ↦
        let w : encode_all (f ∷ fs) ≡ err x = rw (p, q, encode_all) refl in ground (arith, w, e)
    | inl (more, q) ↦
        let w : encode_all (f ∷ fs) ≡ ok (sent ++ more) = rw (p, q, encode_all) refl in
        let k = encoded f sent p in
        let same : sent ++ more ≡ bytes = ground (arith, w, e) in
        subst (λ b. Drains b (Read (f ∷ fs))) (ap (λ t. t ++ more) (sym k.0) ∙ same)
          (framed (next_frame-reading (frame_bytes f ++ more) ∙ reading-encoded f more k.1)
            (Drains-encode_all fs more q))
  ]
]

-- What is sent as frames comes back as them: when the bytes of frames that were all encoded are
-- read in any chunks, the frames are found, in order, with no failure.
pub feed_chunks-encode_all :
    (fs : List Frame) (cs : List Bytes)
    → encode_all fs ≡ ok (concat cs)
    → (d : Drained) × (feed_chunks cs fresh_drain ≡ some d) × (d.frames ≡ fs) × (d.failure ≡ none)
feed_chunks-encode_all fs cs e =
    let (all, d, p, q, h, k) = feed_chunks-drain_all cs in
    let r = Drains-drain_all (concat cs) (Read fs) (Drains-encode_all fs (concat cs) e) in
    let same : all ≡ Read fs = ap or_fresh (sym q ∙ r) in
    (d, p, h ∙ ap (λ x. x.frames) same, k ∙ ap (λ x. x.failure) same)
