-- ===== src/Data/Channel/Again.antt =====
-- A frame that was decrypted once.
use ruxmsg.Prelude.{
  ℕ, ◌≡◌, refl, sym, subst, ◌∙◌, Bool, true, false, not, Result, ok, err, Error, Result-cases,
  arith, replay_rejected, inl, inr, reject_if, bytes_eq, ◌>>=◌, ◌>>◌, invalid_data_payload,
}
use ruxmsg.Protocol.{Bytes, direction_eq, message_type_eq, data_message}
use ruxmsg.Cbor.{Cbor}
use ruxmsg.Crypto.{Primitives}
use ruxmsg.Wire.{Frame}
use ruxmsg.Ratchet.Replay.{duplicate, classify, accept}
use ruxmsg.Ratchet.Replay.Again.{accept-duplicate}
use ruxmsg.Ratchet.Chain.{prepare_message_key, commit_message_key}
use ruxmsg.Data.Channel.{
  DataPayload, decode_payload, DataReceiver, is_fresh, admit, open_payload, commit_payload,
  decrypt_admitted, decrypt,
}

-- What a successful decryption leaves: the session and the direction, and a window that took the
-- counter.
abbrev Took : DataReceiver → ℕ → DataReceiver → Type 0
Took r counter r' =
    (r'.session_id ≡ r.session_id)
    × (r'.direction ≡ r.direction)
    × (accept r.replay counter ≡ ok r'.replay)

abbrev Taken : DataReceiver → ℕ → DataReceiver × Result Bytes → Type 0
Taken r counter (r', ok b) = Took r counter r'
Taken r counter (r', err e) = Unit {0}

-- Three checks in a row that passed.
passed :
    (x y z : Bool) (e e' e'' : Error) (d' d : DataPayload)
    → (reject_if x e >> (reject_if y e' >> (reject_if z e'' >> ok d'))) ≡ ok d
    → (x ≡ false) × (y ≡ false) × (d' ≡ d)
passed false false false e e' e'' d' d h = (refl, refl, ground arith)
passed true y z e e' e'' d' d h = ground arith
passed false true z e e' e'' d' d h = ground arith
passed false false true e e' e'' d' d h = ground arith

-- `admit` with its parts: whether the type is wrong, the decoded payload, and the receiver.
abbrev admit_parts : Bool → Result DataPayload → DataReceiver → Result DataPayload
admit_parts wrong decoded r = do
  reject_if wrong invalid_data_payload
  payload ← decoded
  reject_if (not (bytes_eq payload.session_id r.session_id)) invalid_data_payload
  reject_if (not (direction_eq payload.direction_id r.direction)) invalid_data_payload
  reject_if (not (is_fresh (classify r.replay payload.message_counter))) replay_rejected
  ok payload

admit_again :
    (wrong : Bool) (decoded : Result DataPayload) (r r' : DataReceiver) (d : DataPayload)
    → admit_parts wrong decoded r ≡ ok d
    → r'.session_id ≡ r.session_id
    → r'.direction ≡ r.direction
    → classify r'.replay d.message_counter ≡ duplicate
    → admit_parts wrong decoded r' ≡ err replay_rejected
admit_again true decoded r r' d h s k c = ground arith
admit_again false (err e) r r' d h s k c = ground arith
admit_again false (ok d') r r' d h s k c =
    let q =
      passed (not (bytes_eq d'.session_id r.session_id))
        (not (direction_eq d'.direction_id r.direction))
        (not (is_fresh (classify r.replay d'.message_counter))) invalid_data_payload
        invalid_data_payload replay_rejected d' d h in
    let session : not (bytes_eq d'.session_id r'.session_id) ≡ false =
      subst (λ t. not (bytes_eq d'.session_id t) ≡ false) (sym s) q.0 in
    let direction : not (direction_eq d'.direction_id r'.direction) ≡ false =
      subst (λ t. not (direction_eq d'.direction_id t) ≡ false) (sym k) q.1 in
    let seen : classify r'.replay d'.message_counter ≡ duplicate =
      subst (λ (t : DataPayload). classify r'.replay t.message_counter ≡ duplicate) (sym q.2) c in
    rw (session, direction, seen) refl

module _ (c : Cbor) (p : Primitives) where
  commit_payload-Taken :
      (r : DataReceiver) (counter : ℕ) (content : Bytes)
      → Taken r counter (commit_payload c p r counter content)
  unfolding commit_payload
  commit_payload-Taken r counter content =
      elim (Result-cases (commit_message_key r.chain counter).1) [
        | inr (er, e) ↦ rw (e, commit_payload) tt
        | inl (u, e) ↦ elim (Result-cases (accept r.replay counter)) [
          | inr (er, a) ↦ rw (e, a, commit_payload) tt
          | inl (w, a) ↦ rw (e, a, commit_payload) (refl, refl, a)
        ]
      ]

  decrypt_admitted-Taken :
      (r : DataReceiver) (d : DataPayload) → Taken r d.message_counter (decrypt_admitted c p r d)
  unfolding decrypt_admitted
  decrypt_admitted-Taken r d =
      elim (Result-cases (prepare_message_key p r.chain d.message_counter).1) [
        | inr (er, e) ↦ rw (e, decrypt_admitted) tt
        | inl (key, e) ↦ elim (Result-cases (open_payload c p (prepared r d) d key)) [
          | inr (er, o) ↦ rw (e, o, decrypt_admitted) tt
          | inl (plain, o) ↦
              rw (e, o, decrypt_admitted)
                (commit_payload-Taken (prepared r d) d.message_counter plain.content)
        ]
      ]
    where
      prepared : DataReceiver → DataPayload → DataReceiver
      prepared r d = record r { chain = (prepare_message_key p r.chain d.message_counter).0 }

  decrypt_err :
      (r : DataReceiver) (f : Frame) (e : Error)
      → admit c p r f ≡ err e
      → decrypt c p r f ≡ (r, err e)
  unfolding decrypt
  decrypt_err r f e h = rw (h, decrypt) refl

  decrypt_ok :
      (r : DataReceiver) (f : Frame) (d : DataPayload)
      → admit c p r f ≡ ok d
      → decrypt c p r f ≡ decrypt_admitted c p r d
  unfolding decrypt
  decrypt_ok r f d h = rw (h, decrypt) refl

  error_is_not_ok :
      (r r' : DataReceiver) (e : Error) (b : Bytes)
      → ◌≡◌ {A = DataReceiver × Result Bytes} (r, err e) (r', ok b)
      → ⊥
  error_is_not_ok r r' e b h = ground arith

  -- Once a frame was decrypted, the same frame is rejected as a replay, and the receiver stays as
  -- it was.
  pub decrypt-replay_rejected :
      (r r' : DataReceiver) (f : Frame) (content : Bytes)
      → decrypt c p r f ≡ (r', ok content)
      → decrypt c p r' f ≡ (r', err replay_rejected)
  unfolding admit
  decrypt-replay_rejected r r' f content h = elim (Result-cases (admit c p r f)) [
    | inr (er, e) ↦ absurd (error_is_not_ok r r' er content (sym (decrypt_err r f er e) ∙ h))
    | inl (d, e) ↦
        let took : Took r d.message_counter r' =
          subst (Taken r d.message_counter) (sym (decrypt_ok r f d e) ∙ h)
            (decrypt_admitted-Taken r d) in
        let seen = accept-duplicate r.replay r'.replay d.message_counter took.2 in
        decrypt_err r' f replay_rejected (
          admit_again (not (message_type_eq f.message_type data_message))
            (decode_payload c f.payload) r r' d e took.0 took.1 seen)
  ]
