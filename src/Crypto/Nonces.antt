-- ===== src/Crypto/Nonces.antt =====
-- The nonces of a session.
use ruxmsg.Prelude.{
  ℕ, ◌^◌, ◌<◌, ◌≡◌, refl, sym, ap, ◌∙◌, arith, take, drop, be_fold, be_fold-be_bytes8,
}
use ruxmsg.Protocol.{Bytes, DirectionId, initiator_to_responder, responder_to_initiator}
use ruxmsg.Crypto.{message_nonce}

same_direction : (d d' : DirectionId) (n n' : ℕ) → message_nonce d n ≡ message_nonce d' n' → d ≡ d'
unfolding message_nonce
same_direction initiator_to_responder initiator_to_responder n n' h = refl
same_direction responder_to_initiator responder_to_initiator n n' h = refl
same_direction initiator_to_responder responder_to_initiator n n' h =
    let e : ◌≡◌ {A = ℕ} 1 2 = ap (λ (b : Bytes). be_fold 0 (take 4 b)) h in absurd (omega arith)
same_direction responder_to_initiator initiator_to_responder n n' h =
    let e : ◌≡◌ {A = ℕ} 2 1 = ap (λ (b : Bytes). be_fold 0 (take 4 b)) h in absurd (omega arith)

-- Two nonces of 64-bit counters are equal only for one direction and one counter.
pub message_nonce-injective :
    (d d' : DirectionId) (n n' : ℕ)
    → n < 2 ^ 64
    → n' < 2 ^ 64
    → message_nonce d n ≡ message_nonce d' n'
    → (d ≡ d') × (n ≡ n')
unfolding message_nonce
message_nonce-injective d d' n n' b b' h = (
  same_direction d d' n n' h,
  sym (be_fold-be_bytes8 n b)
      ∙ (ap (λ (t : Bytes). be_fold 0 (drop 4 t)) h ∙ be_fold-be_bytes8 n' b'),
)
