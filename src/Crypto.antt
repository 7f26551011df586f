-- ===== src/Crypto.antt =====
-- crates/ruxmsg-core/src/crypto.rs over the primitives it composes. SHA-256, HKDF, HMAC,
-- ChaCha20-Poly1305, Ed25519, X25519 and the BIP-39 word list are other crates' code: a
-- `Primitives` value, which every definition that uses them takes.
pub mod Sas
pub mod Nonces
use Prim.Native.String.{String}
use Prim.Native.Char.{code}
use Prim.Native.Nat.{bit_and, bit_or}
use ruxmsg.Prelude.{
  ℕ, ◌*◌, ◌/◌, ◌%◌, ◌^◌, [], ◌∷◌, ◌++◌, Option, some, none, Bool, leb, if◌then◌else◌, length,
  be_bytes4, be_bytes8, get_elem?, Result, ok, err, ◌>>=◌, ◌>>◌, ok_or, invalid_identity_key,
  signature_invalid, all_zero_shared_secret, key_derivation, confirmation_invalid, aead_failure,
  bytes_eq, reject_if, not,
}
use ruxmsg.Protocol.{Bytes, SessionId, PeerIdentity, DirectionId, direction_code}

pub record Primitives : Type 0 where
  pub sha256 : Bytes → Bytes
  pub hkdf_okm : Bytes → Bytes → Bytes → ℕ → Bytes
  pub hmac_sha256 : Bytes → Bytes → Bytes
  pub aead_encrypt : Bytes → Bytes → Bytes → Bytes → Option Bytes
  pub aead_decrypt : Bytes → Bytes → Bytes → Bytes → Option Bytes
  pub ed25519_public : Bytes → Bytes
  pub ed25519_sign : Bytes → Bytes → Bytes
  pub ed25519_valid_key : Bytes → Bool
  pub ed25519_verify_strict : Bytes → Bytes → Bytes → Bool
  pub x25519_public : Bytes → Bytes
  pub x25519 : Bytes → Bytes → Bytes
  pub was_contributory : Bytes → Bool
  pub word_list : ℕ → String

-- A byte string literal `b"…"`.
abbrev pub ascii : String → Bytes
ascii String.[] = []
ascii (String.◌∷◌ c s) = code c ∷ ascii s

abbrev pub zeros : ℕ → Bytes
zeros ℕ.zero = []
zeros (ℕ.suc n) = 0 ∷ zeros n

abbrev pub zero_salt : Bytes
zero_salt = zeros 32

-- A key pair is its seed; `identity()` recomputes the public half.
pub record IdentityKeypair : Type 0 where
  pub secret : Bytes

pub record EphemeralKeypair : Type 0 where
  pub secret : Bytes
  pub public : Bytes

pub record SessionKeys : Type 0 where
  pub root_key : Bytes
  pub initiator_to_responder : Bytes
  pub responder_to_initiator : Bytes
  pub session_id : SessionId
  pub confirmation_key : Bytes

pub record SasIndices : Type 0 where
  pub first : ℕ
  pub second : ℕ
  pub third : ℕ

-- `u32` of a length, as `as u32` truncates it, in big-endian bytes.
abbrev len32 : Bytes → Bytes
len32 b = be_bytes4 (length b % 2 ^ 32)

abbrev byte_or_zero : Bytes → ℕ → ℕ
byte_or_zero b i = elim (get_elem? b i) [ none ↦ 0 | some x ↦ x ]

-- The hash is a `[u8; 32]`, so that the five reads are in range.
unfoldable pub sas_indices : Bytes → SasIndices
sas_indices hash =
    let at = byte_or_zero hash in
    let packed =
      bit_or (at 0 * 2 ^ 25)
        (bit_or (at 1 * 2 ^ 17) (bit_or (at 2 * 2 ^ 9) (bit_or (at 3 * 2 ^ 1) (at 4 / 2 ^ 7)))) in
    record {
      first = bit_and (packed / 2 ^ 22) 0x7ff;
      second = bit_and (packed / 2 ^ 11) 0x7ff;
      third = bit_and packed 0x7ff;
    }

-- `nonce[..4]` is the direction and `nonce[4..]` the counter.
unfoldable pub message_nonce : DirectionId → ℕ → Bytes
message_nonce direction counter = be_bytes4 (direction_code direction) ++ be_bytes8 counter

abbrev signature_domain : Bool → Bytes
signature_domain initiator =
    if initiator then ascii "RUXMSG/1/initiator" else ascii "RUXMSG/1/responder"

abbrev confirm_domain : Bool → Bytes
confirm_domain initiator =
    if initiator then ascii "RUXMSG/1/confirm/I" else ascii "RUXMSG/1/confirm/R"

module _ (p : Primitives) where
  unfoldable pub identity : IdentityKeypair → PeerIdentity
  identity k = p.ed25519_public k.secret

  unfoldable pub sign_transcript : IdentityKeypair → Bytes → Bool → Bytes
  sign_transcript k hash initiator = p.ed25519_sign k.secret (signature_domain initiator ++ hash)

  unfoldable pub verify_transcript_signature :
      PeerIdentity → Bytes → Bytes → Bool → Result (Unit {0})
  verify_transcript_signature peer hash signature initiator = do
    reject_if (not (p.ed25519_valid_key peer)) invalid_identity_key
    reject_if (not (p.ed25519_verify_strict peer (signature_domain initiator ++ hash) signature))
        signature_invalid

  unfoldable pub ephemeral_from_bytes : Bytes → EphemeralKeypair
  ephemeral_from_bytes bytes = record { secret = bytes; public = p.x25519_public bytes }

  unfoldable pub shared_secret : EphemeralKeypair → Bytes → Result Bytes
  shared_secret k remote_public =
      let shared = p.x25519 k.secret remote_public in
      if not (p.was_contributory shared) then err all_zero_shared_secret else ok shared

  unfoldable pub transcript_hash : Bytes → Bytes
  transcript_hash transcript =
      p.sha256 (ascii "RUXMSG/1/TRANSCRIPT" ++ (len32 transcript ++ transcript))

  unfoldable pub commit_hash : Bytes → Bytes
  commit_hash hello = p.sha256 (ascii "RUXMSG/1/COMMIT" ++ (len32 hello ++ hello))

  unfoldable pub sas_words : Bytes → String × String × String
  sas_words hash =
      let i = sas_indices hash in (p.word_list i.first, p.word_list i.second, p.word_list i.third)

  -- HKDF-SHA256 refuses more than 255 blocks of 32 bytes (RFC 5869).
  unfoldable pub hkdf_expand : Bytes → Bytes → Bytes → ℕ → Option Bytes
  hkdf_expand salt ikm info len =
      if leb len (255 * 32) then some (p.hkdf_okm salt ikm info len) else none

  unfoldable pub derive_session_keys : Bytes → Bytes → Result SessionKeys
  derive_session_keys shared hash = do
    root ← ok_or (hkdf_expand hash shared (ascii "RUXMSG/1/root") 32) key_derivation
    i_to_r ← ok_or (hkdf_expand hash shared (ascii "RUXMSG/1/I-to-R") 32) key_derivation
    r_to_i ← ok_or (hkdf_expand hash shared (ascii "RUXMSG/1/R-to-I") 32) key_derivation
    id ← ok_or (hkdf_expand hash shared (ascii "RUXMSG/1/session-id") 16) key_derivation
    confirm ← ok_or (hkdf_expand hash shared (ascii "RUXMSG/1/session-confirm") 32) key_derivation
    ok (record {
      root_key = root;
      initiator_to_responder = i_to_r;
      responder_to_initiator = r_to_i;
      session_id = id;
      confirmation_key = confirm;
    })

  unfoldable pub confirmation_mac : Bytes → Bytes → Bool → Bytes
  confirmation_mac key hash initiator = p.hmac_sha256 key (confirm_domain initiator ++ hash)

  unfoldable pub verify_confirmation : Bytes → Bytes → Bytes → Bool → Result (Unit {0})
  verify_confirmation key hash expected initiator =
      if bytes_eq (confirmation_mac key hash initiator) expected
      then ok tt
      else err confirmation_invalid

  -- The message key and the next chain key. Both outputs are 32 bytes, which `hkdf_expand`
  -- never refuses, so neither `expect` fails.
  unfoldable pub derive_message_key : Bytes → DirectionId → Bytes × Bytes
  derive_message_key chain_key direction =
      let direction_bytes = be_bytes4 (direction_code direction) in
      (
        p.hkdf_okm zero_salt chain_key (ascii "RUXMSG/1/message-key" ++ direction_bytes) 32,
        p.hkdf_okm zero_salt chain_key (ascii "RUXMSG/1/chain-key" ++ direction_bytes) 32,
      )

  unfoldable pub encrypt_message : Bytes → Bytes → Bytes → Bytes → Result Bytes
  encrypt_message key nonce aad plaintext =
      ok_or (p.aead_encrypt key nonce aad plaintext) aead_failure

  unfoldable pub decrypt_message : Bytes → Bytes → Bytes → Bytes → Result Bytes
  decrypt_message key nonce aad ciphertext =
      ok_or (p.aead_decrypt key nonce aad ciphertext) aead_failure
