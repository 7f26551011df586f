-- ===== src/Tests/Toy.antt =====
-- Small stand-ins for the codec, the primitives and the entropy source, and an engine of each
-- kind. The codec writes the deterministic encoding, and reads nothing but the map {0: 1}.
use ruxmsg.Prelude.{[], ◌∷◌, some, none, true, false, inl, inr, if◌then◌else◌, bytes_eq}
use ruxmsg.Protocol.{initial, handshake_message, initiator_to_responder, responder_to_initiator, v1}
use ruxmsg.Cbor.{Cbor, Value, entries, entry, integer, no_entries}
use ruxmsg.Cbor.Reference.{encode}
use ruxmsg.Crypto.{Primitives, IdentityKeypair, zeros}
use ruxmsg.Wire.{Frame}
use ruxmsg.Handshake.Hello.{initiator, responder}
use ruxmsg.Machine.Types.{Env, Engine, Session, Run, sas, established}

abbrev pub small_map : Value
small_map = entries (entry (integer 0) (integer 1) no_entries)

abbrev pub toy_cbor : Cbor
toy_cbor = record {
  into_writer = λ v. inr (encode v);
  from_reader = λ b. if bytes_eq b (161 ∷ 0 ∷ 1 ∷ []) then inr (small_map, 3) else inl "unknown";
}

-- Hashes that count, signatures that are always right, no secret that is not contributory.
abbrev pub toy_primitives : Primitives
toy_primitives = record {
  sha256 = λ b. 1 ∷ b;
  hkdf_okm = λ salt key info n. 2 ∷ key;
  hmac_sha256 = λ key message. 3 ∷ key;
  aead_encrypt = λ key nonce aad plain. some plain;
  aead_decrypt = λ key nonce aad cipher. some cipher;
  ed25519_public = λ secret. secret;
  ed25519_sign = λ secret message. zeros 64;
  ed25519_valid_key = λ key. true;
  ed25519_verify_strict = λ key message signature. true;
  x25519_public = λ secret. secret;
  x25519 = λ secret public. secret;
  was_contributory = λ secret. true;
  word_list = λ n. "word";
}

abbrev pub toy_env : Env
toy_env = record { cbor = toy_cbor; primitives = toy_primitives; entropy = λ draw n. zeros n }

abbrev pub toy_identity : IdentityKeypair
toy_identity = record { secret = 7 ∷ [] }

abbrev pub toy_frame : Frame
toy_frame = record { version = v1; message_type = handshake_message; payload = 161 ∷ 0 ∷ 1 ∷ [] }

abbrev pub toy_session : Session
toy_session = record {
  id = 5 ∷ [];
  peer = 8 ∷ [];
  sender = record {
    session_id = 5 ∷ [];
    direction = initiator_to_responder;
    chain_key = 9 ∷ [];
    counter = 0;
  };
  receiver = record {
    session_id = 5 ∷ [];
    chain = record {
      chain_key = 10 ∷ [];
      next_counter = 0;
      skipped = [];
      direction = responder_to_initiator;
    };
    replay = record { highest = none; bits = 0 };
    direction = responder_to_initiator;
  };
}

abbrev pub established_engine : Engine
established_engine = record {
  role = initiator;
  identity = toy_identity;
  entropy_draws = 2;
  phase = established;
  run = none;
  active = some toy_session;
  draining = none;
  deadlines = [];
  next_deadline = 0;
  messages = 0;
  rekey_message_limit = 100;
  rekey_blocked = false;
  late_rekey_frames = 0;
  consecutive_rekey_rejections = 0;
}

abbrev pub waiting_run : Run
waiting_run = record {
  purpose = initial;
  role = responder;
  previous = none;
  ephemeral = record { secret = 1 ∷ []; public = 2 ∷ [] };
  local_hello = record {
    cipher_suite = 1;
    purpose = initial;
    role = responder;
    identity_public_key = 7 ∷ [];
    ephemeral_public_key = 2 ∷ [];
    nonce = zeros 16;
    previous_session_id = none;
  };
  local_hello_frame = none;
  commit = none;
  step = sas;
  remote_identity = some (8 ∷ []);
  shared = none;
  transcript = none;
  hash = none;
  keys = none;
  early = none;
}
