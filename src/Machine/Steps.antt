-- ===== src/Machine/Steps.antt =====
-- The steps of a handshake run and its completion, of crates/ruxmsg-core/src/machine.rs. A step
-- returns the context and the run as they are when it returns, beside its result.
--
-- `after_approval` calls `step_run` for an early AUTH just after it set the step to `AuthInit`;
-- the model calls that arm, `step_auth_init`, which stands first.
use ruxmsg.Prelude.{
  ℕ, Option, some, none, true, false, ◌==◌, if◌then◌else◌, is_some, not, ◌||◌, ◌&&◌, bytes_eq,
  option_eq, Result, ok, err, ◌>>=◌, ◌>>◌, invalid_handshake, invalid_state_transition,
  identity_mismatch, reject_if, ok_or,
}
use ruxmsg.Protocol.{
  Bytes, PeerIdentity, HandshakePurpose, initial, rekey, purpose_eq, handshake_message,
  message_type_eq, sas_decision_timeout_secs, rekey_interval_secs,
}
use ruxmsg.Crypto.{
  SessionKeys, commit_hash, shared_secret, transcript_hash, sas_words, sign_transcript,
  confirmation_mac,
}
use ruxmsg.Encoding.{Transcript, encode_transcript}
use ruxmsg.Wire.{Frame}
use ruxmsg.Handshake.Hello.{
  HelloRole, initiator, responder, role_eq, HelloPayload, transcript_from_hellos,
}
use ruxmsg.Handshake.Hello
use ruxmsg.Handshake.Auth.{HandshakePayload, verify_handshake_for_role}
use ruxmsg.Handshake.Auth
use ruxmsg.Handshake.Confirm.{SessionConfirmPayload, verify_from}
use ruxmsg.Handshake.Confirm
use ruxmsg.Machine.Types.{
  Env, handshake_frame, sas_wait, handshake_total, rekey_due, session_established, send,
  request_sas, notify, established, Step, hello, reveal, sas, auth_resp, auth_init, confirm_resp,
  confirm_init, Run, Candidate, Engine, peer_identity, new_session, Ctx, emit,
}
use ruxmsg.Machine.Deadlines.{arm, cancel, rearm_frame_deadline}

abbrev pub Stepped : Type 0
Stepped = Ctx × Run × Result (Option Candidate)

-- The AUTH fields that come from the transcript.
unfoldable pub auth_of : Transcript → ℕ → Bytes → Option Bytes → HandshakePayload
auth_of t stage initiator_signature responder_signature = record {
  purpose = t.purpose;
  stage = stage;
  cipher_suite = t.cipher_suite;
  initiator_identity = t.initiator_identity;
  responder_identity = t.responder_identity;
  initiator_ephemeral = t.initiator_ephemeral;
  responder_ephemeral = t.responder_ephemeral;
  initiator_nonce = t.initiator_nonce;
  responder_nonce = t.responder_nonce;
  previous_session_id = t.previous_session_id;
  initiator_signature = initiator_signature;
  responder_signature = responder_signature;
}

-- The rekey half of `check_remote_hello`.
unfoldable pub check_rekey_identity : Engine → HandshakePurpose → PeerIdentity → Result (Unit {0})
check_rekey_identity e initial remote = ok tt
check_rekey_identity e rekey remote = do
  peer ← ok_or (peer_identity e) invalid_state_transition
  reject_if (not (bytes_eq remote peer)) identity_mismatch

unfoldable pub check_remote_hello : Engine → Run → HelloPayload → HelloRole → Result (Unit {0})
check_remote_hello e run remote expected_role = do
  reject_if
      (not (role_eq remote.role expected_role)
        || (not (remote.cipher_suite == run.local_hello.cipher_suite)
            || (not (purpose_eq remote.purpose run.purpose)
                || (not (option_eq remote.previous_session_id run.previous)
                    || (bytes_eq remote.identity_public_key run.local_hello.identity_public_key
                        || bytes_eq remote.ephemeral_public_key
                            run.local_hello.ephemeral_public_key)))))
      invalid_handshake
  check_rekey_identity e run.purpose remote.identity_public_key

unfoldable pub candidate_of : Run → SessionKeys → Result Candidate
candidate_of run keys = do
  peer ← ok_or run.remote_identity invalid_state_transition
  ok (record { keys = keys; peer = peer; role = run.role })

-- What a checked AUTH gives, with the frame that answers it.
pub record Answer : Type 0 where
  pub keys : SessionKeys
  pub frame : Frame

-- What both HELLOs give.
pub record Agreement : Type 0 where
  pub transcript : Transcript
  pub hash : Bytes
  pub shared : Bytes

module _ (env : Env) where
  unfoldable pub verify_auth : Run → HandshakePayload → Result (SessionKeys × Bytes)
  verify_auth run auth = do
    transcript ← ok_or run.transcript invalid_state_transition
    shared ← ok_or run.shared invalid_state_transition
    verify_handshake_for_role env.cbor env.primitives auth transcript shared true

  -- The arm of `AuthInit`, up to its first effect.
  unfoldable pub answer_auth_init : Engine → Run → Frame → Result Answer
  answer_auth_init e run frame = do
    auth ← Auth.decode env.cbor frame
    reject_if (not (auth.stage == 0) || is_some auth.responder_signature) invalid_handshake
    (keys, hash) ← verify_auth run auth
    transcript ← ok_or run.transcript invalid_state_transition
    frame ← Auth.encode env.cbor (
        auth_of transcript 1 auth.initiator_signature
          (some (sign_transcript env.primitives e.identity hash false)))
    ok (record { keys = keys; frame = frame })

  -- The rest of the arms of `AuthInit` and `AuthResp`: send, keep the keys, await confirmation.
  unfoldable pub answered : Step → Answer → Run → Ctx → Stepped
  answered next a run x =
      let run' = record run { keys = some a.keys; step = next } in
      (rearm_frame_deadline run.purpose next (emit x (send a.frame)), run', ok none)

  unfoldable pub step_auth_init : Run → Frame → Ctx → Stepped
  step_auth_init run frame x = elim (answer_auth_init x.engine run frame) [
    | err e ↦ (x, run, err e)
    | ok a ↦ answered confirm_init a run x
  ]

  unfoldable pub answer_auth_resp : Run → Frame → Result Answer
  answer_auth_resp run frame = do
    auth ← Auth.decode env.cbor frame
    reject_if (not (auth.stage == 1) || not (is_some auth.responder_signature)) invalid_handshake
    (keys, hash) ← verify_auth run auth
    frame ← Confirm.encode env.cbor (record {
      session_id = keys.session_id;
      role = initiator;
      confirmation = confirmation_mac env.primitives keys.confirmation_key hash true;
    })
    ok (record { keys = keys; frame = frame })

  unfoldable pub step_auth_resp : Run → Frame → Ctx → Stepped
  step_auth_resp run frame x = elim (answer_auth_resp run frame) [
    | err e ↦ (x, run, err e)
    | ok a ↦ answered confirm_resp a run x
  ]

  -- The frame of the initiator's AUTH.
  unfoldable pub initiator_auth : Engine → Run → Result Frame
  initiator_auth e run = do
    hash ← ok_or run.hash invalid_state_transition
    transcript ← ok_or run.transcript invalid_state_transition
    Auth.encode env.cbor
        (auth_of transcript 0 (sign_transcript env.primitives e.identity hash true) none)

  -- Hash and transcript must be known on either side.
  unfoldable pub check_agreed : Run → Result (Unit {0})
  check_agreed run = do
    _ ← ok_or run.hash invalid_state_transition
    _ ← ok_or run.transcript invalid_state_transition
    ok tt

  unfoldable pub approve_initiator : Run → Ctx → Stepped
  approve_initiator run x = elim (initiator_auth x.engine run) [
    | err e ↦ (x, run, err e)
    | ok frame ↦ (
      rearm_frame_deadline run.purpose auth_resp (emit x (send frame)),
      record run { step = auth_resp },
      ok none,
    )
  ]

  unfoldable pub approve_responder : Run → Ctx → Stepped
  approve_responder run x = elim (check_agreed run) [
    | err e ↦ (x, run, err e)
    | ok _ ↦ elim run.early [
      | some early ↦ step_auth_init (record run { step = auth_init; early = none }) early x
      | none ↦
          (rearm_frame_deadline run.purpose auth_init x, record run { step = auth_init }, ok none)
    ]
  ]

  unfoldable pub approve_as : HelloRole → Run → Ctx → Stepped
  approve_as initiator run x = approve_initiator run x
  approve_as responder run x = approve_responder run x

  unfoldable pub after_approval : Run → Ctx → Stepped
  after_approval run x = approve_as run.role run x

  unfoldable pub hellos_in_order : HelloRole → HelloPayload → HelloPayload → Result Transcript
  hellos_in_order initiator ours theirs = transcript_from_hellos ours theirs
  hellos_in_order responder ours theirs = transcript_from_hellos theirs ours

  unfoldable pub agree : Run → HelloPayload → Result Agreement
  agree run remote = do
    transcript ← hellos_in_order run.role run.local_hello remote
    encoded ← encode_transcript env.cbor transcript
    shared ← shared_secret env.primitives run.ephemeral remote.ephemeral_public_key
    ok (record {
      transcript = transcript;
      hash = transcript_hash env.primitives encoded;
      shared = shared;
    })

  unfoldable pub agreed : Run → HelloPayload → Agreement → Run
  agreed run remote a = record run {
    shared = some a.shared;
    transcript = some a.transcript;
    hash = some a.hash;
    remote_identity = some remote.identity_public_key;
  }

  -- The SAS question of an initial handshake.
  unfoldable pub ask_sas : Bytes → PeerIdentity → Ctx → Ctx
  ask_sas hash peer x =
      emit (arm sas_wait sas_decision_timeout_secs (cancel handshake_frame x))
        (request_sas (sas_words env.primitives hash) peer)

  unfoldable pub continue_as : HandshakePurpose → Run → Bytes → PeerIdentity → Ctx → Stepped
  continue_as initial run hash peer x = (ask_sas hash peer x, record run { step = sas }, ok none)
  continue_as rekey run hash peer x = after_approval run x

  unfoldable pub after_hellos : Run → HelloPayload → Ctx → Stepped
  after_hellos run remote x = elim (agree run remote) [
    | err e ↦ (x, run, err e)
    | ok a ↦ continue_as run.purpose (agreed run remote a) a.hash remote.identity_public_key x
  ]

  -- The arm of `Hello`, up to its first effect: the remote HELLO and the frame to reveal.
  unfoldable pub accept_responder_hello : Engine → Run → Frame → Result (HelloPayload × Frame)
  accept_responder_hello e run frame = do
    remote ← Hello.decode env.cbor frame
    check_remote_hello e run remote responder
    revealed ← ok_or run.local_hello_frame invalid_state_transition
    ok (remote, revealed)

  unfoldable pub step_hello : Run → Frame → Ctx → Stepped
  step_hello run frame x = elim (accept_responder_hello x.engine run frame) [
    | err e ↦ (x, run, err e)
    | ok (remote, revealed) ↦
        after_hellos (record run { local_hello_frame = none }) remote (emit x (send revealed))
  ]

  -- The checks of the arm of `Reveal`, the commitment's among them.
  unfoldable pub accept_reveal : Engine → Run → Frame → Result HelloPayload
  accept_reveal e run frame = do
    remote ← Hello.decode env.cbor frame
    check_remote_hello e run remote initiator
    commit ← ok_or run.commit invalid_state_transition
    reject_if (not (bytes_eq (commit_hash env.primitives frame.payload) commit.commitment))
        invalid_handshake
    ok remote

  unfoldable pub step_reveal : Run → Frame → Ctx → Stepped
  step_reveal run frame x = elim (accept_reveal x.engine run frame) [
    | err e ↦ (x, run, err e)
    | ok remote ↦ after_hellos run remote x
  ]

  unfoldable pub step_sas : Run → Frame → Ctx → Stepped
  step_sas run frame x =
      if role_eq run.role responder
        && (not (is_some run.early) && message_type_eq frame.message_type handshake_message)
      then (x, record run { early = some frame }, ok none)
      else (x, run, err invalid_state_transition)

  -- A confirmation that must come from `expected`: the keys and the hash that it confirms.
  unfoldable pub accept_confirm : Run → Frame → HelloRole → Result (SessionKeys × Bytes)
  accept_confirm run frame expected = do
    confirm ← Confirm.decode env.cbor frame
    keys ← ok_or run.keys invalid_state_transition
    hash ← ok_or run.hash invalid_state_transition
    verify_from env.primitives confirm keys hash expected
    ok (keys, hash)

  unfoldable pub confirm_by_responder : Run → Frame → Result Candidate
  confirm_by_responder run frame = do
    (keys, hash) ← accept_confirm run frame responder
    candidate_of run keys

  unfoldable pub step_confirm_resp : Run → Frame → Ctx → Stepped
  step_confirm_resp run frame x = elim (confirm_by_responder run frame) [
    | err e ↦ (x, record run { keys = none }, err e)
    | ok c ↦ (x, record run { keys = none }, ok (some c))
  ]

  -- The checked confirmation of the initiator with the reply to it.
  unfoldable pub answer_confirm_init : Run → Frame → Result Answer
  answer_confirm_init run frame = do
    (keys, hash) ← accept_confirm run frame initiator
    reply ← Confirm.encode env.cbor (record {
      session_id = keys.session_id;
      role = responder;
      confirmation = confirmation_mac env.primitives keys.confirmation_key hash false;
    })
    ok (record { keys = keys; frame = reply })

  unfoldable pub step_confirm_init : Run → Frame → Ctx → Stepped
  step_confirm_init run frame x = elim (answer_confirm_init run frame) [
    | err e ↦ (x, record run { keys = none }, err e)
    | ok a ↦ elim (candidate_of run a.keys) [
      | err e ↦ (emit x (send a.frame), record run { keys = none }, err e)
      | ok c ↦ (emit x (send a.frame), record run { keys = none }, ok (some c))
    ]
  ]

  unfoldable pub step_at : Step → Run → Frame → Ctx → Stepped
  step_at hello run frame x = step_hello run frame x
  step_at reveal run frame x = step_reveal run frame x
  step_at sas run frame x = step_sas run frame x
  step_at auth_resp run frame x = step_auth_resp run frame x
  step_at auth_init run frame x = step_auth_init run frame x
  step_at confirm_resp run frame x = step_confirm_resp run frame x
  step_at confirm_init run frame x = step_confirm_init run frame x

  unfoldable pub step_run : Run → Frame → Ctx → Stepped
  step_run run frame x = step_at run.step run frame x

  -- The run goes back into the engine only if the step wants more frames.
  unfoldable pub settle : Stepped → Ctx × Result (Option Candidate)
  settle (x, run, ok (some c)) = (x, ok (some c))
  settle (x, run, ok none) = (record x { engine = record (x.engine) { run = some run } }, ok none)
  settle (x, run, err e) = (x, err e)

  -- `self.run.take()`
  unfoldable pub without_run : Ctx → Ctx
  without_run x = record x { engine = record (x.engine) { run = none } }

  unfoldable pub drive_run : Frame → Ctx → Ctx × Result (Option Candidate)
  drive_run frame x = elim x.engine.run [
    | none ↦ (x, err invalid_state_transition)
    | some run ↦ settle (step_run run frame (without_run x))
  ]

unfoldable pub complete_initial : Candidate → Ctx → Ctx
complete_initial c x =
    let quiet = cancel handshake_total (cancel sas_wait (cancel handshake_frame x)) in
    let begun = record quiet {
      engine = record (quiet.engine) {
        active = some (new_session c.keys c.role c.peer);
        phase = established;
        messages = 0;
        late_rekey_frames = 0;
        consecutive_rekey_rejections = 0;
      };
    } in
    emit (arm rekey_due rekey_interval_secs begun) (notify (session_established c.peer))
