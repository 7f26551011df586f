-- ===== src/Machine/Runs.antt =====
-- The start of a handshake run, of crates/ruxmsg-core/src/machine.rs.
use ruxmsg.Prelude.{
  ◌+◌, Option, some, none, Bool, true, ◌==◌, if◌then◌else◌, is_some, not, ◌||◌, Result, ok, err,
  ◌>>=◌, invalid_handshake,
}
use ruxmsg.Protocol.{
  Bytes, SessionId, HandshakePurpose, initial, rekey, purpose_eq, handshake_frame_timeout_secs,
  handshake_total_timeout_secs,
}
use ruxmsg.Crypto.{EphemeralKeypair, ephemeral_from_bytes, identity, commit_hash}
use ruxmsg.Wire.{Frame}
use ruxmsg.Handshake.Hello.{HelloRole, initiator, responder, role_eq, HelloPayload}
use ruxmsg.Handshake.Hello
use ruxmsg.Handshake.Commit.{CommitPayload}
use ruxmsg.Handshake.Commit
use ruxmsg.Machine.Types.{
  Env, handshake_frame, handshake_total, rekey_started, send, notify, idle, handshaking, Phase,
  hello, reveal, Run, Engine, Ctx, emit,
}
use ruxmsg.Machine.Deadlines.{arm, rearm_frame_deadline, fail_initial}

-- The frames of an initiator run: the HELLO to reveal later and the COMMIT to it.
pub record Opening : Type 0 where
  pub hello_frame : Frame
  pub commit_frame : Frame

module _ (env : Env) where
  -- The key pair and the nonce of `fresh_keys` at an engine; two draws are made.
  unfoldable pub fresh_ephemeral : Engine → EphemeralKeypair
  fresh_ephemeral e = ephemeral_from_bytes env.primitives (env.entropy e.entropy_draws 32)

  unfoldable pub fresh_nonce : Engine → Bytes
  fresh_nonce e = env.entropy (e.entropy_draws + 1) 16

  unfoldable pub drawn : Ctx → Ctx
  drawn x = record x { engine = record (x.engine) { entropy_draws = x.engine.entropy_draws + 2 } }

  unfoldable pub initiator_hello : HandshakePurpose → Option SessionId → Engine → HelloPayload
  initiator_hello purpose previous e = record {
    cipher_suite = 1;
    purpose = purpose;
    role = initiator;
    identity_public_key = identity env.primitives e.identity;
    ephemeral_public_key = (fresh_ephemeral e).public;
    nonce = fresh_nonce e;
    previous_session_id = previous;
  }

  unfoldable pub opening : HelloPayload → Result Opening
  opening h = do
    hello_frame ← Hello.encode env.cbor h
    commit_frame ← Commit.encode env.cbor (record {
      cipher_suite = 1;
      purpose = h.purpose;
      commitment = commit_hash env.primitives hello_frame.payload;
      previous_session_id = h.previous_session_id;
    })
    ok (record { hello_frame = hello_frame; commit_frame = commit_frame })

  unfoldable pub initiator_run : HelloPayload → EphemeralKeypair → Frame → Run
  initiator_run h ephemeral frame = record {
    purpose = h.purpose;
    role = initiator;
    previous = h.previous_session_id;
    ephemeral = ephemeral;
    local_hello = h;
    local_hello_frame = some frame;
    commit = none;
    step = hello;
    remote_identity = none;
    shared = none;
    transcript = none;
    hash = none;
    keys = none;
    early = none;
  }

  unfoldable pub start_initiator_run :
      HandshakePurpose → Option SessionId → Ctx → Ctx × Result (Unit {0})
  start_initiator_run purpose previous x =
      let h = initiator_hello purpose previous x.engine in
      elim (opening h) [
        | err e ↦ (drawn x, err e)
        | ok o ↦
            let sent = emit (drawn x) (send o.commit_frame) in
            (
              record sent {
                engine = record (sent.engine) {
                  run = some (initiator_run h (fresh_ephemeral x.engine) o.hello_frame);
                };
              },
              ok tt,
            )
      ]

  unfoldable pub responder_hello : CommitPayload → Engine → HelloPayload
  responder_hello commit e = record {
    cipher_suite = commit.cipher_suite;
    purpose = commit.purpose;
    role = responder;
    identity_public_key = identity env.primitives e.identity;
    ephemeral_public_key = (fresh_ephemeral e).public;
    nonce = fresh_nonce e;
    previous_session_id = commit.previous_session_id;
  }

  unfoldable pub responder_run : CommitPayload → HelloPayload → EphemeralKeypair → Run
  responder_run commit h ephemeral = record {
    purpose = commit.purpose;
    role = responder;
    previous = commit.previous_session_id;
    ephemeral = ephemeral;
    local_hello = h;
    local_hello_frame = none;
    commit = some commit;
    step = reveal;
    remote_identity = none;
    shared = none;
    transcript = none;
    hash = none;
    keys = none;
    early = none;
  }

  -- The deadlines and the event after the responder's HELLO.
  unfoldable pub announce_run : HandshakePurpose → Bool → Ctx → Ctx
  announce_run initial emit_rekey_started x = rearm_frame_deadline initial reveal x
  announce_run rekey emit_rekey_started x =
      let armed = arm handshake_total handshake_total_timeout_secs x in
      rearm_frame_deadline rekey reveal
        (if emit_rekey_started then emit armed (notify rekey_started) else armed)

  unfoldable pub start_responder_run : CommitPayload → Bool → Ctx → Ctx × Result (Unit {0})
  start_responder_run commit emit_rekey_started x =
      let h = responder_hello commit x.engine in
      elim (Hello.encode env.cbor h) [
        | err e ↦ (drawn x, err e)
        | ok frame ↦
            let sent = emit (drawn x) (send frame) in
            let running = record sent {
              engine = record (sent.engine) {
                run = some (responder_run commit h (fresh_ephemeral x.engine));
              };
            } in
            (announce_run commit.purpose emit_rekey_started running, ok tt)
      ]

  -- The outcome of the start of the initiator's run.
  unfoldable pub initial_begun : Ctx × Result (Unit {0}) → Ctx
  initial_begun (x, err e) = fail_initial env e x
  initial_begun (x, ok _) = rearm_frame_deadline initial hello x

  unfoldable pub start_as : HelloRole → Ctx → Ctx
  start_as initiator x = initial_begun (start_initiator_run initial none x)
  start_as responder x = arm handshake_frame handshake_frame_timeout_secs x

  unfoldable pub start_idle : Ctx → Ctx
  start_idle x =
      let begun = record x { engine = record (x.engine) { phase = handshaking } } in
      start_as x.engine.role (arm handshake_total handshake_total_timeout_secs begun)

  unfoldable pub start_in : Phase → Ctx → Ctx
  start_in idle x = start_idle x
  start_in _ x = x

  unfoldable pub start : Ctx → Ctx
  start x = start_in x.engine.phase x

  unfoldable pub accept_first_commit : Frame → Ctx → Ctx × Result (Unit {0})
  accept_first_commit frame x = elim (Commit.decode env.cbor frame) [
    | err e ↦ (x, err e)
    | ok commit ↦
        if not (commit.cipher_suite == 1)
          || (not (purpose_eq commit.purpose initial) || is_some commit.previous_session_id)
        then (x, err invalid_handshake)
        else start_responder_run commit true x
  ]
