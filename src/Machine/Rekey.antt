-- ===== src/Machine/Rekey.antt =====
-- Rekeying, of crates/ruxmsg-core/src/machine.rs.
use ruxmsg.Prelude.{
  ◌-◌, Option, some, none, Bool, true, false, ltb, ◌==◌, if◌then◌else◌, is_some, not, ◌||◌, ◌&&◌,
  bytes_eq, option_eq, Result, ok, err, identity_mismatch,
}
use ruxmsg.Protocol.{
  SessionId, PeerIdentity, rekey, purpose_eq, rekey_message, session_confirm_message,
  message_type_eq, handshake_total_timeout_secs, rekey_drain_timeout_secs, rekey_interval_secs,
}
use ruxmsg.Crypto.{identity}
use ruxmsg.Wire.{Frame}
use ruxmsg.Close.{protocol_error}
use ruxmsg.Handshake.Hello.{initiator, role_eq}
use ruxmsg.Handshake.Commit.{CommitPayload}
use ruxmsg.Handshake.Commit
use ruxmsg.Handshake.Auth.{local_identity_wins_rekey_glare}
use ruxmsg.Machine.Types.{
  Env, handshake_frame, handshake_total, rekey_due, drain, protocol_error_cause, rekey_started,
  rekey_completed, notify, Phase, established, Step, hello, Session, new_session, Run, Candidate,
  Engine, active_session_id, peer_identity, Ctx, emit,
}
use ruxmsg.Machine.Deadlines.{
  arm, cancel, rearm_frame_deadline, fail_rekey, note_rekey_rejection, terminate,
}
use ruxmsg.Machine.Runs.{start_initiator_run, start_responder_run}
use ruxmsg.Machine.Steps.{drive_run}

-- The candidate must be the active peer under a new session ID.
unfoldable pub replaces : Option Session → Candidate → Bool
replaces none c = false
replaces (some s) c = bytes_eq s.peer c.peer && not (bytes_eq s.id c.keys.session_id)

unfoldable pub install_rekey : Candidate → Ctx → Ctx
install_rekey c x =
    let quiet = cancel handshake_total (cancel handshake_frame x) in
    let swapped = record quiet {
      engine = record (quiet.engine) {
        draining = quiet.engine.active;
        active = some (new_session c.keys c.role c.peer);
      };
    } in
    let armed = arm rekey_due rekey_interval_secs (arm drain rekey_drain_timeout_secs swapped) in
    emit
      (record armed {
        engine = record (armed.engine) {
          messages = 0;
          rekey_blocked = false;
          late_rekey_frames = 0;
          consecutive_rekey_rejections = 0;
        };
      })
      (notify rekey_completed)

unfoldable pub complete_rekey : Candidate → Ctx → Ctx
complete_rekey c x =
    if replaces x.engine.active c then install_rekey c x else fail_rekey identity_mismatch x

abbrev step_is_hello : Step → Bool
step_is_hello hello = true
step_is_hello _ = false

abbrev pub run_previous : Option Run → Option SessionId
run_previous none = none
run_previous (some run) = run.previous

module _ (env : Env) where
  -- The outcome of the start of a run of ours.
  unfoldable pub rekey_begun : Ctx × Result (Unit {0}) → Ctx
  rekey_begun (x, err e) = fail_rekey e x
  rekey_begun (x, ok _) =
      emit (rearm_frame_deadline rekey hello (arm handshake_total handshake_total_timeout_secs x))
        (notify rekey_started)

  unfoldable pub begin_rekey_from : SessionId → Ctx → Ctx
  begin_rekey_from previous x = rekey_begun (start_initiator_run env rekey (some previous) x)

  -- Only an established engine with no run and an active session begins.
  unfoldable pub begin_rekey_when : Phase → Option Run → Option SessionId → Ctx → Ctx
  begin_rekey_when established none (some previous) x = begin_rekey_from previous x
  begin_rekey_when _ _ _ x = x

  unfoldable pub begin_rekey : Ctx → Ctx
  begin_rekey x = begin_rekey_when x.engine.phase x.engine.run (active_session_id x.engine) x

  -- A COMMIT for a rekey of the active session.
  unfoldable pub references_active : CommitPayload → Engine → Bool
  references_active commit e =
      is_some commit.previous_session_id
      && option_eq commit.previous_session_id (active_session_id e)

  -- The outcome of the answer to a COMMIT.
  unfoldable pub rekey_answered : Ctx × Result (Unit {0}) → Ctx
  rekey_answered (x, err e) = fail_rekey e x
  rekey_answered (x, ok _) = x

  unfoldable pub answer_commit : CommitPayload → Bool → Ctx → Ctx
  answer_commit commit emit_rekey_started x =
      let counted = record x { engine = record (x.engine) { consecutive_rekey_rejections = 0 } } in
      rekey_answered (start_responder_run env commit emit_rekey_started counted)

  unfoldable pub on_incoming_commit : CommitPayload → Bool → Ctx → Ctx
  on_incoming_commit commit emit_rekey_started x =
      if not (commit.cipher_suite == 1)
        || (not (purpose_eq commit.purpose rekey) || not (references_active commit x.engine))
      then note_rekey_rejection x
      else answer_commit commit emit_rekey_started x

  -- The losing side of a glare drops its run and answers.
  unfoldable pub yield_glare : CommitPayload → Ctx → Ctx
  yield_glare commit x =
      let dropped = record x { engine = record (x.engine) { run = none } } in
      on_incoming_commit commit false (cancel handshake_total (cancel handshake_frame dropped))

  unfoldable pub resolve_glare_with : PeerIdentity → CommitPayload → Ctx → Ctx
  resolve_glare_with peer commit x =
      if not (option_eq commit.previous_session_id (run_previous x.engine.run))
      then note_rekey_rejection x
      else if local_identity_wins_rekey_glare (identity env.primitives x.engine.identity) peer
      then x
      else yield_glare commit x

  unfoldable pub resolve_glare : CommitPayload → Ctx → Ctx
  resolve_glare commit x = elim (peer_identity x.engine) [
    | none ↦ x
    | some peer ↦ resolve_glare_with peer commit x
  ]

  -- With no run: a frame that is not a valid COMMIT.
  unfoldable pub stray_rekey_frame : Frame → Ctx → Ctx
  stray_rekey_frame frame x =
      if ltb 0 x.engine.late_rekey_frames
      then record x {
        engine = record (x.engine) { late_rekey_frames = x.engine.late_rekey_frames - 1 };
      }
      else if message_type_eq frame.message_type session_confirm_message
      then terminate env protocol_error_cause (some protocol_error) x
      else note_rekey_rejection x

  unfoldable pub is_rekey_commit : CommitPayload → Engine → Bool
  is_rekey_commit commit e =
      commit.cipher_suite == 1 && (purpose_eq commit.purpose rekey && references_active commit e)

  -- `CommitPayload::decode` is tried only for a REKEY frame.
  unfoldable pub decode_rekey_commit : Frame → Option CommitPayload
  decode_rekey_commit frame =
      if message_type_eq frame.message_type rekey_message
      then (elim (Commit.decode env.cbor frame) [ ok commit ↦ some commit | err e ↦ none ])
      else none

  unfoldable pub rekey_frame_idle : Frame → Ctx → Ctx
  rekey_frame_idle frame x = elim (decode_rekey_commit frame) [
    | none ↦ stray_rekey_frame frame x
    | some commit ↦
        if is_rekey_commit commit x.engine
        then on_incoming_commit commit true
            (record x { engine = record (x.engine) { late_rekey_frames = 0 } })
        else stray_rekey_frame frame x
  ]

  -- The outcome of a step of a rekey.
  unfoldable pub finish_rekey : Ctx × Result (Option Candidate) → Ctx
  finish_rekey (x, ok (some c)) = complete_rekey c x
  finish_rekey (x, ok none) = x
  finish_rekey (x, err e) = fail_rekey e x

  unfoldable pub drive_rekey : Frame → Ctx → Ctx
  drive_rekey frame x = finish_rekey (drive_run env frame x)

  -- A COMMIT may cross ours only while we await the responder's HELLO.
  unfoldable pub glare_commit : Run → Frame → Option CommitPayload
  glare_commit run frame =
      if role_eq run.role initiator && step_is_hello run.step
      then decode_rekey_commit frame
      else none

  unfoldable pub rekey_frame_running : Run → Frame → Ctx → Ctx
  rekey_frame_running run frame x = elim (glare_commit run frame) [
    | some commit ↦ resolve_glare commit x
    | none ↦ drive_rekey frame x
  ]

  unfoldable pub rekey_frame_for : Option Run → Frame → Ctx → Ctx
  rekey_frame_for none frame x = rekey_frame_idle frame x
  rekey_frame_for (some run) frame x = rekey_frame_running run frame x

  unfoldable pub on_rekey_frame : Frame → Ctx → Ctx
  on_rekey_frame frame x = rekey_frame_for x.engine.run frame x
