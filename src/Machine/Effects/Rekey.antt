-- ===== src/Machine/Effects/Rekey.antt =====
-- The effects of rekeying.
use ruxmsg.Prelude.{
  refl, inl, inr, Option, some, none, Bool, true, false, Result, ok, err, Bool-cases, Option-cases,
  not, ltb, option_eq, ◌||◌, ◌==◌, identity_mismatch,
}
use ruxmsg.Protocol.{
  PeerIdentity, SessionId, rekey, handshake_total_timeout_secs, rekey_drain_timeout_secs,
  rekey_interval_secs, purpose_eq, session_confirm_message, message_type_eq,
}
use ruxmsg.Wire.{Frame}
use ruxmsg.Close.{protocol_error}
use ruxmsg.Crypto.{identity}
use ruxmsg.Handshake.Auth.{local_identity_wins_rekey_glare}
use ruxmsg.Handshake.Commit.{CommitPayload}
use ruxmsg.Machine.Types.{
  Env, handshake_frame, handshake_total, rekey_due, drain, rekey_started, rekey_completed, notify,
  Phase, idle, handshaking, established, closed, hello, protocol_error_cause, Run, Candidate, Ctx,
  active_session_id, peer_identity,
}
use ruxmsg.Machine.Runs.{start_initiator_run, start_responder_run}
use ruxmsg.Machine.Steps.{drive_run}
use ruxmsg.Machine.Rekey.{
  replaces, install_rekey, complete_rekey, run_previous, rekey_begun, begin_rekey_from,
  begin_rekey_when, begin_rekey, references_active, rekey_answered, answer_commit,
  on_incoming_commit, yield_glare, resolve_glare_with, resolve_glare, stray_rekey_frame,
  is_rekey_commit, decode_rekey_commit, rekey_frame_idle, finish_rekey, drive_rekey, glare_commit,
  rekey_frame_running, rekey_frame_for, on_rekey_frame,
}
use ruxmsg.Machine.Effects.Made.{
  Made, rests, emits, cancels, arms, joins, Does, goes_on, ends, made_self,
  rearm_frame_deadline-Made, fail_rekey-Made, note_rekey_rejection-Made,
}
use ruxmsg.Machine.Effects.Steps.{
  start_initiator_run-Made, start_responder_run-Made, drive_run-Made, sets_run,
}

install_rekey-Made : (c : Candidate) (x : Ctx) → Made x (install_rekey c x)
unfolding install_rekey
install_rekey-Made c x = joins (cancels handshake_frame) (
    joins (cancels handshake_total) (
      joins (rests refl refl refl (inl refl)) (
        joins (arms drain rekey_drain_timeout_secs) (
          joins (arms rekey_due rekey_interval_secs)
            (joins (rests refl refl refl (inl refl)) (emits (notify rekey_completed) tt))))))

complete_rekey-Made : (c : Candidate) (x : Ctx) → Made x (complete_rekey c x)
unfolding complete_rekey
complete_rekey-Made c x = elim (Bool-cases (replaces x.engine.active c)) [
  | inl e ↦ rw (e, complete_rekey) (install_rekey-Made c x)
  | inr e ↦ rw (e, complete_rekey) (fail_rekey-Made identity_mismatch x)
]

module _ (env : Env) where
  rekey_begun-Made :
      (x y : Ctx) (r : Result (Unit {0})) → Made x y → Made x (rekey_begun env (y, r))
  unfolding rekey_begun
  rekey_begun-Made x y (err e) m = joins m (fail_rekey-Made e y)
  rekey_begun-Made x y (ok _) m = joins m (
      joins (arms handshake_total handshake_total_timeout_secs)
        (joins (rearm_frame_deadline-Made rekey hello _) (emits (notify rekey_started) tt)))

  begin_rekey_when-Made :
      (p : Phase) (r : Option Run) (o : Option SessionId) (x : Ctx)
      → Made x (begin_rekey_when env p r o x)
  unfolding begin_rekey_when begin_rekey_from
  begin_rekey_when-Made established none (some previous) x =
      let y = start_initiator_run env rekey (some previous) x in
      rekey_begun-Made x y.0 y.1 (start_initiator_run-Made env rekey (some previous) x)
  begin_rekey_when-Made established none none x = made_self x
  begin_rekey_when-Made established (some r) o x = made_self x
  begin_rekey_when-Made idle r o x = made_self x
  begin_rekey_when-Made handshaking r o x = made_self x
  begin_rekey_when-Made closed r o x = made_self x

  pub begin_rekey-Made : (x : Ctx) → Made x (begin_rekey env x)
  unfolding begin_rekey
  begin_rekey-Made x =
      begin_rekey_when-Made x.engine.phase x.engine.run (active_session_id x.engine) x

  rekey_answered-Made :
      (x y : Ctx) (r : Result (Unit {0})) → Made x y → Made x (rekey_answered env (y, r))
  unfolding rekey_answered
  rekey_answered-Made x y (err e) m = joins m (fail_rekey-Made e y)
  rekey_answered-Made x y (ok _) m = m

  answer_commit-Made : (c : CommitPayload) (b : Bool) (x : Ctx) → Made x (answer_commit env c b x)
  unfolding answer_commit
  answer_commit-Made c b x =
      let counted = record x { engine = record (x.engine) { consecutive_rekey_rejections = 0 } } in
      let y = start_responder_run env c b counted in
      joins (rests refl refl refl (inl refl))
        (rekey_answered-Made counted y.0 y.1 (start_responder_run-Made env c b counted))

  on_incoming_commit-Made :
      (c : CommitPayload) (b : Bool) (x : Ctx) → Made x (on_incoming_commit env c b x)
  unfolding on_incoming_commit
  on_incoming_commit-Made c b x =
      elim (Bool-cases (
        not (c.cipher_suite == 1)
        || (not (purpose_eq c.purpose rekey) || not (references_active env c x.engine)))) [
          | inl e ↦ rw (e, on_incoming_commit) (note_rekey_rejection-Made x)
          | inr e ↦ rw (e, on_incoming_commit) (answer_commit-Made c b x)
        ]

  yield_glare-Made : (c : CommitPayload) (x : Ctx) → Made x (yield_glare env c x)
  unfolding yield_glare
  yield_glare-Made c x = joins (sets_run x none) (
      joins (cancels handshake_frame)
        (joins (cancels handshake_total) (on_incoming_commit-Made c false _)))

  resolve_glare_with-Made :
      (peer : PeerIdentity) (c : CommitPayload) (x : Ctx) → Made x (resolve_glare_with env peer c x)
  unfolding resolve_glare_with
  resolve_glare_with-Made peer c x =
      elim (Bool-cases (not (option_eq c.previous_session_id (run_previous x.engine.run)))) [
        | inl e ↦ rw (e, resolve_glare_with) (note_rekey_rejection-Made x)
        | inr e ↦
            elim (Bool-cases
              (local_identity_wins_rekey_glare (identity env.primitives x.engine.identity) peer)) [
                | inl k ↦ rw (e, k, resolve_glare_with) (made_self x)
                | inr k ↦ rw (e, k, resolve_glare_with) (yield_glare-Made c x)
              ]
      ]

  resolve_glare-Made : (c : CommitPayload) (x : Ctx) → Made x (resolve_glare env c x)
  unfolding resolve_glare
  resolve_glare-Made c x = elim (Option-cases (peer_identity x.engine)) [
    | inl e ↦ rw (e, resolve_glare) (made_self x)
    | inr (peer, e) ↦ rw (e, resolve_glare) (resolve_glare_with-Made peer c x)
  ]

  stray_rekey_frame-Does : (f : Frame) (x : Ctx) → Does env x (stray_rekey_frame env f x)
  unfolding stray_rekey_frame
  stray_rekey_frame-Does f x = elim (Bool-cases (ltb 0 x.engine.late_rekey_frames)) [
    | inl e ↦ rw (e, stray_rekey_frame) (goes_on (rests refl refl refl (inl refl)))
    | inr e ↦ elim (Bool-cases (message_type_eq f.message_type session_confirm_message)) [
      | inl k ↦
          rw (e, k, stray_rekey_frame)
            (ends protocol_error_cause (some protocol_error) (made_self x))
      | inr k ↦ rw (e, k, stray_rekey_frame) (goes_on (note_rekey_rejection-Made x))
    ]
  ]

  rekey_frame_idle-Does : (f : Frame) (x : Ctx) → Does env x (rekey_frame_idle env f x)
  unfolding rekey_frame_idle
  rekey_frame_idle-Does f x = elim (Option-cases (decode_rekey_commit env f)) [
    | inl e ↦ rw (e, rekey_frame_idle) (stray_rekey_frame-Does f x)
    | inr (c, e) ↦ elim (Bool-cases (is_rekey_commit env c x.engine)) [
      | inl k ↦
          rw (e, k, rekey_frame_idle)
            (goes_on (joins (rests refl refl refl (inl refl)) (on_incoming_commit-Made c true _)))
      | inr k ↦ rw (e, k, rekey_frame_idle) (stray_rekey_frame-Does f x)
    ]
  ]

  finish_rekey-Made :
      (x y : Ctx) (r : Result (Option Candidate)) → Made x y → Made x (finish_rekey env (y, r))
  unfolding finish_rekey
  finish_rekey-Made x y (ok (some c)) m = joins m (complete_rekey-Made c y)
  finish_rekey-Made x y (ok none) m = m
  finish_rekey-Made x y (err e) m = joins m (fail_rekey-Made e y)

  rekey_frame_running-Made :
      (r : Run) (f : Frame) (x : Ctx) → Made x (rekey_frame_running env r f x)
  unfolding rekey_frame_running drive_rekey
  rekey_frame_running-Made r f x = elim (Option-cases (glare_commit env r f)) [
    | inl e ↦
        let y = drive_run env f x in
        rw (e, rekey_frame_running) (finish_rekey-Made x y.0 y.1 (drive_run-Made env f x))
    | inr (c, e) ↦ rw (e, rekey_frame_running) (resolve_glare-Made c x)
  ]

  rekey_frame_for-Does :
      (r : Option Run) (f : Frame) (x : Ctx) → Does env x (rekey_frame_for env r f x)
  unfolding rekey_frame_for
  rekey_frame_for-Does none f x = rekey_frame_idle-Does f x
  rekey_frame_for-Does (some r) f x = goes_on (rekey_frame_running-Made r f x)

  pub on_rekey_frame-Does : (f : Frame) (x : Ctx) → Does env x (on_rekey_frame env f x)
  unfolding on_rekey_frame
  on_rekey_frame-Does f x = rekey_frame_for-Does x.engine.run f x
