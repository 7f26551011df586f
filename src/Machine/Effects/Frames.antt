-- ===== src/Machine/Effects/Frames.antt =====
-- The effects of the handlers of frames and of SEND.
use ruxmsg.Prelude.{
  refl, sym, subst, inl, inr, Option, some, none, Result, ok, err, Error, data_too_large,
  Bool-cases, Result-cases, Option-cases, not, is_some, ltb, leb, length, option_eq, ◌&&◌,
}
use ruxmsg.Protocol.{
  Bytes, max_content, MessageType, handshake_message, session_confirm_message, data_message,
  rekey_message, close_message, message_type_eq,
}
use ruxmsg.Wire.{Frame}
use ruxmsg.Close.{ClosePayload, protocol_error, authentication_failure, resource_limit}
use ruxmsg.Close
use ruxmsg.Data.Channel.{decrypt}
use ruxmsg.Machine.Types.{
  Env, drain, peer_unauthenticated, protocol_error_cause, not_active, too_large, data_rejected,
  send_rejected, send, deliver, notify, Phase, idle, handshaking, established, closed, Session, Run,
  Candidate, Ctx, emit, active_session_id, draining_session_id,
}
use ruxmsg.Machine.Runs.{accept_first_commit}
use ruxmsg.Machine.Steps.{drive_run}
use ruxmsg.Machine.Handle.{
  is_malformed, count_message, protocol_failure, finish_initial, finish_commit,
  close_while_handshaking, close_while_established, close_in, on_close_frame, drive_handshaking,
  on_frame_handshaking, maybe_trigger_rekey, after_encrypt, send_on, send_when, on_send,
  reject_data, try_draining, receive_on, on_data, on_frame_established, on_frame_in, on_frame,
}
use ruxmsg.Machine.Effects.Made.{
  Made, rests, emits, cancels, joins, Does, goes_on, ends, made_self, fail_initial-Does,
}
use ruxmsg.Machine.Effects.Steps.{accept_first_commit-Made, drive_run-Made, complete_initial-Made}
use ruxmsg.Machine.Effects.Rekey.{begin_rekey-Made, on_rekey_frame-Does}

module _ (env : Env) where
  protocol_failure-Does : (x y : Ctx) → Made x y → Does env x (protocol_failure env y)
  unfolding protocol_failure
  protocol_failure-Does x y m = ends protocol_error_cause (some protocol_error) m

  pub finish_initial-Does :
      (x y : Ctx) (r : Result (Option Candidate))
      → Made x y
      → Does env x (finish_initial env (y, r))
  unfolding finish_initial
  finish_initial-Does x y (ok (some c)) m = goes_on (joins m (complete_initial-Made c y))
  finish_initial-Does x y (ok none) m = goes_on m
  finish_initial-Does x y (err e) m = fail_initial-Does env e x y m

  finish_commit-Does :
      (x y : Ctx) (r : Result (Unit {0})) → Made x y → Does env x (finish_commit env (y, r))
  unfolding finish_commit
  finish_commit-Does x y (ok _) m = goes_on m
  finish_commit-Does x y (err e) m = fail_initial-Does env e x y m

  close_while_handshaking-Does :
      (c : ClosePayload) (x : Ctx) → Does env x (close_while_handshaking env c x)
  unfolding close_while_handshaking
  close_while_handshaking-Does c x = elim (Bool-cases (is_some c.session_id)) [
    | inl e ↦ rw (e, close_while_handshaking) (goes_on (made_self x))
    | inr e ↦
        rw (e, close_while_handshaking) (ends (peer_unauthenticated c.reason) none (made_self x))
  ]

  close_while_established-Does :
      (c : ClosePayload) (x : Ctx) → Does env x (close_while_established env c x)
  unfolding close_while_established
  close_while_established-Does c x =
      elim (Bool-cases
        (is_some c.session_id && option_eq c.session_id (active_session_id x.engine))) [
          | inl e ↦
              rw (e, close_while_established)
                (ends (peer_unauthenticated c.reason) none (made_self x))
          | inr e ↦
              elim (Bool-cases
                (is_some c.session_id && option_eq c.session_id (draining_session_id x.engine))) [
                  | inl k ↦
                      rw (e, k, close_while_established)
                        (goes_on (joins (rests refl refl refl (inl refl)) (cancels drain)))
                  | inr k ↦ rw (e, k, close_while_established) (goes_on (made_self x))
                ]
        ]

  close_in-Does : (p : Phase) (c : ClosePayload) (x : Ctx) → Does env x (close_in env p c x)
  unfolding close_in
  close_in-Does idle c x = close_while_established-Does c x
  close_in-Does handshaking c x = close_while_handshaking-Does c x
  close_in-Does established c x = close_while_established-Does c x
  close_in-Does closed c x = close_while_established-Does c x

  on_close_frame-Does : (f : Frame) (x : Ctx) → Does env x (on_close_frame env f x)
  unfolding on_close_frame
  on_close_frame-Does f x = elim (Result-cases (Close.decode env.cbor f)) [
    | inr (e, p) ↦ rw (p, on_close_frame) (protocol_failure-Does x x (made_self x))
    | inl (c, p) ↦ rw (p, on_close_frame) (close_in-Does x.engine.phase c x)
  ]

  drive_handshaking-Does :
      (r : Option Run) (f : Frame) (x : Ctx) → Does env x (drive_handshaking env r f x)
  unfolding drive_handshaking
  drive_handshaking-Does none f x =
      let y = accept_first_commit env f x in
      finish_commit-Does x y.0 y.1 (accept_first_commit-Made env f x)
  drive_handshaking-Does (some r) f x =
      let y = drive_run env f x in finish_initial-Does x y.0 y.1 (drive_run-Made env f x)

  on_frame_handshaking-Does : (f : Frame) (x : Ctx) → Does env x (on_frame_handshaking env f x)
  unfolding on_frame_handshaking
  on_frame_handshaking-Does f x = elim (Bool-cases (message_type_eq f.message_type close_message)) [
    | inl e ↦ rw (e, on_frame_handshaking) (on_close_frame-Does f x)
    | inr e ↦ rw (e, on_frame_handshaking) (drive_handshaking-Does x.engine.run f x)
  ]

  maybe_trigger_rekey-Made : (x : Ctx) → Made x (maybe_trigger_rekey env x)
  unfolding maybe_trigger_rekey
  maybe_trigger_rekey-Made x =
      elim (Bool-cases (
        leb x.engine.rekey_message_limit x.engine.messages
        && (not x.engine.rekey_blocked && not (is_some x.engine.run)))) [
          | inl e ↦ rw (e, maybe_trigger_rekey) (begin_rekey-Made env x)
          | inr e ↦ rw (e, maybe_trigger_rekey) (made_self x)
        ]

  counted : (x : Ctx) → Made x (maybe_trigger_rekey env (count_message x))
  unfolding count_message
  counted x = joins (rests refl refl refl (inl refl)) (maybe_trigger_rekey-Made (count_message x))

  after_encrypt-Does :
      (x y : Ctx) (r : Result Frame) → Made x y → Does env x (after_encrypt env r y)
  unfolding after_encrypt
  after_encrypt-Does x y (ok f) m =
      goes_on (joins m (joins (emits (send f) tt) (counted (emit y (send f)))))
  after_encrypt-Does x y (err data_too_large) m =
      goes_on (joins m (emits (notify (send_rejected too_large)) tt))
  after_encrypt-Does x y (err _) m = protocol_failure-Does x y m

  send_when-Does :
      (p : Phase) (o : Option Session) (content : Bytes) (x : Ctx)
      → Does env x (send_when env p o content x)
  unfolding send_when send_on
  send_when-Does established (some s) content x =
      after_encrypt-Does x _ _ (rests refl refl refl (inl refl))
  send_when-Does established none content x = goes_on (emits (notify (send_rejected not_active)) tt)
  send_when-Does idle o content x = goes_on (emits (notify (send_rejected not_active)) tt)
  send_when-Does handshaking o content x = goes_on (emits (notify (send_rejected not_active)) tt)
  send_when-Does closed o content x = goes_on (emits (notify (send_rejected not_active)) tt)

  pub on_send-Does : (content : Bytes) (x : Ctx) → Does env x (on_send env content x)
  unfolding on_send
  on_send-Does content x = elim (Bool-cases (ltb max_content (length content))) [
    | inl e ↦ rw (e, on_send) (goes_on (emits (notify (send_rejected too_large)) tt))
    | inr e ↦ rw (e, on_send) (send_when-Does x.engine.phase x.engine.active content x)
  ]

  reject_data-Does : (e : Error) (x y : Ctx) → Made x y → Does env x (reject_data env e y)
  unfolding reject_data
  reject_data-Does e x y m = elim (Bool-cases (is_malformed e)) [
    | inl k ↦ rw (k, reject_data) (protocol_failure-Does x y m)
    | inr k ↦ rw (k, reject_data) (goes_on (joins m (emits (notify data_rejected) tt)))
  ]

  try_draining-Does :
      (o : Option Session) (e : Error) (f : Frame) (x y : Ctx)
      → Made x y
      → Does env x (try_draining env o e f y)
  unfolding try_draining
  try_draining-Does none e f x y m = reject_data-Does e x y m
  try_draining-Does (some s) e f x y m =
      let (receiver, result) = decrypt env.cbor env.primitives s.receiver f in
      let y' : Ctx = record y {
        engine = record (y.engine) { draining = some (record s { receiver = receiver }) };
      } in
      let m' : Made x y' = joins m (rests refl refl refl (inl refl)) in
      elim (Result-cases result) [
        | inl (content, k) ↦ rw (k, try_draining) (goes_on (joins m' (emits (deliver content) tt)))
        | inr (_, k) ↦ rw (k, try_draining) (reject_data-Does e x y' m')
      ]

  receive_on-Does : (s : Session) (f : Frame) (x : Ctx) → Does env x (receive_on env s f x)
  unfolding receive_on
  receive_on-Does s f x =
      let (receiver, result) = decrypt env.cbor env.primitives s.receiver f in
      let x' : Ctx = record x {
        engine = record (x.engine) { active = some (record s { receiver = receiver }) };
      } in
      let m : Made x x' = rests refl refl refl (inl refl) in
      elim (Result-cases result) [
        | inl (content, k) ↦
            rw (k, receive_on)
              (goes_on (
                joins m (joins (emits (deliver content) tt) (counted (emit x' (deliver content))))))
        | inr (e, k) ↦ rw (k, receive_on) (try_draining-Does x.engine.draining e f x x' m)
      ]

  abbrev received : Frame → Ctx → Option Session → Ctx
  received f x none = x
  received f x (some s) = receive_on env s f x

  on_data-Does : (f : Frame) (x : Ctx) → Does env x (on_data env f x)
  unfolding on_data
  on_data-Does f x = elim (Option-cases x.engine.active) [
    | inl e ↦ subst (λ o. Does env x (received f x o)) (sym e) (goes_on (made_self x))
    | inr (s, e) ↦ subst (λ o. Does env x (received f x o)) (sym e) (receive_on-Does s f x)
  ]

  on_frame_established-Does :
      (t : MessageType) (f : Frame) (x : Ctx) → Does env x (on_frame_established env t f x)
  unfolding on_frame_established
  on_frame_established-Does data_message f x = on_data-Does f x
  on_frame_established-Does close_message f x = on_close_frame-Does f x
  on_frame_established-Does rekey_message f x = on_rekey_frame-Does env f x
  on_frame_established-Does session_confirm_message f x = on_rekey_frame-Does env f x
  on_frame_established-Does handshake_message f x = protocol_failure-Does x x (made_self x)

  on_frame_in-Does : (p : Phase) (f : Frame) (x : Ctx) → Does env x (on_frame_in env p f x)
  unfolding on_frame_in
  on_frame_in-Does idle f x = protocol_failure-Does x x (made_self x)
  on_frame_in-Does closed f x = protocol_failure-Does x x (made_self x)
  on_frame_in-Does handshaking f x = on_frame_handshaking-Does f x
  on_frame_in-Does established f x = on_frame_established-Does f.message_type f x

  pub on_frame-Does : (f : Frame) (x : Ctx) → Does env x (on_frame env f x)
  unfolding on_frame
  on_frame-Does f x = on_frame_in-Does x.engine.phase f x
