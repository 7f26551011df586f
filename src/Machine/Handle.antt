-- ===== src/Machine/Handle.antt =====
-- `Engine::handle` and its handlers, of crates/ruxmsg-core/src/machine.rs.
use ruxmsg.Prelude.{
  ℕ, ◌+◌, ◌-◌, ◌^◌, List, [], ◌∷◌, Option, some, none, Bool, true, false, ltb, leb, ◌==◌,
  if◌then◌else◌, is_some, not, ◌&&◌, length, option_eq, Result, ok, err, Error, encoding,
  non_canonical_encoding, invalid_payload_shape, invalid_map_key, duplicate_map_key, invalid_length,
  invalid_frame_length, truncated_frame, data_too_large, transport_timeout,
}
use ruxmsg.Protocol.{
  Bytes, max_content, MessageType, handshake_message, session_confirm_message, data_message,
  rekey_message, close_message, message_type_eq,
}
use ruxmsg.Wire.{Frame}
use ruxmsg.Close.{CloseReason, ClosePayload, protocol_error, authentication_failure, resource_limit}
use ruxmsg.Close
use ruxmsg.Data.Channel.{encrypt, decrypt}
use ruxmsg.Machine.Types.{
  Env, DeadlineKind, handshake_frame, sas_wait, handshake_total, rekey_due, drain, local_cause,
  peer_unauthenticated, transport_lost_cause, protocol_error_cause, sas_rejected_cause,
  timeout_cause, not_active, too_large, data_rejected, send_rejected, Input, start_input,
  frame_received, sas_decision, local_send, local_close, request_rekey, timeout, transport_closed,
  malformed, send, deliver, notify, Phase, idle, handshaking, established, closed, Step, sas,
  Session, Run, Candidate, Engine, active_session_id, draining_session_id, Ctx, emit,
}
use ruxmsg.Machine.Deadlines.{cancel, terminate, fail_initial, fail_rekey}
use ruxmsg.Machine.Runs.{start, accept_first_commit}
use ruxmsg.Machine.Steps.{drive_run, after_approval, settle, without_run, complete_initial}
use ruxmsg.Machine.Rekey.{begin_rekey, on_rekey_frame}

unfoldable pub is_malformed : Error → Bool
is_malformed (encoding _) = true
is_malformed non_canonical_encoding = true
is_malformed invalid_payload_shape = true
is_malformed invalid_map_key = true
is_malformed (duplicate_map_key _) = true
is_malformed (invalid_length _ _ _) = true
is_malformed (invalid_frame_length _) = true
is_malformed truncated_frame = true
is_malformed data_too_large = true
is_malformed _ = false

-- `messages.saturating_add(1)` on a u64.
unfoldable pub count_message : Ctx → Ctx
count_message x = record x {
  engine = record (x.engine) {
    messages = if ltb (x.engine.messages + 1) (2 ^ 64) then x.engine.messages + 1 else 2 ^ 64 - 1;
  };
}

-- The first deadline with the ID, and the rest without it.
unfoldable pub take_deadline :
    ℕ → List (ℕ × DeadlineKind) → Option (DeadlineKind × List (ℕ × DeadlineKind))
take_deadline id [] = none
take_deadline id ((armed, kind) ∷ ds) =
    let rest = take_deadline id ds in
    if armed == id
    then some (kind, ds)
    else (elim rest [ none ↦ none | some (k, ds') ↦ some (k, (armed, kind) ∷ ds') ])

module _ (env : Env) where
  unfoldable pub protocol_failure : Ctx → Ctx
  protocol_failure x = terminate env protocol_error_cause (some protocol_error) x

  -- The outcome of a step of the initial handshake.
  unfoldable pub finish_initial : Ctx × Result (Option Candidate) → Ctx
  finish_initial (x, ok (some c)) = complete_initial c x
  finish_initial (x, ok none) = x
  finish_initial (x, err e) = fail_initial env e x

  unfoldable pub finish_commit : Ctx × Result (Unit {0}) → Ctx
  finish_commit (x, ok _) = x
  finish_commit (x, err e) = fail_initial env e x

  unfoldable pub close_while_handshaking : ClosePayload → Ctx → Ctx
  close_while_handshaking c x =
      if is_some c.session_id then x else terminate env (peer_unauthenticated c.reason) none x

  unfoldable pub close_while_established : ClosePayload → Ctx → Ctx
  close_while_established c x =
      if is_some c.session_id && option_eq c.session_id (active_session_id x.engine)
      then terminate env (peer_unauthenticated c.reason) none x
      else if is_some c.session_id && option_eq c.session_id (draining_session_id x.engine)
      then cancel drain (record x { engine = record (x.engine) { draining = none } })
      else x

  unfoldable pub close_in : Phase → ClosePayload → Ctx → Ctx
  close_in handshaking c x = close_while_handshaking c x
  close_in _ c x = close_while_established c x

  unfoldable pub on_close_frame : Frame → Ctx → Ctx
  on_close_frame frame x = elim (Close.decode env.cbor frame) [
    | err e ↦ protocol_failure x
    | ok c ↦ close_in x.engine.phase c x
  ]

  unfoldable pub drive_handshaking : Option Run → Frame → Ctx → Ctx
  drive_handshaking none frame x = finish_commit (accept_first_commit env frame x)
  drive_handshaking (some run) frame x = finish_initial (drive_run env frame x)

  unfoldable pub on_frame_handshaking : Frame → Ctx → Ctx
  on_frame_handshaking frame x =
      if message_type_eq frame.message_type close_message
      then on_close_frame frame x
      else drive_handshaking x.engine.run frame x

  unfoldable pub maybe_trigger_rekey : Ctx → Ctx
  maybe_trigger_rekey x =
      if leb x.engine.rekey_message_limit x.engine.messages
        && (not x.engine.rekey_blocked && not (is_some x.engine.run))
      then begin_rekey env x
      else x

  -- The outcome of `encrypt`, with the sender already updated.
  unfoldable pub after_encrypt : Result Frame → Ctx → Ctx
  after_encrypt (ok frame) x = maybe_trigger_rekey (count_message (emit x (send frame)))
  after_encrypt (err data_too_large) x = emit x (notify (send_rejected too_large))
  after_encrypt (err _) x = protocol_failure x

  unfoldable pub send_on : Session → Bytes → Ctx → Ctx
  send_on s content x =
      let (sender, result) = encrypt env.cbor env.primitives s.sender content in
      after_encrypt result
        (record x { engine = record (x.engine) { active = some (record s { sender = sender }) } })

  unfoldable pub send_when : Phase → Option Session → Bytes → Ctx → Ctx
  send_when established (some s) content x = send_on s content x
  send_when _ _ content x = emit x (notify (send_rejected not_active))

  unfoldable pub on_send : Bytes → Ctx → Ctx
  on_send content x =
      if ltb max_content (length content)
      then emit x (notify (send_rejected too_large))
      else send_when x.engine.phase x.engine.active content x

  -- The frame was for neither session.
  unfoldable pub reject_data : Error → Ctx → Ctx
  reject_data e x = if is_malformed e then protocol_failure x else emit x (notify data_rejected)

  unfoldable pub try_draining : Option Session → Error → Frame → Ctx → Ctx
  try_draining none active_error frame x = reject_data active_error x
  try_draining (some s) active_error frame x =
      let (receiver, result) = decrypt env.cbor env.primitives s.receiver frame in
      let x' = record x {
        engine = record (x.engine) { draining = some (record s { receiver = receiver }) };
      } in
      elim result [ ok content ↦ emit x' (deliver content) | err _ ↦ reject_data active_error x' ]

  unfoldable pub receive_on : Session → Frame → Ctx → Ctx
  receive_on s frame x =
      let (receiver, result) = decrypt env.cbor env.primitives s.receiver frame in
      let x' = record x {
        engine = record (x.engine) { active = some (record s { receiver = receiver }) };
      } in
      elim result [
        | ok content ↦ maybe_trigger_rekey (count_message (emit x' (deliver content)))
        | err e ↦ try_draining x'.engine.draining e frame x'
      ]

  unfoldable pub on_data : Frame → Ctx → Ctx
  on_data frame x = elim x.engine.active [ none ↦ x | some s ↦ receive_on s frame x ]

  unfoldable pub on_frame_established : MessageType → Frame → Ctx → Ctx
  on_frame_established data_message frame x = on_data frame x
  on_frame_established close_message frame x = on_close_frame frame x
  on_frame_established rekey_message frame x = on_rekey_frame env frame x
  on_frame_established session_confirm_message frame x = on_rekey_frame env frame x
  on_frame_established handshake_message frame x = protocol_failure x

  unfoldable pub on_frame_in : Phase → Frame → Ctx → Ctx
  on_frame_in idle frame x = protocol_failure x
  on_frame_in closed frame x = protocol_failure x
  on_frame_in handshaking frame x = on_frame_handshaking frame x
  on_frame_in established frame x = on_frame_established frame.message_type frame x

  unfoldable pub on_frame : Frame → Ctx → Ctx
  on_frame frame x = on_frame_in x.engine.phase frame x

  -- The arms that need a run at the SAS in the handshake.
  unfoldable pub decide_sas : Bool → Run → Ctx → Ctx
  decide_sas approved run x =
      let x' = cancel sas_wait x in
      if approved
      then finish_initial (settle env (after_approval env run (without_run env x')))
      else terminate env sas_rejected_cause (some authentication_failure) x'

  unfoldable pub sas_at : Step → Bool → Run → Ctx → Ctx
  sas_at sas approved run x = decide_sas approved run x
  sas_at _ approved run x = x

  unfoldable pub sas_when : Phase → Option Run → Bool → Ctx → Ctx
  sas_when handshaking (some run) approved x = sas_at run.step approved run x
  sas_when _ _ approved x = x

  unfoldable pub on_sas : Bool → Ctx → Ctx
  on_sas approved x = sas_when x.engine.phase x.engine.run approved x

  -- A handshake deadline, in a phase.
  unfoldable pub handshake_timeout : Phase → Option Run → Ctx → Ctx
  handshake_timeout handshaking run x = terminate env timeout_cause (some resource_limit) x
  handshake_timeout _ (some run) x = fail_rekey transport_timeout x
  handshake_timeout _ none x = x

  unfoldable pub fire : DeadlineKind → Ctx → Ctx
  fire handshake_frame x = handshake_timeout x.engine.phase x.engine.run x
  fire handshake_total x = handshake_timeout x.engine.phase x.engine.run x
  fire sas_wait x = terminate env timeout_cause (some authentication_failure) x
  fire rekey_due x =
      begin_rekey env
        (record x { engine = record (x.engine) { rekey_blocked = false; late_rekey_frames = 0 } })
  fire drain x = record x { engine = record (x.engine) { draining = none } }

  unfoldable pub on_timeout : ℕ → Ctx → Ctx
  on_timeout id x = elim (take_deadline id x.engine.deadlines) [
    | none ↦ x
    | some (kind, deadlines) ↦
        fire kind (record x { engine = record (x.engine) { deadlines = deadlines } })
  ]

  -- `respond.then_some(CloseReason::ProtocolError)`
  unfoldable pub malformed_reason : Bool → Option CloseReason
  malformed_reason true = some protocol_error
  malformed_reason false = none

  unfoldable pub dispatch : Input → Ctx → Ctx
  dispatch start_input x = start env x
  dispatch (frame_received frame) x = on_frame frame x
  dispatch (sas_decision approved) x = on_sas approved x
  dispatch (local_send content) x = on_send content x
  dispatch (local_close reason) x = terminate env local_cause (some reason) x
  dispatch request_rekey x = begin_rekey env x
  dispatch (timeout id) x = on_timeout id x
  dispatch transport_closed x = terminate env transport_lost_cause none x
  dispatch (malformed respond) x = terminate env protocol_error_cause (malformed_reason respond) x

  -- A closed engine does nothing.
  unfoldable pub handle_in : Phase → Input → Ctx → Ctx
  handle_in closed input x = x
  handle_in _ input x = dispatch input x

  unfoldable pub handle : Engine → Input → Ctx
  handle e input = handle_in e.phase input (record { engine = e; out = [] })

  -- The inputs of a driver in turn.
  unfoldable pub run : Engine → List Input → Engine
  run e [] = e
  run e (i ∷ is) = run (handle e i).engine is
