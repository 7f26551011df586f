-- ===== src/Machine/Spec/Refine.antt =====
-- Every input is a move of the abstract machine, and what follows for whole runs of the engine.
use ruxmsg.Prelude.{◌≡◌, refl, ◌⊎◌, inl, inr, [], none, Result-cases, Bool-cases}
use ruxmsg.Protocol.{message_type_eq, close_message}
use ruxmsg.Wire.{Frame}
use ruxmsg.Close
use ruxmsg.Close.{ClosePayload}
use ruxmsg.Machine.Types.{
  Env, Phase, idle, handshaking, established, closed, Engine, Ctx, Input, start_input,
  frame_received, sas_decision, local_send, local_close, request_rekey, timeout, transport_closed,
  malformed,
}
use ruxmsg.Machine.Handle.{close_in, on_close_frame, on_frame_handshaking, protocol_failure}
use ruxmsg.Machine.Spec.Core.{core, core_of, core-terminate}
use ruxmsg.Machine.Spec.Moves.{EarlyRun, LateRun, Moves, shuts, Valid, ValidIn}
use ruxmsg.Protocol.{
  MessageType, data_message, rekey_message, session_confirm_message, handshake_message,
}
use ruxmsg.Machine.Handle.{on_frame_established, on_frame_in, on_frame}
use ruxmsg.Machine.Spec.Moves.{RekeyRun}
use ruxmsg.Machine.Spec.Local.{begin_rekey-Local}
use ruxmsg.Machine.Spec.Active.{same, core_moved, close_while_established-Moves, on_data-Moves}
use ruxmsg.Machine.Handle.{dispatch, handle_in, handle}
use ruxmsg.Machine.Spec.Handlers.{
  on_sas-Moves, start-Moves, on_timeout-Moves, close_while_handshaking-Moves,
  drive_handshaking-Moves,
}
use ruxmsg.Machine.Spec.Active.{on_send-Moves}
use ruxmsg.Machine.Spec.Rekeying.{on_rekey_frame-Moves}
use ruxmsg.Machine.Spec.Moves.{Moves-Valid}

module _ (env : Env) where
  close_in-Moves :
      (i : Input) (p : Phase) (c : ClosePayload) (x : Ctx)
      → Moves i (core_of x) (core_of (close_in env p c x))
  unfolding close_in
  close_in-Moves i handshaking c x = close_while_handshaking-Moves env i c x
  close_in-Moves i idle c x = close_while_established-Moves env i c x
  close_in-Moves i established c x = close_while_established-Moves env i c x
  close_in-Moves i closed c x = close_while_established-Moves env i c x

  on_close_frame-Moves :
      (i : Input) (f : Frame) (x : Ctx) → Moves i (core_of x) (core_of (on_close_frame env f x))
  unfolding on_close_frame protocol_failure
  on_close_frame-Moves i f x = elim (Result-cases (Close.decode env.cbor f)) [
    | inl (c, e) ↦ rw (e, on_close_frame) (close_in-Moves i x.engine.phase c x)
    | inr (er, e) ↦ rw (e, on_close_frame, protocol_failure) (shuts (core-terminate env _ _ x))
  ]

  on_frame_handshaking-Moves :
      (i : Input) (f : Frame) (x : Ctx)
      → x.engine.phase ≡ handshaking
      → EarlyRun x.engine.run ⊎ LateRun x.engine.run
      → Moves i (core_of x) (core_of (on_frame_handshaking env f x))
  unfolding on_frame_handshaking
  on_frame_handshaking-Moves i f x p v =
      elim (Bool-cases (message_type_eq f.message_type close_message)) [
        | inl e ↦ rw (e, on_frame_handshaking) (on_close_frame-Moves i f x)
        | inr e ↦
            rw (e, on_frame_handshaking) (drive_handshaking-Moves env i x.engine.run f x p refl v)
      ]

  on_frame_established-Moves :
      (i : Input) (m : MessageType) (f : Frame) (x : Ctx)
      → x.engine.phase ≡ established
      → RekeyRun x.engine.active x.engine.run
      → Moves i (core_of x) (core_of (on_frame_established env m f x))
  unfolding on_frame_established protocol_failure
  on_frame_established-Moves i data_message f x p v = on_data-Moves env i f x
  on_frame_established-Moves i close_message f x p v = on_close_frame-Moves i f x
  on_frame_established-Moves i rekey_message f x p v = on_rekey_frame-Moves env i f x p v
  on_frame_established-Moves i session_confirm_message f x p v = on_rekey_frame-Moves env i f x p v
  on_frame_established-Moves i handshake_message f x p v = shuts (core-terminate env _ _ x)

  on_frame_in-Moves :
      (i : Input) (p : Phase) (f : Frame) (x : Ctx)
      → x.engine.phase ≡ p
      → ValidIn p (core_of x)
      → Moves i (core_of x) (core_of (on_frame_in env p f x))
  unfolding on_frame_in protocol_failure
  on_frame_in-Moves i idle f x p v = shuts (core-terminate env _ _ x)
  on_frame_in-Moves i closed f x p v = shuts (core-terminate env _ _ x)
  on_frame_in-Moves i handshaking f x p v = on_frame_handshaking-Moves i f x p v.0
  on_frame_in-Moves i established f x p v = on_frame_established-Moves i f.message_type f x p v.2

  dispatch-Moves :
      (i : Input) (x : Ctx) → Valid (core_of x) → Moves i (core_of x) (core_of (dispatch env i x))
  unfolding dispatch on_frame
  dispatch-Moves start_input x v = start-Moves env x v
  dispatch-Moves (frame_received f) x v =
      on_frame_in-Moves (frame_received f) x.engine.phase f x refl v
  dispatch-Moves (sas_decision b) x v = on_sas-Moves env b x v
  dispatch-Moves (local_send content) x v = on_send-Moves env (local_send content) content x
  dispatch-Moves (local_close r) x v = shuts (core-terminate env _ _ x)
  dispatch-Moves request_rekey x v = core_moved env request_rekey x _ (begin_rekey-Local env x)
  dispatch-Moves (timeout id) x v = on_timeout-Moves env id x v
  dispatch-Moves transport_closed x v = shuts (core-terminate env _ none x)
  dispatch-Moves (malformed respond) x v = shuts (core-terminate env _ _ x)

  handle_in-Moves :
      (p : Phase) (i : Input) (x : Ctx)
      → Valid (core_of x)
      → Moves i (core_of x) (core_of (handle_in env p i x))
  unfolding handle_in
  handle_in-Moves closed i x v = same env i x
  handle_in-Moves idle i x v = dispatch-Moves i x v
  handle_in-Moves handshaking i x v = dispatch-Moves i x v
  handle_in-Moves established i x v = dispatch-Moves i x v

  -- For an engine whose core (phase, run, active and draining session) is valid, what `handle` does
  -- to the core on any one input is a move of the abstract machine.
  pub handle-Moves :
      (e : Engine) (i : Input) → Valid (core e) → Moves i (core e) (core_of (handle env e i))
  unfolding handle
  handle-Moves e i v = handle_in-Moves e.phase i (record { engine = e; out = [] }) v

  pub handle-Valid : (e : Engine) (i : Input) → Valid (core e) → Valid (core_of (handle env e i))
  handle-Valid e i v = Moves-Valid i (core e) (core_of (handle env e i)) (handle-Moves e i v) v
