-- ===== src/Machine/Deadlines.antt =====
-- Deadlines, termination and failure of crates/ruxmsg-core/src/machine.rs.
use ruxmsg.Prelude.{
  ℕ, ◌+◌, ◌%◌, ◌^◌, ◌++◌, List, [], ◌∷◌, Option, some, none, Bool, true, false, ltb, ◌==◌,
  if◌then◌else◌, ok, err, Error, sas_rejected, signature_invalid, confirmation_invalid,
  identity_mismatch, transport_timeout,
}
use ruxmsg.Protocol.{
  HandshakePurpose, initial, rekey, handshake_frame_timeout_secs, rekey_retry_secs,
}
use ruxmsg.Close.{
  CloseReason, ClosePayload, protocol_error, authentication_failure, identity_changed,
}
use ruxmsg.Close
use ruxmsg.Machine.Types.{
  Env, DeadlineKind, kind_eq, handshake_frame, handshake_total, rekey_due, RekeyFailure,
  failed_timeout, failed_identity, failed_invalid, failed_repeated, CloseCause, sas_rejected_cause,
  authentication_failure_cause, protocol_error_cause, rekey_failed, session_closed, Effect, send,
  set_deadline, cancel_deadline, notify, close_transport, closed, Step, hello, reveal, confirm_resp,
  confirm_init, active_session_id, Ctx, emit, late_rekey_frame_grace,
  rekey_rejection_warning_threshold,
}

-- What `retain` keeps, and the effects that it pushes for the rest.
unfoldable pub retain_others : DeadlineKind → List (ℕ × DeadlineKind) → List (ℕ × DeadlineKind)
retain_others kind [] = []
retain_others kind ((id, existing) ∷ ds) =
    if kind_eq existing kind then retain_others kind ds else (id, existing) ∷ retain_others kind ds

unfoldable pub cancel_effects : DeadlineKind → List (ℕ × DeadlineKind) → List Effect
cancel_effects kind [] = []
cancel_effects kind ((id, existing) ∷ ds) =
    if kind_eq existing kind
    then cancel_deadline id ∷ cancel_effects kind ds
    else cancel_effects kind ds

unfoldable pub cancel : DeadlineKind → Ctx → Ctx
cancel kind x = record {
  engine = record (x.engine) { deadlines = retain_others kind x.engine.deadlines };
  out = x.out ++ cancel_effects kind x.engine.deadlines;
}

unfoldable pub cancel_all_effects : List (ℕ × DeadlineKind) → List Effect
cancel_all_effects [] = []
cancel_all_effects ((id, kind) ∷ ds) = cancel_deadline id ∷ cancel_all_effects ds

unfoldable pub cancel_all : Ctx → Ctx
cancel_all x = record {
  engine = record (x.engine) { deadlines = [] };
  out = x.out ++ cancel_all_effects x.engine.deadlines;
}

-- The push of `arm`; `next_deadline` is a u64.
unfoldable pub push_deadline : DeadlineKind → ℕ → Ctx → Ctx
push_deadline kind after x =
    let id = x.engine.next_deadline in
    record {
      engine = record (x.engine) {
        next_deadline = (id + 1) % 2 ^ 64;
        deadlines = x.engine.deadlines ++ ((id, kind) ∷ []);
      };
      out = x.out ++ (set_deadline id kind after ∷ []);
    }

unfoldable pub arm : DeadlineKind → ℕ → Ctx → Ctx
arm kind after x = push_deadline kind after (cancel kind x)

unfoldable pub is_bounded : HandshakePurpose → Step → Bool
is_bounded rekey step = true
is_bounded initial hello = true
is_bounded initial reveal = true
is_bounded initial confirm_resp = true
is_bounded initial confirm_init = true
is_bounded initial _ = false

unfoldable pub rearm_frame_deadline : HandshakePurpose → Step → Ctx → Ctx
rearm_frame_deadline purpose step x =
    let x' = cancel handshake_frame x in
    if is_bounded purpose step then arm handshake_frame handshake_frame_timeout_secs x' else x'

module _ (env : Env) where
  -- The CLOSE that `terminate` sends; one that cannot be encoded is not sent.
  unfoldable pub notify_peer : Option CloseReason → Ctx → Ctx
  notify_peer none x = x
  notify_peer (some reason) x =
      elim (Close.encode env.cbor
        (record { session_id = active_session_id x.engine; reason = reason; detail = none })) [
          | ok frame ↦ emit x (send frame)
          | err e ↦ x
        ]

  unfoldable pub shut : Ctx → Ctx
  shut x = record x {
    engine = record (x.engine) { run = none; active = none; draining = none; phase = closed };
  }

  unfoldable pub terminate : CloseCause → Option CloseReason → Ctx → Ctx
  terminate cause reason x = shut (
      emit (emit (notify_peer reason (cancel_all x)) (notify (session_closed cause)))
        close_transport)

  -- The cause and the reason for an error of the initial handshake.
  unfoldable pub initial_failure : Error → CloseCause × CloseReason
  initial_failure sas_rejected = (sas_rejected_cause, authentication_failure)
  initial_failure signature_invalid = (authentication_failure_cause, authentication_failure)
  initial_failure confirmation_invalid = (authentication_failure_cause, authentication_failure)
  initial_failure identity_mismatch = (authentication_failure_cause, identity_changed)
  initial_failure _ = (protocol_error_cause, protocol_error)

  unfoldable pub fail_initial : Error → Ctx → Ctx
  fail_initial e x = let (cause, reason) = initial_failure e in terminate cause (some reason) x

unfoldable pub failure_of : Error → RekeyFailure
failure_of transport_timeout = failed_timeout
failure_of identity_mismatch = failed_identity
failure_of _ = failed_invalid

unfoldable pub fail_rekey : Error → Ctx → Ctx
fail_rekey e x =
    let dropped = record x {
      engine = record (x.engine) { run = none; late_rekey_frames = late_rekey_frame_grace };
    } in
    let quiet = cancel handshake_total (cancel handshake_frame dropped) in
    let blocked = record quiet { engine = record (quiet.engine) { rekey_blocked = true } } in
    emit (arm rekey_due rekey_retry_secs blocked) (notify (rekey_failed (failure_of e)))

unfoldable pub note_rekey_rejection : Ctx → Ctx
note_rekey_rejection x =
    let n = x.engine.consecutive_rekey_rejections in
    let counted = record x {
      engine = record (x.engine) { consecutive_rekey_rejections = n + 1 };
    } in
    if ltb n rekey_rejection_warning_threshold
    then if n + 1 == rekey_rejection_warning_threshold
      then emit counted (notify (rekey_failed failed_repeated))
      else counted
    else x
