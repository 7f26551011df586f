-- ===== src/Machine/Effects/Handled.antt =====
-- The effects of `Engine::handle`.
use ruxmsg.Prelude.{
  ℕ, ◌≡◌, ◌≢◌, refl, ap, inl, inr, List, [], Option, some, none, Bool, true, false, Result, ok, err,
  transport_timeout, Option-cases, arith,
}
use ruxmsg.Protocol.{initial, handshake_total_timeout_secs, handshake_frame_timeout_secs}
use ruxmsg.Close.{authentication_failure, resource_limit}
use ruxmsg.Handshake.Hello.{HelloRole, initiator, responder}
use ruxmsg.Machine.Types.{
  Env, DeadlineKind, handshake_frame, sas_wait, handshake_total, rekey_due, drain, local_cause,
  transport_lost_cause, protocol_error_cause, sas_rejected_cause, timeout_cause, Input, start_input,
  frame_received, sas_decision, local_send, local_close, request_rekey, timeout, transport_closed,
  malformed, Phase, idle, handshaking, established, closed, Step, hello, reveal, sas, auth_resp,
  auth_init, confirm_resp, confirm_init, Run, Engine, Ctx,
}
use ruxmsg.Machine.Deadlines.{cancel}
use ruxmsg.Machine.Runs.{start, start_in, start_idle, start_as, initial_begun, start_initiator_run}
use ruxmsg.Machine.Steps.{after_approval, settle, without_run}
use ruxmsg.Machine.Handle.{
  take_deadline, decide_sas, sas_at, sas_when, on_sas, handshake_timeout, fire, on_timeout,
  malformed_reason, dispatch, handle_in, handle,
}
use ruxmsg.Machine.Effects.Made.{
  Made, rests, cancels, arms, joins, Does, goes_on, ends, Does-after, made_self,
  rearm_frame_deadline-Made, fail_rekey-Made, fail_initial-Does,
}
use ruxmsg.Machine.Effects.Steps.{
  start_initiator_run-Made, after_approval-Made, settle-Made, sets_run,
}
use ruxmsg.Machine.Effects.Rekey.{begin_rekey-Made}
use ruxmsg.Machine.Effects.Frames.{on_frame-Does, on_send-Does, finish_initial-Does}

-- The table that the driver and the engine have when the input is handled: a deadline that
-- expired is no longer in it.
abbrev pub without_fired :
    Option (DeadlineKind × List (ℕ × DeadlineKind))
    → List (ℕ × DeadlineKind)
    → List (ℕ × DeadlineKind)
without_fired none ds = ds
without_fired (some (kind, ds')) ds = ds'

-- The deadline whose expiry an input tells.
abbrev pub expired : Input → Option ℕ
expired (timeout id) = some id
expired _ = none

abbrev pub at_table : Option ℕ → List (ℕ × DeadlineKind) → List (ℕ × DeadlineKind)
at_table none ds = ds
at_table (some id) ds = without_fired (take_deadline id ds) ds

abbrev pub at_input : Input → Engine → Engine
at_input i e = record e { deadlines = at_table (expired i) e.deadlines }

abbrev pub started_at : Input → Engine → Ctx
started_at i e = record { engine = at_input i e; out = [] }

module _ (env : Env) where
  emptied : (x : Ctx) → Made x (without_run env x)
  unfolding without_run
  emptied x = sets_run x none

  decide_sas-Does : (b : Bool) (r : Run) (x : Ctx) → Does env x (decide_sas env b r x)
  unfolding decide_sas
  decide_sas-Does true r x =
      let x' = cancel sas_wait x in
      let z = after_approval env r (without_run env x') in
      let y = settle env z in
      finish_initial-Does env x y.0 y.1 (
        joins (cancels sas_wait) (
          joins (emptied x') (
            settle-Made env (without_run env x') z
              (after_approval-Made env r (without_run env x')))))
  decide_sas-Does false r x =
      ends sas_rejected_cause (some authentication_failure) (cancels sas_wait)

  sas_at-Does : (s : Step) (b : Bool) (r : Run) (x : Ctx) → Does env x (sas_at env s b r x)
  unfolding sas_at
  sas_at-Does sas b r x = decide_sas-Does b r x
  sas_at-Does hello b r x = goes_on (made_self x)
  sas_at-Does reveal b r x = goes_on (made_self x)
  sas_at-Does auth_resp b r x = goes_on (made_self x)
  sas_at-Does auth_init b r x = goes_on (made_self x)
  sas_at-Does confirm_resp b r x = goes_on (made_self x)
  sas_at-Does confirm_init b r x = goes_on (made_self x)

  sas_when-Does :
      (p : Phase) (o : Option Run) (b : Bool) (x : Ctx) → Does env x (sas_when env p o b x)
  unfolding sas_when
  sas_when-Does handshaking (some r) b x = sas_at-Does r.step b r x
  sas_when-Does handshaking none b x = goes_on (made_self x)
  sas_when-Does idle o b x = goes_on (made_self x)
  sas_when-Does established o b x = goes_on (made_self x)
  sas_when-Does closed o b x = goes_on (made_self x)

  handshake_timeout-Does :
      (p : Phase) (o : Option Run) (x : Ctx) → Does env x (handshake_timeout env p o x)
  unfolding handshake_timeout
  handshake_timeout-Does handshaking o x = ends timeout_cause (some resource_limit) (made_self x)
  handshake_timeout-Does idle none x = goes_on (made_self x)
  handshake_timeout-Does established none x = goes_on (made_self x)
  handshake_timeout-Does closed none x = goes_on (made_self x)
  handshake_timeout-Does idle (some r) x = goes_on (fail_rekey-Made transport_timeout x)
  handshake_timeout-Does established (some r) x = goes_on (fail_rekey-Made transport_timeout x)
  handshake_timeout-Does closed (some r) x = goes_on (fail_rekey-Made transport_timeout x)

  fire-Does : (k : DeadlineKind) (x : Ctx) → Does env x (fire env k x)
  unfolding fire
  fire-Does handshake_frame x = handshake_timeout-Does x.engine.phase x.engine.run x
  fire-Does handshake_total x = handshake_timeout-Does x.engine.phase x.engine.run x
  fire-Does sas_wait x = ends timeout_cause (some authentication_failure) (made_self x)
  fire-Does rekey_due x = goes_on (joins (rests refl refl refl (inl refl)) (begin_rekey-Made env _))
  fire-Does drain x = goes_on (rests refl refl refl (inl refl))

  begun : (x y : Ctx) (r : Result (Unit {0})) → Made x y → Does env x (initial_begun env (y, r))
  unfolding initial_begun
  begun x y (err e) m = fail_initial-Does env e x y m
  begun x y (ok _) m = goes_on (joins m (rearm_frame_deadline-Made initial hello y))

  start_as-Does : (r : HelloRole) (x : Ctx) → Does env x (start_as env r x)
  unfolding start_as
  start_as-Does initiator x =
      let y = start_initiator_run env initial none x in
      begun x y.0 y.1 (start_initiator_run-Made env initial none x)
  start_as-Does responder x = goes_on (arms handshake_frame handshake_frame_timeout_secs)

  start_in-Does : (p : Phase) (x : Ctx) → Does env x (start_in env p x)
  unfolding start_in start_idle
  start_in-Does idle x =
      Does-after env x _ _
        (joins (rests refl refl refl (inr (λ e. ground arith)))
          (arms handshake_total handshake_total_timeout_secs))
        (start_as-Does x.engine.role _)
  start_in-Does handshaking x = goes_on (made_self x)
  start_in-Does established x = goes_on (made_self x)
  start_in-Does closed x = goes_on (made_self x)

  on_timeout-Does :
      (id : ℕ) (e : Engine)
      → Does env (started_at (timeout id) e) (on_timeout env id (record { engine = e; out = [] }))
  unfolding on_timeout
  on_timeout-Does id e = elim (Option-cases (take_deadline id e.deadlines)) [
    | inl p ↦ rw (p, on_timeout) (goes_on (rests refl refl refl (inl refl)))
    | inr ((kind, ds), p) ↦ rw (p, on_timeout) (fire-Does kind _)
  ]

  dispatch-Does :
      (i : Input) (e : Engine)
      → Does env (started_at i e) (dispatch env i (record { engine = e; out = [] }))
  unfolding dispatch on_sas start
  dispatch-Does start_input e = start_in-Does e.phase _
  dispatch-Does (frame_received f) e = on_frame-Does env f _
  dispatch-Does (sas_decision b) e = sas_when-Does e.phase e.run b _
  dispatch-Does (local_send content) e = on_send-Does env content _
  dispatch-Does (local_close reason) e = ends local_cause (some reason) (made_self _)
  dispatch-Does request_rekey e = goes_on (begin_rekey-Made env _)
  dispatch-Does (timeout id) e = on_timeout-Does id e
  dispatch-Does transport_closed e = ends transport_lost_cause none (made_self _)
  dispatch-Does (malformed b) e = ends protocol_error_cause (malformed_reason env b) (made_self _)

  handle_in-Does :
      (p : Phase) (i : Input) (e : Engine)
      → p ≢ closed
      → Does env (started_at i e) (handle_in env p i (record { engine = e; out = [] }))
  unfolding handle_in
  handle_in-Does closed i e h = absurd (h refl)
  handle_in-Does idle i e h = dispatch-Does i e
  handle_in-Does handshaking i e h = dispatch-Does i e
  handle_in-Does established i e h = dispatch-Does i e

  pub handle-Does :
      (e : Engine) (i : Input) → e.phase ≢ closed → Does env (started_at i e) (handle env e i)
  unfolding handle
  handle-Does e i h = handle_in-Does e.phase i e h

-- A closed engine does nothing.
pub handle_closed :
    (env : Env) (e : Engine) (i : Input)
    → e.phase ≡ closed
    → handle env e i ≡ record { engine = e; out = [] }
unfolding handle handle_in
handle_closed env e i h = ap (λ p. handle_in env p i (record { engine = e; out = [] })) h
