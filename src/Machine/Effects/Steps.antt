-- ===== src/Machine/Effects/Steps.antt =====
-- The effects of the start and of the steps of a handshake run.
use ruxmsg.Prelude.{
  refl, sym, subst, inl, inr, Option, some, none, Bool, true, false, invalid_state_transition,
  Result, ok, err, Bool-cases, Result-cases, arith, Option-cases, not, is_some, ◌||◌, ◌&&◌, ◌==◌,
}
use ruxmsg.Protocol.{
  Bytes, PeerIdentity, SessionId, HandshakePurpose, initial, rekey, purpose_eq,
  sas_decision_timeout_secs, handshake_total_timeout_secs, message_type_eq, handshake_message,
  rekey_interval_secs,
}
use ruxmsg.Wire.{Frame}
use ruxmsg.Crypto.{sas_words}
use ruxmsg.Handshake.Hello.{HelloRole, initiator, responder, HelloPayload, role_eq}
use ruxmsg.Handshake.Hello
use ruxmsg.Handshake.Commit
use ruxmsg.Handshake.Commit.{CommitPayload}
use ruxmsg.Machine.Types.{
  Env, handshake_frame, sas_wait, handshake_total, rekey_due, rekey_started, send, notify,
  session_established, request_sas, Step, hello, reveal, sas, auth_resp, auth_init, confirm_resp,
  confirm_init, Run, Candidate, Ctx,
}
use ruxmsg.Machine.Deadlines.{rearm_frame_deadline}
use ruxmsg.Machine.Runs.{
  opening, initiator_hello, drawn, start_initiator_run, announce_run, responder_hello,
  start_responder_run, accept_first_commit,
}
use ruxmsg.Machine.Steps.{
  Stepped, Answer, answered, answer_auth_init, step_auth_init, answer_auth_resp, step_auth_resp,
  initiator_auth, approve_initiator, check_agreed, approve_responder, approve_as, after_approval,
  agree, ask_sas, continue_as, after_hellos, accept_responder_hello, step_hello, accept_reveal,
  step_reveal, step_sas, confirm_by_responder, step_confirm_resp, answer_confirm_init, candidate_of,
  step_confirm_init, step_at, step_run, settle, without_run, drive_run, complete_initial,
}
use ruxmsg.Machine.Effects.Made.{
  Made, rests, emits, cancels, arms, joins, made_self, rearm_frame_deadline-Made,
}

pub sets_run :
    (x : Ctx) (r : Option Run) → Made x (record x { engine = record (x.engine) { run = r } })
sets_run x r = rests refl refl refl (inl refl)

module _ (env : Env) where
  drawn-Made : (x : Ctx) → Made x (drawn env x)
  unfolding drawn
  drawn-Made x = rests refl refl refl (inl refl)

  pub start_initiator_run-Made :
      (purpose : HandshakePurpose) (previous : Option SessionId) (x : Ctx)
      → Made x (start_initiator_run env purpose previous x).0
  unfolding start_initiator_run
  start_initiator_run-Made purpose previous x =
      elim (Result-cases (opening env (initiator_hello env purpose previous x.engine))) [
        | inr (e, p) ↦ rw (p, start_initiator_run) (drawn-Made x)
        | inl (o, p) ↦
            rw (p, start_initiator_run)
              (joins (drawn-Made x) (joins (emits (send o.commit_frame) tt) (sets_run _ _)))
      ]

  announce_run-Made :
      (purpose : HandshakePurpose) (b : Bool) (x : Ctx) → Made x (announce_run env purpose b x)
  unfolding announce_run
  announce_run-Made initial b x = rearm_frame_deadline-Made initial reveal x
  announce_run-Made rekey true x =
      joins (arms handshake_total handshake_total_timeout_secs)
        (joins (emits (notify rekey_started) tt) (rearm_frame_deadline-Made rekey reveal _))
  announce_run-Made rekey false x =
      joins (arms handshake_total handshake_total_timeout_secs)
        (rearm_frame_deadline-Made rekey reveal _)

  pub start_responder_run-Made :
      (commit : CommitPayload) (b : Bool) (x : Ctx) → Made x (start_responder_run env commit b x).0
  unfolding start_responder_run
  start_responder_run-Made commit b x =
      elim (Result-cases (Hello.encode env.cbor (responder_hello env commit x.engine))) [
        | inr (e, p) ↦ rw (p, start_responder_run) (drawn-Made x)
        | inl (f, p) ↦
            rw (p, start_responder_run)
              (joins (drawn-Made x) (
                joins (emits (send f) tt)
                  (joins (sets_run _ _) (announce_run-Made commit.purpose b _))))
      ]

  pub accept_first_commit-Made :
      (frame : Frame) (x : Ctx) → Made x (accept_first_commit env frame x).0
  unfolding accept_first_commit
  accept_first_commit-Made frame x = elim (Result-cases (Commit.decode env.cbor frame)) [
    | inr (e, p) ↦ rw (p, accept_first_commit) (made_self x)
    | inl (c, p) ↦
        elim (Bool-cases (
          not (c.cipher_suite == 1)
          || (not (purpose_eq c.purpose initial) || is_some c.previous_session_id))) [
            | inl bad ↦ rw (p, bad, accept_first_commit) (made_self x)
            | inr fine ↦ rw (p, fine, accept_first_commit) (start_responder_run-Made c true x)
          ]
  ]

  answered-Made :
      (next : Step) (a : Answer) (run : Run) (x : Ctx) → Made x (answered env next a run x).0
  unfolding answered
  answered-Made next a run x =
      joins (emits (send a.frame) tt) (rearm_frame_deadline-Made run.purpose next _)

  step_auth_init-Made :
      (run : Run) (frame : Frame) (x : Ctx) → Made x (step_auth_init env run frame x).0
  unfolding step_auth_init
  step_auth_init-Made run frame x = elim (Result-cases (answer_auth_init env x.engine run frame)) [
    | inr (e, p) ↦ rw (p, step_auth_init) (made_self x)
    | inl (a, p) ↦ rw (p, step_auth_init) (answered-Made confirm_init a run x)
  ]

  step_auth_resp-Made :
      (run : Run) (frame : Frame) (x : Ctx) → Made x (step_auth_resp env run frame x).0
  unfolding step_auth_resp
  step_auth_resp-Made run frame x = elim (Result-cases (answer_auth_resp env run frame)) [
    | inr (e, p) ↦ rw (p, step_auth_resp) (made_self x)
    | inl (a, p) ↦ rw (p, step_auth_resp) (answered-Made confirm_resp a run x)
  ]

  approve_initiator-Made : (run : Run) (x : Ctx) → Made x (approve_initiator env run x).0
  unfolding approve_initiator
  approve_initiator-Made run x = elim (Result-cases (initiator_auth env x.engine run)) [
    | inr (e, p) ↦ rw (p, approve_initiator) (made_self x)
    | inl (f, p) ↦
        rw (p, approve_initiator)
          (joins (emits (send f) tt) (rearm_frame_deadline-Made run.purpose auth_resp _))
  ]

  abbrev on_early : Run → Ctx → Option Frame → Stepped
  on_early run x (some early) =
      step_auth_init env (record run { step = auth_init; early = none }) early x
  on_early run x none =
      (rearm_frame_deadline run.purpose auth_init x, record run { step = auth_init }, ok none)

  approve_responder-Made : (run : Run) (x : Ctx) → Made x (approve_responder env run x).0
  unfolding approve_responder
  approve_responder-Made run x = elim (Result-cases (check_agreed env run)) [
    | inr (e, p) ↦ rw (p, approve_responder) (made_self x)
    | inl (_, p) ↦ elim (Option-cases run.early) [
      | inl q ↦
          rw (p, approve_responder)
            (subst (λ o. Made x (on_early run x o).0) (sym q)
              (rearm_frame_deadline-Made run.purpose auth_init x))
      | inr (f, q) ↦
          rw (p, approve_responder)
            (subst (λ o. Made x (on_early run x o).0) (sym q) (step_auth_init-Made _ f x))
    ]
  ]

  approve_as-Made : (role : HelloRole) (run : Run) (x : Ctx) → Made x (approve_as env role run x).0
  unfolding approve_as
  approve_as-Made initiator run x = approve_initiator-Made run x
  approve_as-Made responder run x = approve_responder-Made run x

  pub after_approval-Made : (run : Run) (x : Ctx) → Made x (after_approval env run x).0
  unfolding after_approval
  after_approval-Made run x = approve_as-Made run.role run x

  continue_as-Made :
      (purpose : HandshakePurpose) (run : Run) (hash : Bytes) (peer : PeerIdentity) (x : Ctx)
      → Made x (continue_as env purpose run hash peer x).0
  unfolding continue_as ask_sas
  continue_as-Made initial run hash peer x = joins (cancels handshake_frame) (
      joins (arms sas_wait sas_decision_timeout_secs)
        (emits (request_sas (sas_words env.primitives hash) peer) tt))
  continue_as-Made rekey run hash peer x = after_approval-Made run x

  after_hellos-Made :
      (run : Run) (remote : HelloPayload) (x : Ctx) → Made x (after_hellos env run remote x).0
  unfolding after_hellos
  after_hellos-Made run remote x = elim (Result-cases (agree env run remote)) [
    | inr (e, p) ↦ rw (p, after_hellos) (made_self x)
    | inl (a, p) ↦
        rw (p, after_hellos) (continue_as-Made run.purpose _ a.hash remote.identity_public_key x)
  ]

  step_hello-Made : (run : Run) (frame : Frame) (x : Ctx) → Made x (step_hello env run frame x).0
  unfolding step_hello
  step_hello-Made run frame x =
      elim (Result-cases (accept_responder_hello env x.engine run frame)) [
        | inr (e, p) ↦ rw (p, step_hello) (made_self x)
        | inl ((remote, revealed), p) ↦
            rw (p, step_hello) (joins (emits (send revealed) tt) (after_hellos-Made _ remote _))
      ]

  step_reveal-Made : (run : Run) (frame : Frame) (x : Ctx) → Made x (step_reveal env run frame x).0
  unfolding step_reveal
  step_reveal-Made run frame x = elim (Result-cases (accept_reveal env x.engine run frame)) [
    | inr (e, p) ↦ rw (p, step_reveal) (made_self x)
    | inl (remote, p) ↦ rw (p, step_reveal) (after_hellos-Made run remote x)
  ]

  step_sas-Made : (run : Run) (frame : Frame) (x : Ctx) → Made x (step_sas env run frame x).0
  unfolding step_sas
  step_sas-Made run frame x =
      elim (Bool-cases (
        role_eq run.role responder
        && (not (is_some run.early) && message_type_eq frame.message_type handshake_message))) [
          | inl e ↦ rw (e, step_sas) (made_self x)
          | inr e ↦ rw (e, step_sas) (made_self x)
        ]

  step_confirm_resp-Made :
      (run : Run) (frame : Frame) (x : Ctx) → Made x (step_confirm_resp env run frame x).0
  unfolding step_confirm_resp
  step_confirm_resp-Made run frame x = elim (Result-cases (confirm_by_responder env run frame)) [
    | inr (e, p) ↦ rw (p, step_confirm_resp) (made_self x)
    | inl (c, p) ↦ rw (p, step_confirm_resp) (made_self x)
  ]

  step_confirm_init-Made :
      (run : Run) (frame : Frame) (x : Ctx) → Made x (step_confirm_init env run frame x).0
  unfolding step_confirm_init
  step_confirm_init-Made run frame x = elim (Result-cases (answer_confirm_init env run frame)) [
    | inr (e, p) ↦ rw (p, step_confirm_init) (made_self x)
    | inl (a, p) ↦ elim (Result-cases (candidate_of run a.keys)) [
      | inr (e, q) ↦ rw (p, q, step_confirm_init) (emits (send a.frame) tt)
      | inl (c, q) ↦ rw (p, q, step_confirm_init) (emits (send a.frame) tt)
    ]
  ]

  step_at-Made :
      (step : Step) (run : Run) (frame : Frame) (x : Ctx) → Made x (step_at env step run frame x).0
  unfolding step_at
  step_at-Made hello run frame x = step_hello-Made run frame x
  step_at-Made reveal run frame x = step_reveal-Made run frame x
  step_at-Made sas run frame x = step_sas-Made run frame x
  step_at-Made auth_resp run frame x = step_auth_resp-Made run frame x
  step_at-Made auth_init run frame x = step_auth_init-Made run frame x
  step_at-Made confirm_resp run frame x = step_confirm_resp-Made run frame x
  step_at-Made confirm_init run frame x = step_confirm_init-Made run frame x

  pub settle-Made : (x : Ctx) (s : Stepped) → Made x s.0 → Made x (settle env s).0
  unfolding settle
  settle-Made x (y, run, ok (some c)) m = m
  settle-Made x (y, run, ok none) m = joins m (sets_run y (some run))
  settle-Made x (y, run, err e) m = m

  abbrev driven : Frame → Ctx → Option Run → Ctx × Result (Option Candidate)
  driven frame x none = (x, err invalid_state_transition)
  driven frame x (some run) = settle env (step_run env run frame (without_run env x))

  step_run-Made : (run : Run) (frame : Frame) (x : Ctx) → Made x (step_run env run frame x).0
  unfolding step_run
  step_run-Made run frame x = step_at-Made run.step run frame x

  pub drive_run-Made : (frame : Frame) (x : Ctx) → Made x (drive_run env frame x).0
  unfolding drive_run without_run
  drive_run-Made frame x = elim (Option-cases x.engine.run) [
    | inl q ↦ subst (λ o. Made x (driven frame x o).0) (sym q) (made_self x)
    | inr (r, q) ↦
        subst (λ o. Made x (driven frame x o).0) (sym q)
          (joins (sets_run x none) (settle-Made _ _ (step_run-Made r frame (without_run env x))))
  ]

pub complete_initial-Made : (c : Candidate) (x : Ctx) → Made x (complete_initial c x)
unfolding complete_initial
complete_initial-Made c x = joins (cancels handshake_frame) (
    joins (cancels sas_wait) (
      joins (cancels handshake_total) (
        joins (rests refl refl refl (inr (λ e. ground arith))) (
          joins (arms rekey_due rekey_interval_secs)
            (emits (notify (session_established c.peer)) tt)))))
