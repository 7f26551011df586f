-- ===== src/Machine/Spec/Start.antt =====
-- What a frame or a START does before the session: the moves of the initial handshake.
use ruxmsg.Prelude.{
  ◌≡◌, refl, ◌∙◌, ap, ◌⊎◌, inl, inr, Option, some, none, Bool, true, false, Result, ok, err,
  Result-cases,
}
use ruxmsg.Protocol.{Bytes, HandshakePurpose, initial, rekey}
use ruxmsg.Handshake.Commit.{CommitPayload}
use ruxmsg.Handshake.Hello
use ruxmsg.Handshake.Hello.{HelloRole, initiator, responder}
use ruxmsg.Machine.Types.{Env, Step, hello, reveal, Run, Session, Ctx, Candidate, new_session}
use ruxmsg.Machine.Deadlines.{arm, cancel, push_deadline}
use ruxmsg.Machine.Runs.{
  opening, initiator_hello, start_initiator_run, start_responder_run, responder_hello,
  responder_run, initiator_run, fresh_ephemeral, announce_run, drawn,
}
use ruxmsg.Machine.Steps.{Stepped, settle, without_run, complete_initial}
use ruxmsg.Machine.Handle.{finish_initial}
use ruxmsg.Machine.Spec.Core.{
  Core, core_of, closed_core, with_run, with_session, core-arm, core-rearm_frame_deadline,
  core-fail_initial,
}
use ruxmsg.Machine.Spec.Outcome.{Outcome, SameRun}

-- The end of a step of the initial handshake: a failure closes, a run goes on, a candidate
-- becomes the session.
abbrev pub Finished : (Step → Type 0) → Type 0 → Run → Core → Core → Type 0
Finished next last r c d =
    (d ≡ closed_core)
    ⊎ (((r' : Run) × SameRun r r' × next r'.step × (d ≡ with_run (some r') c))
        ⊎ (last × (s : Session) × (d ≡ with_session s (with_run none c))))

core-complete_initial :
    (c : Candidate) (x : Ctx)
    → core_of (complete_initial c x) ≡ with_session (new_session c.keys c.role c.peer) (core_of x)
unfolding complete_initial arm cancel push_deadline
core-complete_initial c x = refl

pub core-announce_run :
    (env : Env) (p : HandshakePurpose) (b : Bool) (x : Ctx)
    → core_of (announce_run env p b x) ≡ core_of x
unfolding announce_run
core-announce_run env initial b x = core-rearm_frame_deadline initial reveal x
core-announce_run env rekey true x = core-rearm_frame_deadline rekey reveal _ ∙ core-arm _ _ x
core-announce_run env rekey false x = core-rearm_frame_deadline rekey reveal _ ∙ core-arm _ _ x

-- The start of a run: it fails and leaves the core, or the new run is in it.
abbrev pub Started : (Run → Type 0) → Core → Ctx × Result (Unit {0}) → Type 0
Started P c (y, err e) = core_of y ≡ c
Started P c (y, ok _) = (r : Run) × P r × (core_of y ≡ with_run (some r) c)

abbrev pub IsRun : HandshakePurpose → Option Bytes → Step → Run → Type 0
IsRun p previous s r = (r.purpose ≡ p) × (r.previous ≡ previous) × (r.step ≡ s)

module _ (env : Env) where
  pub start_responder_run-Started :
      (c : CommitPayload) (b : Bool) (x : Ctx)
      → Started
          (IsRun c.purpose c.previous_session_id reveal)
          (core_of x)
          (start_responder_run env c b x)
  unfolding start_responder_run responder_run drawn
  start_responder_run-Started c b x =
      elim (Result-cases (Hello.encode env.cbor (responder_hello env c x.engine))) [
        | inr (er, e) ↦ rw (e, start_responder_run) refl
        | inl (f, e) ↦
            rw (e, start_responder_run)
              (
                responder_run env c (responder_hello env c x.engine) (fresh_ephemeral env x.engine),
                (refl, refl, refl),
                core-announce_run env c.purpose b _,
              )
      ]

  pub start_initiator_run-Started :
      (p : HandshakePurpose) (previous : Option Bytes) (x : Ctx)
      → Started (IsRun p previous hello) (core_of x) (start_initiator_run env p previous x)
  unfolding start_initiator_run initiator_run initiator_hello drawn
  start_initiator_run-Started p previous x =
      elim (Result-cases (opening env (initiator_hello env p previous x.engine))) [
        | inr (er, e) ↦ rw (e, start_initiator_run) refl
        | inl (o, e) ↦
            rw (e, start_initiator_run)
              (
                initiator_run env (initiator_hello env p previous x.engine)
                    (fresh_ephemeral env x.engine) o.hello_frame,
                (refl, refl, refl),
                refl,
              )
      ]

  pub finish-Finished :
      (next : Step → Type 0) (last : Type 0) (r : Run) (x : Ctx) (t : Stepped)
      → Outcome next last r (without_run env x) t
      → Finished next last r (core_of x) (core_of (finish_initial env (settle env t)))
  unfolding settle finish_initial without_run
  finish-Finished next last r x (x', r', ok none) o =
      inr (inl (r', o.1, o.2, ap (with_run (some r')) o.0))
  finish-Finished next last r x (x', r', ok (some c)) o = inr (
      inr (
        o.1,
        new_session c.keys c.role c.peer,
        core-complete_initial c x' ∙ ap (with_session (new_session c.keys c.role c.peer)) o.0,
      ))
  finish-Finished next last r x (x', r', err e) o = inl (core-fail_initial env e x')
