-- ===== src/Machine/Spec/Core.antt =====
-- The part of an engine that the abstract machine sees, and the helpers that leave it alone.
use ruxmsg.Prelude.{ℕ, ◌≡◌, refl, Option, some, none, Bool-cases, inl, inr, ltb, ◌+◌, ◌==◌}
use ruxmsg.Protocol.{HandshakePurpose, PeerIdentity, Bytes}
use ruxmsg.Close.{CloseReason}
use ruxmsg.Prelude.{Error}
use ruxmsg.Machine.Types.{
  Env, Engine, Ctx, Phase, established, closed, Run, Session, DeadlineKind, Step, CloseCause,
  rekey_rejection_warning_threshold,
}
use ruxmsg.Machine.Deadlines.{
  cancel, push_deadline, arm, rearm_frame_deadline, is_bounded, shut, terminate, fail_initial,
  fail_rekey, note_rekey_rejection,
}
use ruxmsg.Machine.Steps.{ask_sas}

pub record Core : Type 0 where
  pub phase : Phase
  pub run : Option Run
  pub active : Option Session
  pub draining : Option Session

abbrev pub core : Engine → Core
core e = record { phase = e.phase; run = e.run; active = e.active; draining = e.draining }

abbrev pub core_of : Ctx → Core
core_of x = core x.engine

abbrev pub closed_core : Core
closed_core = record { phase = closed; run = none; active = none; draining = none }

abbrev pub with_run : Option Run → Core → Core
with_run r c = record c { run = r }

abbrev pub with_session : Session → Core → Core
with_session s c = record c { phase = established; active = some s }

pub core-arm : (k : DeadlineKind) (n : ℕ) (x : Ctx) → core_of (arm k n x) ≡ core_of x
unfolding arm cancel push_deadline
core-arm k n x = refl

pub core-cancel : (k : DeadlineKind) (x : Ctx) → core_of (cancel k x) ≡ core_of x
unfolding cancel
core-cancel k x = refl

pub core-rearm_frame_deadline :
    (p : HandshakePurpose) (s : Step) (x : Ctx) → core_of (rearm_frame_deadline p s x) ≡ core_of x
unfolding rearm_frame_deadline arm cancel push_deadline
core-rearm_frame_deadline p s x = elim (Bool-cases (is_bounded p s)) [
  | inl e ↦ rw (e, rearm_frame_deadline)
  | inr e ↦ rw (e, rearm_frame_deadline)
]

pub core-note_rekey_rejection : (x : Ctx) → core_of (note_rekey_rejection x) ≡ core_of x
unfolding note_rekey_rejection
core-note_rekey_rejection x = elim (Bool-cases (ltb n rekey_rejection_warning_threshold)) [
  | inl few ↦ elim (Bool-cases (n + 1 == rekey_rejection_warning_threshold)) [
    | inl last ↦ rw (few, last, note_rekey_rejection)
    | inr more ↦ rw (few, more, note_rekey_rejection)
  ]
  | inr many ↦ rw (many, note_rekey_rejection)
]
  where
    n : ℕ
    n = x.engine.consecutive_rekey_rejections

-- `terminate` and `fail_initial` close the engine and forget every session.
pub core-terminate :
    (env : Env) (c : CloseCause) (r : Option CloseReason) (x : Ctx)
    → core_of (terminate env c r x) ≡ closed_core
unfolding terminate shut
core-terminate env c r x = refl

pub core-fail_initial :
    (env : Env) (e : Error) (x : Ctx) → core_of (fail_initial env e x) ≡ closed_core
unfolding fail_initial
core-fail_initial env e x = core-terminate env _ _ x

-- A failed rekey drops the run, and leaves phase and sessions as they were.
pub core-fail_rekey :
    (e : Error) (x : Ctx) → core_of (fail_rekey e x) ≡ record (core_of x) { run = none }
unfolding fail_rekey arm cancel push_deadline
core-fail_rekey e x = refl

pub core-ask_sas :
    (env : Env) (hash : Bytes) (peer : PeerIdentity) (x : Ctx)
    → core_of (ask_sas env hash peer x) ≡ core_of x
unfolding ask_sas arm cancel push_deadline
core-ask_sas env hash peer x = refl
