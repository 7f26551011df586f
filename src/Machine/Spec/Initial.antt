-- ===== src/Machine/Spec/Initial.antt =====
-- The moves of an engine before and in the initial handshake, one lemma for each handler.
use ruxmsg.Prelude.{
  ◌≡◌, refl, sym, ◌∙◌, ap, subst, ◌⊎◌, inl, inr, Option, some, none, Result, ok, err,
  invalid_state_transition,
}
use ruxmsg.Protocol.{initial}
use ruxmsg.Wire.{Frame}
use ruxmsg.Machine.Types.{
  Env, handshaking, Step, hello, reveal, sas, auth_resp, auth_init, confirm_resp, confirm_init, Run,
  Session, Ctx, Candidate, Input,
}
use ruxmsg.Machine.Steps.{settle, without_run, drive_run, step_run}
use ruxmsg.Machine.Handle.{finish_initial, finish_commit}
use ruxmsg.Machine.Spec.Core.{Core, core_of, with_run, core-fail_initial}
use ruxmsg.Machine.Spec.Outcome.{
  IsLate, IsConfirm, Outcome, SameRun, FollowsInitial, Follows, step_run-Outcome,
}
use ruxmsg.Machine.Spec.Moves.{
  SameSession, Drains, EarlyStep, EarlyRun, LateRun, Moves, keeps, shuts, early, late, establishes,
}
use ruxmsg.Machine.Spec.Start.{Finished, IsRun, Started, finish-Finished}

pub same_self : (o : Option Session) → SameSession o o
same_self none = tt
same_self (some s) = (refl, refl)

pub Drains-self : (o : Option Session) → Drains o o
Drains-self none = tt
Drains-self (some s) = (refl, refl)

pub Drains-none_self : (o : Option Session) → Drains o none
Drains-none_self none = tt
Drains-none_self (some s) = tt

-- A handler that leaves the core as it was.
pub stays : (i : Input) (c d : Core) → d ≡ c → Moves i c d
stays i c d e =
    subst (λ t. Moves i c t) (sym e) (keeps refl refl (same_self c.active, Drains-self c.draining))

-- How an initial run in its first half goes on.
goes_early :
    (i : Input) (r r' : Run) (c d : Core)
    → c.phase ≡ handshaking
    → c.run ≡ some r
    → EarlyRun (some r)
    → SameRun r r'
    → r'.step ≡ sas
    → d ≡ with_run (some r') c
    → Moves i c d
goes_early i r r' c d p q v same next e =
    subst (λ t. Moves i c t) (sym e)
      (early p (subst EarlyRun (sym q) v) p
        (same.0 ∙ v.0, same.1 ∙ v.1, subst EarlyStep (sym next) tt) refl refl)

goes_late :
    (i : Input) (r r' : Run) (c d : Core)
    → c.phase ≡ handshaking
    → c.run ≡ some r
    → LateRun (some r)
    → SameRun r r'
    → IsLate r'.step
    → d ≡ with_run (some r') c
    → Moves i c d
goes_late i r r' c d p q v same next e =
    subst (λ t. Moves i c t) (sym e)
      (late p (subst LateRun (sym q) v) p (same.0 ∙ v.0, same.1 ∙ v.1, next) refl refl)

-- How an initial run in its first half ends a step, and one in its second.
early_move :
    (i : Input) (r : Run) (s : Step) (c d : Core)
    → EarlyStep s
    → c.phase ≡ handshaking
    → c.run ≡ some r
    → EarlyRun (some r)
    → Finished (FollowsInitial s) (IsConfirm s) r c d
    → Moves i c d
early_move i r s c d l p q v (inl e) = shuts e
early_move i r hello c d l p q v (inr (inl (r', same, next, e))) =
    goes_early i r r' c d p q v same next e
early_move i r reveal c d l p q v (inr (inl (r', same, next, e))) =
    goes_early i r r' c d p q v same next e
early_move i r sas c d l p q v (inr (inl (r', same, next, e))) =
    goes_early i r r' c d p q v same next e
early_move i r hello c d l p q v (inr (inr (b, m, e))) = absurd b
early_move i r reveal c d l p q v (inr (inr (b, m, e))) = absurd b
early_move i r sas c d l p q v (inr (inr (b, m, e))) = absurd b
early_move i r auth_resp c d l p q v f = absurd l
early_move i r auth_init c d l p q v f = absurd l
early_move i r confirm_resp c d l p q v f = absurd l
early_move i r confirm_init c d l p q v f = absurd l

IsLate-step : (s t : Step) → IsLate s → FollowsInitial s t → IsLate t
IsLate-step auth_resp t l f = subst IsLate (sym f) tt
IsLate-step auth_init t l f = subst IsLate (sym f) tt
IsLate-step confirm_resp t l f = absurd f
IsLate-step confirm_init t l f = absurd f
IsLate-step hello t l f = absurd l
IsLate-step reveal t l f = absurd l
IsLate-step sas t l f = absurd l

late_move :
    (i : Input) (r : Run) (s : Step) (c d : Core)
    → IsLate s
    → c.phase ≡ handshaking
    → c.run ≡ some r
    → LateRun (some r)
    → Finished (FollowsInitial s) (IsConfirm s) r c d
    → Moves i c d
late_move i r s c d l p q v (inl e) = shuts e
late_move i r s c d l p q v (inr (inl (r', same, next, e))) =
    goes_late i r r' c d p q v same (IsLate-step s r'.step l next) e
late_move i r s c d l p q v (inr (inr (b, m, e))) =
    subst (λ t. Moves i c t) (sym e) (establishes m p (subst LateRun (sym q) v) refl refl refl refl)

module _ (env : Env) where
  -- A frame for a run of the initial handshake.
  drive_initial_at :
      (i : Input) (r : Run) (f : Frame) (x : Ctx)
      → r.purpose ≡ initial
      → Finished
          (FollowsInitial r.step)
          (IsConfirm r.step)
          r
          (core_of x)
          (core_of (finish_initial env (settle env (step_run env r f (without_run env x)))))
  drive_initial_at i r f x h =
      finish-Finished env (FollowsInitial r.step) (IsConfirm r.step) r x
        (step_run env r f (without_run env x))
        (subst
          (λ p.
            Outcome (Follows p r.step) (IsConfirm r.step) r (without_run env x)
              (step_run env r f (without_run env x)))
          h (step_run-Outcome env r f (without_run env x)))

  pub drive_run_at :
      (r : Run) (f : Frame) (x : Ctx)
      → x.engine.run ≡ some r
      → drive_run env f x ≡ settle env (step_run env r f (without_run env x))
  unfolding drive_run
  drive_run_at r f x q = ap at q
    where
      at : Option Run → Ctx × Result (Option Candidate)
      at none = (x, err invalid_state_transition)
      at (some run) = settle env (step_run env run f (without_run env x))

  -- A run of the initial handshake stands before the decision or after it.
  run_move :
      (i : Input) (r : Run) (c d : Core)
      → c.phase ≡ handshaking
      → c.run ≡ some r
      → EarlyRun (some r) ⊎ LateRun (some r)
      → Finished (FollowsInitial r.step) (IsConfirm r.step) r c d
      → Moves i c d
  run_move i r c d p q (inl v) m = early_move i r r.step c d v.2 p q v m
  run_move i r c d p q (inr v) m = late_move i r r.step c d v.2 p q v m

  pub is_initial : (r : Run) → EarlyRun (some r) ⊎ LateRun (some r) → r.purpose ≡ initial
  is_initial r (inl v) = v.0
  is_initial r (inr v) = v.0

  pub drive_run-Moves :
      (i : Input) (f : Frame) (x : Ctx) (r : Run)
      → x.engine.phase ≡ handshaking
      → x.engine.run ≡ some r
      → EarlyRun (some r) ⊎ LateRun (some r)
      → Moves i (core_of x) (core_of (finish_initial env (drive_run env f x)))
  drive_run-Moves i f x r p q v =
      subst (λ t. Moves i (core_of x) (core_of (finish_initial env t))) (sym (drive_run_at r f x q))
        (run_move i r (core_of x) _ p q v (drive_initial_at i r f x (is_initial r v)))

  -- The responder's first frame.
  pub first_commit-Started :
      (i : Input) (x : Ctx) (y : Ctx) (res : Result (Unit {0}))
      → x.engine.phase ≡ handshaking
      → x.engine.run ≡ none
      → Started (IsRun initial none reveal) (core_of x) (y, res)
      → Moves i (core_of x) (core_of (finish_commit env (y, res)))
  unfolding finish_commit
  first_commit-Started i x y (err e) p q s = shuts (core-fail_initial env e y)
  first_commit-Started i x y (ok _) p q s =
      subst (λ t. Moves i (core_of x) t) (sym s.2)
        (early p (subst EarlyRun (sym q) tt) p (s.1.0, s.1.1, subst EarlyStep (sym s.1.2) tt) refl
          refl)
