-- ===== src/Machine/Spec/Local.antt =====
-- Moves that leave the sessions alone: the start and the end of a rekey run.
use ruxmsg.Prelude.{
  ◌≡◌, refl, sym, ◌∙◌, ap, subst, ◌⊎◌, inl, inr, Option, some, none, Result, ok, err, Error,
}
use ruxmsg.Protocol.{Bytes, rekey, handshake_total_timeout_secs}
use ruxmsg.Machine.Types.{
  Env, handshake_total, Phase, idle, handshaking, established, closed, Step, hello, reveal, Run,
  Session, Ctx, Input,
}
use ruxmsg.Machine.Deadlines.{arm}
use ruxmsg.Machine.Runs.{start_initiator_run}
use ruxmsg.Machine.Spec.Core.{
  Core, core_of, closed_core, with_run, core-arm, core-rearm_frame_deadline,
}
use ruxmsg.Machine.Spec.Moves.{SameSession, Drains, Moves, keeps, shuts}
use ruxmsg.Machine.Spec.Start.{IsRun, Started, start_initiator_run-Started}
use ruxmsg.Machine.Types.{active_session_id}
use ruxmsg.Machine.Deadlines.{fail_rekey}
use ruxmsg.Machine.Rekey.{
  rekey_begun, rekey_answered, begin_rekey_from, begin_rekey_when, begin_rekey,
}
use ruxmsg.Machine.Spec.Core.{core-fail_rekey}
use ruxmsg.Machine.Spec.Moves.{RekeyRun, Sessions, rekeys, same_id}

-- A run of a rekey that begins, goes on or is dropped, in an established engine.
abbrev pub Rekeyed : Core → Core → Type 0
Rekeyed c d =
    (c.phase ≡ established)
    × (d.phase ≡ established)
    × RekeyRun c.active d.run
    × (d.active ≡ c.active)
    × (d.draining ≡ c.draining)

-- What a handler does that leaves the sessions alone.
abbrev pub Local : Core → Core → Type 0
Local c d = (d ≡ closed_core) ⊎ ((d ≡ c) ⊎ Rekeyed c d)

run_back :
    (o o' : Option Session) (r : Option Run) → SameSession o o' → RekeyRun o' r → RekeyRun o r
run_back o o' none h k = tt
run_back o o' (some r) h k = (k.0, k.1 ∙ same_id o o' h)

-- Such a handler after the ratchets of the sessions have moved on.
pub Local-move :
    (i : Input) (b c d : Core)
    → c.phase ≡ b.phase
    → c.run ≡ b.run
    → Sessions b c
    → Local c d
    → Moves i b d
Local-move i b c d p q s (inl e) = shuts e
Local-move i b c d p q s (inr (inl e)) = subst (λ t. Moves i b t) (sym e) (keeps p q s)
Local-move i b c d p q s (inr (inr r)) =
    rekeys (sym p ∙ r.0) r.1 (run_back b.active c.active d.run s.0 r.2)
      (subst (SameSession b.active) (sym r.3) s.0, subst (Drains b.draining) (sym r.4) s.1)

pub rekey_dropped :
    (e : Error) (x : Ctx)
    → x.engine.phase ≡ established
    → Rekeyed (core_of x) (core_of (fail_rekey e x))
rekey_dropped e x p = subst (Rekeyed (core_of x)) (sym (core-fail_rekey e x)) (p, p, tt, refl, refl)

-- A failure in a context with the same core.
pub rekey_failed_at :
    (e : Error) (x y : Ctx)
    → x.engine.phase ≡ established
    → core_of y ≡ core_of x
    → Rekeyed (core_of x) (core_of (fail_rekey e y))
rekey_failed_at e x y p c =
    subst (λ t. Rekeyed t (core_of (fail_rekey e y))) c
      (rekey_dropped e y (ap (λ t. t.phase) c ∙ p))

module _ (env : Env) where
  -- A run that was started names the active session; an error drops it.
  begun_core :
      (step : Step) (x : Ctx) (previous : Option Bytes) (r : Run) (d : Core)
      → x.engine.phase ≡ established
      → previous ≡ active_session_id x.engine
      → IsRun rekey previous step r
      → d ≡ with_run (some r) (core_of x)
      → Rekeyed (core_of x) d
  begun_core step x previous r d p h is e =
      subst (Rekeyed (core_of x)) (sym e) (p, p, (is.0, is.1 ∙ h), refl, refl)

  rekey_begun-Rekeyed :
      (previous : Option Bytes) (x : Ctx) (y : Ctx) (res : Result (Unit {0}))
      → x.engine.phase ≡ established
      → previous ≡ active_session_id x.engine
      → Started (IsRun rekey previous hello) (core_of x) (y, res)
      → Rekeyed (core_of x) (core_of (rekey_begun env (y, res)))
  unfolding rekey_begun
  rekey_begun-Rekeyed previous x y (err e) p h s = rekey_failed_at e x y p s
  rekey_begun-Rekeyed previous x y (ok _) p h s = begun_core hello x previous s.0 _ p h s.1 (
      core-rearm_frame_deadline rekey hello (arm handshake_total handshake_total_timeout_secs y)
      ∙ (core-arm handshake_total handshake_total_timeout_secs y ∙ s.2))

  pub rekey_answered-Rekeyed :
      (previous : Option Bytes) (x : Ctx) (y : Ctx) (res : Result (Unit {0}))
      → x.engine.phase ≡ established
      → previous ≡ active_session_id x.engine
      → Started (IsRun rekey previous reveal) (core_of x) (y, res)
      → Rekeyed (core_of x) (core_of (rekey_answered env (y, res)))
  unfolding rekey_answered
  rekey_answered-Rekeyed previous x y (err e) p h s = rekey_failed_at e x y p s
  rekey_answered-Rekeyed previous x y (ok _) p h s = begun_core reveal x previous s.0 _ p h s.1 s.2

  begin_rekey_from-Rekeyed :
      (previous : Bytes) (x : Ctx)
      → x.engine.phase ≡ established
      → some previous ≡ active_session_id x.engine
      → Rekeyed (core_of x) (core_of (begin_rekey_from env previous x))
  unfolding begin_rekey_from
  begin_rekey_from-Rekeyed previous x p h =
      let y = start_initiator_run env rekey (some previous) x in
      rekey_begun-Rekeyed (some previous) x y.0 y.1 p h
        (start_initiator_run-Started env rekey (some previous) x)

  begin_rekey_when-Local :
      (p : Phase) (r : Option Run) (o : Option Bytes) (x : Ctx)
      → x.engine.phase ≡ p
      → o ≡ active_session_id x.engine
      → Local (core_of x) (core_of (begin_rekey_when env p r o x))
  unfolding begin_rekey_when
  begin_rekey_when-Local established none (some previous) x p h =
      inr (inr (begin_rekey_from-Rekeyed previous x p h))
  begin_rekey_when-Local established none none x p h = inr (inl refl)
  begin_rekey_when-Local established (some r) o x p h = inr (inl refl)
  begin_rekey_when-Local idle r o x p h = inr (inl refl)
  begin_rekey_when-Local handshaking r o x p h = inr (inl refl)
  begin_rekey_when-Local closed r o x p h = inr (inl refl)

  pub begin_rekey-Local : (x : Ctx) → Local (core_of x) (core_of (begin_rekey env x))
  unfolding begin_rekey
  begin_rekey-Local x =
      begin_rekey_when-Local x.engine.phase x.engine.run (active_session_id x.engine) x refl refl
