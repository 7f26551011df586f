-- ===== src/Machine/Spec/Handlers.antt =====
-- The moves of the handlers of the initial handshake: START, its frames, the decision, the timers.
use ruxmsg.Prelude.{
  ℕ, ◌≡◌, refl, sym, ◌∙◌, ap, subst, ◌⊎◌, inl, inr, Option, some, none, Bool, true, false, Result,
  ok, err, arith, Result-cases, Bool-cases, Option-cases, not, ◌||◌, ◌==◌, is_some,
}
use ruxmsg.Protocol.{Bytes, HandshakePurpose, initial, rekey, purpose_eq}
use ruxmsg.Wire.{Frame}
use ruxmsg.Close.{ClosePayload}
use ruxmsg.Handshake.Commit
use ruxmsg.Handshake.Commit.{CommitPayload}
use ruxmsg.Handshake.Hello.{HelloRole, initiator, responder}
use ruxmsg.Machine.Types.{
  Env, DeadlineKind, handshake_frame, sas_wait, handshake_total, rekey_due, drain, Phase, idle,
  handshaking, established, closed, Step, hello, reveal, sas, auth_resp, auth_init, confirm_resp,
  confirm_init, Run, Ctx, Input, start_input, sas_decision, timeout,
}
use ruxmsg.Machine.Deadlines.{arm, cancel}
use ruxmsg.Machine.Runs.{
  start_initiator_run, start_responder_run, start_as, start_idle, start, accept_first_commit,
}
use ruxmsg.Machine.Steps.{settle, without_run, after_approval}
use ruxmsg.Machine.Handle.{
  finish_initial, finish_commit, close_while_handshaking, drive_handshaking, decide_sas, sas_at,
  sas_when, on_sas,
}
use ruxmsg.Machine.Spec.Core.{
  Core, core_of, with_run, core-arm, core-rearm_frame_deadline, core-fail_initial, core-terminate,
}
use ruxmsg.Machine.Spec.Outcome.{IsLate, after_approval-Outcome}
use ruxmsg.Machine.Spec.Moves.{
  EarlyStep, EarlyRun, LateRun, SasRun, Moves, keeps, shuts, opens, approves, Valid, ValidIn,
}
use ruxmsg.Machine.Spec.Start.{
  IsRun, Started, start_responder_run-Started, start_initiator_run-Started, finish-Finished,
}
use ruxmsg.Machine.Deadlines.{push_deadline}
use ruxmsg.Machine.Runs.{initial_begun, start_in}
use ruxmsg.Machine.Handle.{handshake_timeout, fire, on_timeout, take_deadline}
use ruxmsg.Prelude.{transport_timeout}
use ruxmsg.Machine.Spec.Initial.{
  Drains-none_self, stays, drive_run-Moves, first_commit-Started, same_self, Drains-self,
}
use ruxmsg.Machine.Spec.Local.{Local-move, rekey_dropped, begin_rekey-Local}

-- The checks on the first COMMIT.
commit_checks :
    (b : Bool) (p : HandshakePurpose) (o : Option Bytes)
    → (not b || (not (purpose_eq p initial) || is_some o)) ≡ false
    → (p ≡ initial) × (o ≡ none)
commit_checks true initial none h = (refl, refl)
commit_checks true initial (some s) h = ground arith
commit_checks true rekey o h = ground arith
commit_checks false p o h = ground arith

some-none : (r : Run) (o : Option Run) → o ≡ some r → o ≡ none → ⊥
some-none r none p q = ground arith
some-none r (some t) p q = ground arith

module _ (env : Env) where
  accept_first_commit-Started :
      (f : Frame) (x : Ctx)
      → Started (IsRun initial none reveal) (core_of x) (accept_first_commit env f x)
  unfolding accept_first_commit
  accept_first_commit-Started f x = elim (Result-cases (Commit.decode env.cbor f)) [
    | inr (er, e) ↦ rw (e, accept_first_commit) refl
    | inl (c, e) ↦
        elim (Bool-cases (
          not (c.cipher_suite == 1)
          || (not (purpose_eq c.purpose initial) || is_some c.previous_session_id))) [
            | inl bad ↦ rw (e, bad, accept_first_commit) refl
            | inr fine ↦
                rw (e, fine, accept_first_commit)
                  (initial_started c
                    (commit_checks (c.cipher_suite == 1) c.purpose c.previous_session_id fine))
          ]
  ]
    where
      initial_started :
          (c : CommitPayload)
          → (c.purpose ≡ initial) × (c.previous_session_id ≡ none)
          → Started (IsRun initial none reveal) (core_of x) (start_responder_run env c true x)
      initial_started c h =
          subst
            (λ t. Started (IsRun initial t reveal) (core_of x) (start_responder_run env c true x))
            h.1
            (subst
              (λ t.
                Started (IsRun t c.previous_session_id reveal) (core_of x)
                  (start_responder_run env c true x))
              h.0 (start_responder_run-Started env c true x))

  accept_first_commit-Moves :
      (i : Input) (f : Frame) (x : Ctx)
      → x.engine.phase ≡ handshaking
      → x.engine.run ≡ none
      → Moves i (core_of x) (core_of (finish_commit env (accept_first_commit env f x)))
  accept_first_commit-Moves i f x p q =
      let y = accept_first_commit env f x in
      first_commit-Started env i x y.0 y.1 p q (accept_first_commit-Started f x)

  pub close_while_handshaking-Moves :
      (i : Input) (c : ClosePayload) (x : Ctx)
      → Moves i (core_of x) (core_of (close_while_handshaking env c x))
  unfolding close_while_handshaking
  close_while_handshaking-Moves i c x = elim (Bool-cases (is_some c.session_id)) [
    | inl e ↦ rw (e, close_while_handshaking) (stays i (core_of x) (core_of x) refl)
    | inr e ↦ rw (e, close_while_handshaking) (shuts (core-terminate env _ none x))
  ]

  pub drive_handshaking-Moves :
      (i : Input) (r : Option Run) (f : Frame) (x : Ctx)
      → x.engine.phase ≡ handshaking
      → x.engine.run ≡ r
      → EarlyRun r ⊎ LateRun r
      → Moves i (core_of x) (core_of (drive_handshaking env r f x))
  unfolding drive_handshaking
  drive_handshaking-Moves i none f x p q v = accept_first_commit-Moves i f x p q
  drive_handshaking-Moves i (some r) f x p q v = drive_run-Moves env i f x r p q v

  -- The decision: an approved run goes on into its second half.
  approved_move :
      (i : Input) (r : Run) (x : Ctx)
      → i ≡ sas_decision true
      → x.engine.phase ≡ handshaking
      → x.engine.run ≡ some r
      → SasRun (some r)
      → Moves i
          (core_of x)
          (core_of (finish_initial env (settle env (after_approval env r (without_run env x)))))
  approved_move i r x a p q v =
      elim (finish-Finished env IsLate ⊥ r x (after_approval env r (without_run env x))
        (after_approval-Outcome env r (without_run env x))) [
          | inl e ↦ shuts e
          | inr (inl (r', same, next, e)) ↦
              subst (λ t. Moves i (core_of x) t) (sym e)
                (approves a p (subst SasRun (sym q) v) p (same.0 ∙ v.0, same.1 ∙ v.1, next) refl
                  refl)
          | inr (inr (b, s, e)) ↦ absurd b
        ]

  sas_run : (r : Run) → r.step ≡ sas → EarlyRun (some r) ⊎ LateRun (some r) → SasRun (some r)
  sas_run r h (inl v) = (v.0, v.1, h)
  sas_run r h (inr v) = absurd (subst IsLate h v.2)

  decide_sas-Moves :
      (b : Bool) (r : Run) (x : Ctx)
      → x.engine.phase ≡ handshaking
      → x.engine.run ≡ some r
      → SasRun (some r)
      → Moves (sas_decision b) (core_of x) (core_of (decide_sas env b r x))
  unfolding decide_sas cancel
  decide_sas-Moves true r x p q v =
      approved_move (sas_decision true) r (cancel sas_wait x) refl p q v
  decide_sas-Moves false r x p q v = shuts (core-terminate env _ _ (cancel sas_wait x))

  sas_at-Moves :
      (s : Step) (b : Bool) (r : Run) (x : Ctx)
      → r.step ≡ s
      → x.engine.phase ≡ handshaking
      → x.engine.run ≡ some r
      → EarlyRun (some r) ⊎ LateRun (some r)
      → Moves (sas_decision b) (core_of x) (core_of (sas_at env s b r x))
  unfolding sas_at
  sas_at-Moves sas b r x h p q v = decide_sas-Moves b r x p q (sas_run r h v)
  sas_at-Moves hello b r x h p q v = stays (sas_decision b) (core_of x) (core_of x) refl
  sas_at-Moves reveal b r x h p q v = stays (sas_decision b) (core_of x) (core_of x) refl
  sas_at-Moves auth_resp b r x h p q v = stays (sas_decision b) (core_of x) (core_of x) refl
  sas_at-Moves auth_init b r x h p q v = stays (sas_decision b) (core_of x) (core_of x) refl
  sas_at-Moves confirm_resp b r x h p q v = stays (sas_decision b) (core_of x) (core_of x) refl
  sas_at-Moves confirm_init b r x h p q v = stays (sas_decision b) (core_of x) (core_of x) refl

  sas_when-Moves :
      (ph : Phase) (o : Option Run) (b : Bool) (x : Ctx)
      → x.engine.phase ≡ ph
      → x.engine.run ≡ o
      → ValidIn ph (core_of x)
      → Moves (sas_decision b) (core_of x) (core_of (sas_when env ph o b x))
  unfolding sas_when
  sas_when-Moves handshaking (some r) b x p q v =
      sas_at-Moves r.step b r x refl p q (subst (λ t. EarlyRun t ⊎ LateRun t) q v.0)
  sas_when-Moves handshaking none b x p q v = stays (sas_decision b) (core_of x) (core_of x) refl
  sas_when-Moves idle o b x p q v = stays (sas_decision b) (core_of x) (core_of x) refl
  sas_when-Moves established o b x p q v = stays (sas_decision b) (core_of x) (core_of x) refl
  sas_when-Moves closed o b x p q v = stays (sas_decision b) (core_of x) (core_of x) refl

  pub on_sas-Moves :
      (b : Bool) (x : Ctx)
      → Valid (core_of x)
      → Moves (sas_decision b) (core_of x) (core_of (on_sas env b x))
  unfolding on_sas
  on_sas-Moves b x v = sas_when-Moves x.engine.phase x.engine.run b x refl refl v

  -- START.
  begun_move :
      (y : Ctx) (res : Result (Unit {0})) (b c : Core)
      → b.phase ≡ idle
      → c ≡ record b { phase = handshaking }
      → Started (IsRun initial none hello) c (y, res)
      → Moves start_input b (core_of (initial_begun env (y, res)))
  unfolding initial_begun
  begun_move y (err e) b c p h s = shuts (core-fail_initial env e y)
  begun_move y (ok _) b c p h s =
      subst (λ t. Moves start_input b t)
        (sym (core-rearm_frame_deadline initial hello y ∙ (s.2 ∙ ap (with_run (some s.0)) h)))
        (opens refl p refl (s.1.0, s.1.1, subst EarlyStep (sym s.1.2) tt) refl refl)

  start_as-Moves :
      (role : HelloRole) (x : Ctx) (b : Core)
      → b.phase ≡ idle
      → b.run ≡ none
      → core_of x ≡ record b { phase = handshaking }
      → Moves start_input b (core_of (start_as env role x))
  unfolding start_as
  start_as-Moves initiator x b p q h =
      let y = start_initiator_run env initial none x in
      begun_move y.0 y.1 b (core_of x) p h (start_initiator_run-Started env initial none x)
  start_as-Moves responder x b p q h =
      subst (λ t. Moves start_input b t) (sym (core-arm _ _ x ∙ h))
        (opens refl p refl (subst EarlyRun (sym q) tt) refl refl)

  start_idle-Moves :
      (x : Ctx)
      → x.engine.phase ≡ idle
      → x.engine.run ≡ none
      → Moves start_input (core_of x) (core_of (start_idle env x))
  unfolding start_idle arm cancel push_deadline
  start_idle-Moves x p q = start_as-Moves x.engine.role _ (core_of x) p q refl

  start_in-Moves :
      (p : Phase) (x : Ctx)
      → x.engine.phase ≡ p
      → ValidIn p (core_of x)
      → Moves start_input (core_of x) (core_of (start_in env p x))
  unfolding start_in
  start_in-Moves idle x p v = start_idle-Moves x p v.0
  start_in-Moves handshaking x p v = stays start_input (core_of x) (core_of x) refl
  start_in-Moves established x p v = stays start_input (core_of x) (core_of x) refl
  start_in-Moves closed x p v = stays start_input (core_of x) (core_of x) refl

  pub start-Moves :
      (x : Ctx) → Valid (core_of x) → Moves start_input (core_of x) (core_of (start env x))
  unfolding start
  start-Moves x v = start_in-Moves x.engine.phase x refl v

  -- The deadlines.
  handshake_timeout-Moves :
      (i : Input) (p : Phase) (o : Option Run) (x : Ctx)
      → x.engine.phase ≡ p
      → x.engine.run ≡ o
      → ValidIn p (core_of x)
      → Moves i (core_of x) (core_of (handshake_timeout env p o x))
  unfolding handshake_timeout
  handshake_timeout-Moves i handshaking o x p q v = shuts (core-terminate env _ _ x)
  handshake_timeout-Moves i established (some r) x p q v =
      Local-move i (core_of x) (core_of x) _ refl refl
        (same_self x.engine.active, Drains-self x.engine.draining)
        (inr (inr (rekey_dropped transport_timeout x p)))
  handshake_timeout-Moves i idle (some r) x p q v = absurd (some-none r x.engine.run q v.0)
  handshake_timeout-Moves i closed (some r) x p q v = absurd (some-none r x.engine.run q v.0)
  handshake_timeout-Moves i idle none x p q v = stays i (core_of x) (core_of x) refl
  handshake_timeout-Moves i closed none x p q v = stays i (core_of x) (core_of x) refl
  handshake_timeout-Moves i established none x p q v = stays i (core_of x) (core_of x) refl

  pub fire-Moves :
      (i : Input) (k : DeadlineKind) (x : Ctx)
      → Valid (core_of x)
      → Moves i (core_of x) (core_of (fire env k x))
  unfolding fire
  fire-Moves i handshake_frame x v =
      handshake_timeout-Moves i x.engine.phase x.engine.run x refl refl v
  fire-Moves i handshake_total x v =
      handshake_timeout-Moves i x.engine.phase x.engine.run x refl refl v
  fire-Moves i sas_wait x v = shuts (core-terminate env _ _ x)
  fire-Moves i rekey_due x v =
      Local-move i (core_of x) (core_of x) _ refl refl
        (same_self x.engine.active, Drains-self x.engine.draining) (begin_rekey-Local env _)
  fire-Moves i drain x v =
      keeps refl refl (same_self x.engine.active, Drains-none_self x.engine.draining)

  pub on_timeout-Moves :
      (id : ℕ) (x : Ctx)
      → Valid (core_of x)
      → Moves (timeout id) (core_of x) (core_of (on_timeout env id x))
  unfolding on_timeout
  on_timeout-Moves id x v = elim (Option-cases (take_deadline id x.engine.deadlines)) [
    | inl e ↦ rw (e, on_timeout) (stays (timeout id) (core_of x) (core_of x) refl)
    | inr ((k, ds), e) ↦
        rw (e, on_timeout)
          (fire-Moves (timeout id) k (record x { engine = record (x.engine) { deadlines = ds } }) v)
  ]
