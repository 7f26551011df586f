-- ===== src/Machine/Spec/Rekeying.antt =====
-- The moves of a rekey: its frames, the glare of two COMMITs, and its completion.
use ruxmsg.Prelude.{
  ◌≡◌, refl, sym, ◌∙◌, ap, subst, inl, inr, Option, some, none, Bool, true, false, ok, err, arith,
  Bool-cases, Option-cases, not, ltb,
}
use ruxmsg.Protocol.{message_type_eq}
use ruxmsg.Wire.{Frame}
use ruxmsg.Handshake.Commit.{CommitPayload}
use ruxmsg.Handshake.Hello.{HelloRole, initiator, responder}
use ruxmsg.Machine.Types.{Env, established, Step, Run, Session, Ctx, Candidate, Input}
use ruxmsg.Machine.Deadlines.{arm, cancel}
use ruxmsg.Machine.Steps.{settle, without_run}
use ruxmsg.Machine.Spec.Core.{Core, core_of, with_run, core-terminate}
use ruxmsg.Machine.Spec.Outcome.{IsConfirm, Outcome, Follows, step_run-Outcome}
use ruxmsg.Machine.Spec.Moves.{SameSession, Moves}
use ruxmsg.Prelude.{◌≢◌, bytes_eq→eq, ◌&&◌, option_eq, bytes_eq, bytes_eq_self, identity_mismatch}
use ruxmsg.Protocol.{session_confirm_message}
use ruxmsg.Machine.Types.{peer_identity, new_session}
use ruxmsg.Machine.Deadlines.{fail_rekey, push_deadline}
use ruxmsg.Machine.Steps.{Stepped}
use ruxmsg.Machine.Rekey.{
  replaces, install_rekey, complete_rekey, yield_glare, resolve_glare_with, resolve_glare,
  stray_rekey_frame, is_rekey_commit, decode_rekey_commit, rekey_frame_idle, finish_rekey,
  drive_rekey, glare_commit, rekey_frame_running, rekey_frame_for, on_rekey_frame, run_previous,
}
use ruxmsg.Machine.Spec.Core.{core-note_rekey_rejection}
use ruxmsg.Machine.Spec.Moves.{RekeyRun, supersedes}
use ruxmsg.Machine.Spec.Initial.{same_self, Drains-self, drive_run_at}
use ruxmsg.Machine.Spec.Local.{Rekeyed, Local, Local-move, rekey_dropped}
use ruxmsg.Crypto.{SessionKeys, identity}
use ruxmsg.Handshake.Auth.{local_identity_wins_rekey_glare}
use ruxmsg.Protocol.{PeerIdentity}
use ruxmsg.Machine.Steps.{Stepped}
use ruxmsg.Machine.Spec.Active.{core_moved, on_incoming_commit-Local}

-- A handler after the run was dropped.
after_drop : (c d : Core) → c.phase ≡ established → Local (with_run none c) d → Local c d
after_drop c d p (inl e) = inl e
after_drop c d p (inr (inl e)) = inr (inr (subst (Rekeyed c) (sym e) (p, p, tt, refl, refl)))
after_drop c d p (inr (inr r)) = inr (inr r)

replaces_when :
    (o : Option Session) (k : Candidate)
    → replaces o k ≡ true
    → (s : Session) × (o ≡ some s) × (s.peer ≡ k.peer) × (s.id ≢ k.keys.session_id)
unfolding replaces
replaces_when none k h = ground arith
replaces_when (some s) k h = (
  s,
  refl,
  bytes_eq→eq s.peer k.peer (left _ _ h),
  differs (bytes_eq s.id k.keys.session_id) refl (right _ _ h),
)
  where
    left : (a b : Bool) → (a && b) ≡ true → a ≡ true
    left true b h = refl
    left false b h = ground arith

    right : (a b : Bool) → (a && b) ≡ true → b ≡ true
    right true b h = h
    right false b h = ground arith

    differs :
        (b : Bool) → bytes_eq s.id k.keys.session_id ≡ b → not b ≡ true → s.id ≢ k.keys.session_id
    differs true e h = ground arith
    differs false e h = λ q. true_is_false (sym (bytes_eq_self s.id) ∙ (ap (bytes_eq s.id) q ∙ e))
      where
        true_is_false : true ≡ false → ⊥
        true_is_false h = ground arith

new_session_id :
    (k : SessionKeys) (r : HelloRole) (peer : PeerIdentity)
    → ((new_session k r peer).id ≡ k.session_id) × ((new_session k r peer).peer ≡ peer)
unfolding new_session
new_session_id k initiator peer = (refl, refl)
new_session_id k responder peer = (refl, refl)

core-install_rekey :
    (k : Candidate) (x : Ctx)
    → core_of (install_rekey k x) ≡ record (core_of x) {
      active = some (new_session k.keys k.role k.peer);
      draining = x.engine.active;
    }
unfolding install_rekey arm cancel push_deadline
core-install_rekey k x = refl

-- The end of a rekey, from a core `c` that still holds the run.
complete_rekey-Moves :
    (i : Input) (k : Candidate) (x : Ctx) (c : Core)
    → core_of x ≡ with_run none c
    → c.phase ≡ established
    → Moves i c (core_of (complete_rekey k x))
unfolding complete_rekey
complete_rekey-Moves i k x c e p = elim (Bool-cases (replaces x.engine.active k)) [
  | inr h ↦
      rw (h, complete_rekey)
        (Local-move i c c _ refl refl (same_self c.active, Drains-self c.draining)
          (after_drop c _ p (
            inr (
              inr (
                subst (λ t. Rekeyed t (core_of (fail_rekey identity_mismatch x))) e
                  (rekey_dropped identity_mismatch x (ap (λ t. t.phase) e ∙ p)))))))
  | inl h ↦ rw (h, complete_rekey) (installed (replaces_when x.engine.active k h))
]
  where
    installed :
        (s : Session) × (x.engine.active ≡ some s) × (s.peer ≡ k.peer) × (s.id ≢ k.keys.session_id)
        → Moves i c (core_of (install_rekey k x))
    installed (s, a, peer, id) =
        let t = new_session k.keys k.role k.peer in
        let n = new_session_id k.keys k.role k.peer in
        subst (λ d. Moves i c d) (sym (core-install_rekey k x))
          (supersedes s t p
            (subst (λ o. SameSession o (some s)) (sym a ∙ ap (λ u. u.active) e) (refl, refl))
            (ap (λ u. u.phase) e ∙ p) (ap (λ u. u.run) e) refl a (n.1 ∙ sym peer)
            (λ q. id (sym q ∙ n.0)))

module _ (env : Env) where
  -- A step of a rekey run.
  finish_rekey-Moves :
      (next : Step → Type 0) (last : Type 0) (i : Input) (r : Run) (x : Ctx) (t : Stepped)
      → x.engine.phase ≡ established
      → RekeyRun x.engine.active (some r)
      → Outcome next last r (without_run env x) t
      → Moves i (core_of x) (core_of (finish_rekey env (settle env t)))
  unfolding settle finish_rekey without_run
  finish_rekey-Moves next last i r x (x', r', ok none) p v o = core_moved env i x _ (
      inr (
        inr (
          subst (Rekeyed (core_of x)) (sym (ap (with_run (some r')) o.0))
            (p, p, (o.1.0 ∙ v.0, o.1.1 ∙ v.1), refl, refl))))
  finish_rekey-Moves next last i r x (x', r', ok (some k)) p v o =
      complete_rekey-Moves i k x' (core_of x) o.0 p
  finish_rekey-Moves next last i r x (x', r', err e) p v o = core_moved env i x _ (
      inr (
        inr (
          subst (λ t. Rekeyed t (core_of (fail_rekey e x'))) o
            (rekey_dropped e x' (ap (λ t. t.phase) o ∙ p)))))

  drive_rekey-Moves :
      (i : Input) (r : Run) (f : Frame) (x : Ctx)
      → x.engine.phase ≡ established
      → x.engine.run ≡ some r
      → RekeyRun x.engine.active (some r)
      → Moves i (core_of x) (core_of (drive_rekey env f x))
  unfolding drive_rekey
  drive_rekey-Moves i r f x p q v =
      subst (λ t. Moves i (core_of x) (core_of (finish_rekey env t)))
        (sym (drive_run_at env r f x q))
        (finish_rekey-Moves (Follows r.purpose r.step) (IsConfirm r.step) i r x _ p v
          (step_run-Outcome env r f (without_run env x)))

  -- A COMMIT that crosses ours.
  yield_glare-Local :
      (k : CommitPayload) (x : Ctx)
      → x.engine.phase ≡ established
      → Local (core_of x) (core_of (yield_glare env k x))
  unfolding yield_glare cancel
  yield_glare-Local k x p = after_drop (core_of x) _ p (on_incoming_commit-Local env k false _ p)

  resolve_glare_with-Local :
      (peer : PeerIdentity) (k : CommitPayload) (x : Ctx)
      → x.engine.phase ≡ established
      → Local (core_of x) (core_of (resolve_glare_with env peer k x))
  unfolding resolve_glare_with
  resolve_glare_with-Local peer k x p =
      elim (Bool-cases (not (option_eq k.previous_session_id (run_previous x.engine.run)))) [
        | inl e ↦ rw (e, resolve_glare_with) (inr (inl (core-note_rekey_rejection x)))
        | inr e ↦
            elim (Bool-cases
              (local_identity_wins_rekey_glare (identity env.primitives x.engine.identity) peer)) [
                | inl w ↦ rw (e, w, resolve_glare_with) (inr (inl refl))
                | inr w ↦ rw (e, w, resolve_glare_with) (yield_glare-Local k x p)
              ]
      ]

  resolve_glare-Local :
      (k : CommitPayload) (x : Ctx)
      → x.engine.phase ≡ established
      → Local (core_of x) (core_of (resolve_glare env k x))
  unfolding resolve_glare
  resolve_glare-Local k x p = elim (Option-cases (peer_identity x.engine)) [
    | inl e ↦ rw (e, resolve_glare) (inr (inl refl))
    | inr (peer, e) ↦ rw (e, resolve_glare) (resolve_glare_with-Local peer k x p)
  ]

  stray_rekey_frame-Local :
      (f : Frame) (x : Ctx) → Local (core_of x) (core_of (stray_rekey_frame env f x))
  unfolding stray_rekey_frame
  stray_rekey_frame-Local f x = elim (Bool-cases (ltb 0 x.engine.late_rekey_frames)) [
    | inl e ↦ rw (e, stray_rekey_frame) (inr (inl refl))
    | inr e ↦ elim (Bool-cases (message_type_eq f.message_type session_confirm_message)) [
      | inl m ↦ rw (e, m, stray_rekey_frame) (inl (core-terminate env _ _ x))
      | inr m ↦ rw (e, m, stray_rekey_frame) (inr (inl (core-note_rekey_rejection x)))
    ]
  ]

  rekey_frame_idle-Local :
      (f : Frame) (x : Ctx)
      → x.engine.phase ≡ established
      → Local (core_of x) (core_of (rekey_frame_idle env f x))
  unfolding rekey_frame_idle
  rekey_frame_idle-Local f x p = elim (Option-cases (decode_rekey_commit env f)) [
    | inl e ↦ rw (e, rekey_frame_idle) (stray_rekey_frame-Local f x)
    | inr (k, e) ↦ elim (Bool-cases (is_rekey_commit env k x.engine)) [
      | inl b ↦ rw (e, b, rekey_frame_idle) (on_incoming_commit-Local env k true _ p)
      | inr b ↦ rw (e, b, rekey_frame_idle) (stray_rekey_frame-Local f x)
    ]
  ]

  rekey_frame_running-Moves :
      (i : Input) (r : Run) (f : Frame) (x : Ctx)
      → x.engine.phase ≡ established
      → x.engine.run ≡ some r
      → RekeyRun x.engine.active (some r)
      → Moves i (core_of x) (core_of (rekey_frame_running env r f x))
  unfolding rekey_frame_running
  rekey_frame_running-Moves i r f x p q v = elim (Option-cases (glare_commit env r f)) [
    | inl e ↦ rw (e, rekey_frame_running) (drive_rekey-Moves i r f x p q v)
    | inr (k, e) ↦ rw (e, rekey_frame_running) (core_moved env i x _ (resolve_glare-Local k x p))
  ]

  rekey_frame_for-Moves :
      (i : Input) (o : Option Run) (f : Frame) (x : Ctx)
      → x.engine.phase ≡ established
      → x.engine.run ≡ o
      → RekeyRun x.engine.active o
      → Moves i (core_of x) (core_of (rekey_frame_for env o f x))
  unfolding rekey_frame_for
  rekey_frame_for-Moves i none f x p q v = core_moved env i x _ (rekey_frame_idle-Local f x p)
  rekey_frame_for-Moves i (some r) f x p q v = rekey_frame_running-Moves i r f x p q v

  pub on_rekey_frame-Moves :
      (i : Input) (f : Frame) (x : Ctx)
      → x.engine.phase ≡ established
      → RekeyRun x.engine.active x.engine.run
      → Moves i (core_of x) (core_of (on_rekey_frame env f x))
  unfolding on_rekey_frame
  on_rekey_frame-Moves i f x p v = rekey_frame_for-Moves i x.engine.run f x p refl v
