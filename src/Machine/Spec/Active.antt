-- ===== src/Machine/Spec/Active.antt =====
-- The moves of the handlers of a session: DATA, CLOSE and the frames of a rekey.
use ruxmsg.Prelude.{
  ◌≡◌, refl, sym, ◌∙◌, ap, subst, inl, inr, Option, some, none, Bool, true, false, Result, ok, err,
  Error, arith, Result-cases, Bool-cases, Option-cases, not, ◌||◌, ◌==◌, is_some, ltb, length,
}
use ruxmsg.Protocol.{Bytes, HandshakePurpose, initial, rekey, purpose_eq, max_content}
use ruxmsg.Wire.{Frame}
use ruxmsg.Close.{ClosePayload}
use ruxmsg.Handshake.Commit.{CommitPayload}
use ruxmsg.Machine.Types.{
  Env, Phase, idle, handshaking, established, closed, reveal, Session, Engine, Ctx, Input,
}
use ruxmsg.Machine.Deadlines.{cancel}
use ruxmsg.Machine.Runs.{start_responder_run}
use ruxmsg.Machine.Handle.{protocol_failure}
use ruxmsg.Machine.Spec.Core.{Core, core_of, core-terminate}
use ruxmsg.Machine.Spec.Moves.{SameSession, Drains, Moves, keeps, shuts}
use ruxmsg.Machine.Spec.Start.{IsRun, Started, start_responder_run-Started}
use ruxmsg.Prelude.{◌&&◌, option_eq, option_eq→eq, data_too_large, leb}
use ruxmsg.Machine.Types.{active_session_id, draining_session_id}
use ruxmsg.Machine.Rekey.{references_active, answer_commit, on_incoming_commit}
use ruxmsg.Machine.Handle.{
  is_malformed, maybe_trigger_rekey, after_encrypt, count_message, send_on, send_when, on_send,
  reject_data, try_draining, receive_on, on_data, close_while_established,
}
use ruxmsg.Data.Channel.{decrypt}
use ruxmsg.Machine.Spec.Core.{core-note_rekey_rejection}
use ruxmsg.Machine.Spec.Initial.{Drains-none_self, stays, same_self, Drains-self}
use ruxmsg.Machine.Spec.Local.{
  Rekeyed, Local, Local-move, rekey_answered-Rekeyed, begin_rekey-Local,
}

pub same_as :
    (o : Option Session) (s t : Session)
    → o ≡ some s
    → t.id ≡ s.id
    → t.peer ≡ s.peer
    → SameSession o (some t)
same_as o s t e h k = subst (λ u. SameSession u (some t)) (sym e) (h, k)

Drains-as :
    (o : Option Session) (s t : Session)
    → o ≡ some s
    → t.id ≡ s.id
    → t.peer ≡ s.peer
    → Drains o (some t)
Drains-as o s t e h k = subst (λ u. Drains u (some t)) (sym e) (h, k)

module _ (env : Env) where
  pub same : (i : Input) (x : Ctx) → Moves i (core_of x) (core_of x)
  same i x = stays i (core_of x) (core_of x) refl

  maybe_trigger_rekey-Local : (x : Ctx) → Local (core_of x) (core_of (maybe_trigger_rekey env x))
  unfolding maybe_trigger_rekey
  maybe_trigger_rekey-Local x =
      elim (Bool-cases (
        leb x.engine.rekey_message_limit x.engine.messages
        && (not x.engine.rekey_blocked && not (is_some x.engine.run)))) [
          | inl e ↦ rw (e, maybe_trigger_rekey) (begin_rekey-Local env x)
          | inr e ↦ rw (e, maybe_trigger_rekey) (inr (inl refl))
        ]

  after_encrypt-Local :
      (r : Result Frame) (x : Ctx) → Local (core_of x) (core_of (after_encrypt env r x))
  unfolding after_encrypt count_message protocol_failure
  after_encrypt-Local (ok f) x = maybe_trigger_rekey-Local _
  after_encrypt-Local (err data_too_large) x = inr (inl refl)
  after_encrypt-Local (err _) x = inl (core-terminate env _ _ x)

  send_on-Moves :
      (i : Input) (s : Session) (content : Bytes) (x : Ctx)
      → x.engine.active ≡ some s
      → Moves i (core_of x) (core_of (send_on env s content x))
  unfolding send_on
  send_on-Moves i s content x a =
      Local-move i (core_of x) _ _ refl refl
        (same_as x.engine.active s _ a refl refl, Drains-self x.engine.draining)
        (after_encrypt-Local _ _)

  send_when-Moves :
      (i : Input) (p : Phase) (o : Option Session) (content : Bytes) (x : Ctx)
      → x.engine.active ≡ o
      → Moves i (core_of x) (core_of (send_when env p o content x))
  unfolding send_when
  send_when-Moves i established (some s) content x a = send_on-Moves i s content x a
  send_when-Moves i established none content x a = same i x
  send_when-Moves i idle o content x a = same i x
  send_when-Moves i handshaking o content x a = same i x
  send_when-Moves i closed o content x a = same i x

  pub on_send-Moves :
      (i : Input) (content : Bytes) (x : Ctx)
      → Moves i (core_of x) (core_of (on_send env content x))
  unfolding on_send
  on_send-Moves i content x = elim (Bool-cases (ltb max_content (length content))) [
    | inl e ↦ rw (e, on_send) (same i x)
    | inr e ↦ rw (e, on_send) (send_when-Moves i x.engine.phase x.engine.active content x refl)
  ]

  -- DATA.
  reject_data-Local : (e : Error) (x : Ctx) → Local (core_of x) (core_of (reject_data env e x))
  unfolding reject_data protocol_failure
  reject_data-Local er x = elim (Bool-cases (is_malformed er)) [
    | inl e ↦ rw (e, reject_data) (inl (core-terminate env _ _ x))
    | inr e ↦ rw (e, reject_data) (inr (inl refl))
  ]

  -- With the active session's receiver moved on already, from the core `b`.
  try_draining-Moves :
      (i : Input) (o : Option Session) (e : Error) (f : Frame) (x : Ctx) (b : Core)
      → x.engine.draining ≡ o
      → x.engine.phase ≡ b.phase
      → x.engine.run ≡ b.run
      → SameSession b.active x.engine.active
      → x.engine.draining ≡ b.draining
      → Moves i b (core_of (try_draining env o e f x))
  unfolding try_draining
  try_draining-Moves i none e f x b h p q s d =
      Local-move i b (core_of x) _ p q
        (s, subst (Drains b.draining) (sym d) (Drains-self b.draining)) (reject_data-Local e x)
  try_draining-Moves i (some t) e f x b h p q s d =
      elim (Result-cases (decrypt env.cbor env.primitives t.receiver f).1) [
        | inl (content, k) ↦ rw (k, try_draining) (keeps p q (s, drained))
        | inr (er, k) ↦
            rw (k, try_draining) (Local-move i b _ _ p q (s, drained) (reject_data-Local e _))
      ]
    where
      drained :
          Drains b.draining
            (some (record t { receiver = (decrypt env.cbor env.primitives t.receiver f).0 }))
      drained = Drains-as b.draining t _ (sym d ∙ h) refl refl

  receive_on-Moves :
      (i : Input) (s : Session) (f : Frame) (x : Ctx)
      → x.engine.active ≡ some s
      → Moves i (core_of x) (core_of (receive_on env s f x))
  unfolding receive_on count_message
  receive_on-Moves i s f x a =
      elim (Result-cases (decrypt env.cbor env.primitives s.receiver f).1) [
        | inl (content, k) ↦
            rw (k, receive_on)
              (Local-move i (core_of x) _ _ refl refl
                (same_as x.engine.active s _ a refl refl, Drains-self x.engine.draining)
                (maybe_trigger_rekey-Local _))
        | inr (er, k) ↦
            rw (k, receive_on)
              (try_draining-Moves i x.engine.draining er f _ (core_of x) refl refl refl
                (same_as x.engine.active s _ a refl refl) refl)
      ]

  pub on_data-Moves :
      (i : Input) (f : Frame) (x : Ctx) → Moves i (core_of x) (core_of (on_data env f x))
  unfolding on_data
  on_data-Moves i f x = elim (Option-cases x.engine.active) [
    | inl e ↦ stays i (core_of x) _ (data_at none e)
    | inr (s, e) ↦
        subst (λ t. Moves i (core_of x) t) (sym (data_at (some s) e)) (receive_on-Moves i s f x e)
  ]
    where
      received : Option Session → Ctx
      received none = x
      received (some s) = receive_on env s f x

      data_at :
          (o : Option Session)
          → x.engine.active ≡ o
          → core_of (on_data env f x) ≡ core_of (received o)
      data_at o e = ap (λ t. core_of (received t)) e

  -- CLOSE.
  pub close_while_established-Moves :
      (i : Input) (c : ClosePayload) (x : Ctx)
      → Moves i (core_of x) (core_of (close_while_established env c x))
  unfolding close_while_established cancel
  close_while_established-Moves i c x =
      elim (Bool-cases
        (is_some c.session_id && option_eq c.session_id (active_session_id x.engine))) [
          | inl e ↦ rw (e, close_while_established) (shuts (core-terminate env _ none x))
          | inr e ↦
              elim (Bool-cases
                (is_some c.session_id && option_eq c.session_id (draining_session_id x.engine))) [
                  | inl d ↦
                      rw (e, d, close_while_established)
                        (keeps refl refl
                          (same_self x.engine.active, Drains-none_self x.engine.draining))
                  | inr d ↦ rw (e, d, close_while_established) (same i x)
                ]
        ]

  -- The frames of a rekey.
  pub core_moved : (i : Input) (x : Ctx) (d : Core) → Local (core_of x) d → Moves i (core_of x) d
  core_moved i x d l =
      Local-move i (core_of x) (core_of x) d refl refl
        (same_self x.engine.active, Drains-self x.engine.draining) l

  commit_for_rekey :
      (b : Bool) (p : HandshakePurpose) (r : Bool)
      → (not b || (not (purpose_eq p rekey) || not r)) ≡ false
      → (p ≡ rekey) × (r ≡ true)
  commit_for_rekey true rekey true h = (refl, refl)
  commit_for_rekey true rekey false h = ground arith
  commit_for_rekey true initial r h = ground arith
  commit_for_rekey false p r h = ground arith

  both : (a b : Bool) → (a && b) ≡ true → b ≡ true
  both true b h = h
  both false b h = ground arith

  names_active :
      (c : CommitPayload) (e : Engine)
      → references_active env c e ≡ true
      → c.previous_session_id ≡ active_session_id e
  unfolding references_active
  names_active c e h =
      option_eq→eq c.previous_session_id (active_session_id e)
        (both (is_some c.previous_session_id) _ h)

  answer_commit-Rekeyed :
      (c : CommitPayload) (b : Bool) (x : Ctx)
      → x.engine.phase ≡ established
      → c.purpose ≡ rekey
      → c.previous_session_id ≡ active_session_id x.engine
      → Rekeyed (core_of x) (core_of (answer_commit env c b x))
  unfolding answer_commit
  answer_commit-Rekeyed c b x p h k =
      let counted = record x { engine = record (x.engine) { consecutive_rekey_rejections = 0 } } in
      let y = start_responder_run env c b counted in
      rekey_answered-Rekeyed env c.previous_session_id x y.0 y.1 p k (
        subst (λ t. Started (IsRun t c.previous_session_id reveal) (core_of x) y) h
          (start_responder_run-Started env c b counted))

  pub on_incoming_commit-Local :
      (c : CommitPayload) (b : Bool) (x : Ctx)
      → x.engine.phase ≡ established
      → Local (core_of x) (core_of (on_incoming_commit env c b x))
  unfolding on_incoming_commit
  on_incoming_commit-Local c b x p =
      elim (Bool-cases (
        not (c.cipher_suite == 1)
        || (not (purpose_eq c.purpose rekey) || not (references_active env c x.engine)))) [
          | inl e ↦ rw (e, on_incoming_commit) (inr (inl (core-note_rekey_rejection x)))
          | inr e ↦
              let h =
                commit_for_rekey (c.cipher_suite == 1) c.purpose (references_active env c x.engine)
                  e in
              rw (e, on_incoming_commit)
                (inr (inr (answer_commit-Rekeyed c b x p h.0 (names_active c x.engine h.1))))
        ]
