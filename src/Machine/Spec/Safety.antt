-- ===== src/Machine/Spec/Safety.antt =====
-- What holds of every run of the engine: no session before the SAS is approved, one peer for the
-- life of a session, and nothing after the end.
use ruxmsg.Prelude.{
  ◌≡◌, refl, sym, ◌∙◌, ap, subst, ◌⊎◌, inl, inr, List, [], ◌∷◌, Option, some, none, true, false,
  arith,
}
use ruxmsg.Handshake.Hello.{HelloRole}
use ruxmsg.Machine.Types.{
  Env, Phase, idle, handshaking, established, closed, Step, hello, reveal, sas, auth_resp,
  auth_init, confirm_resp, confirm_init, Run, Session, Engine, Ctx, Input, start_input,
  frame_received, sas_decision, local_send, local_close, request_rekey, timeout, transport_closed,
  malformed,
}
use ruxmsg.Machine.Spec.Core.{Core, core, core_of}
use ruxmsg.Machine.Spec.Outcome.{IsLate}
use ruxmsg.Machine.Spec.Moves.{
  SameSession, EarlyStep, EarlyRun, LateRun, Moves, keeps, shuts, opens, early, approves, late,
  establishes, Valid,
}
use ruxmsg.Prelude.{◌≢◌}
use ruxmsg.Machine.Spec.Moves.{rekeys, supersedes}
use ruxmsg.Protocol.{PeerIdentity}
use ruxmsg.Machine.Handle.{handle_in, handle, run}
use ruxmsg.Crypto.{IdentityKeypair}
use ruxmsg.Machine.Types.{new}
use ruxmsg.Machine.Spec.Refine.{handle-Moves, handle-Valid}

-- Some input approves the SAS.
abbrev pub Approved : List Input → Type 0
Approved [] = ⊥
Approved (i ∷ is) = (i ≡ sas_decision true) ⊎ Approved is

is_approval : (i : Input) → (i ≡ sas_decision true) ⊎ (i ≢ sas_decision true)
is_approval (sas_decision true) = inl refl
is_approval (sas_decision false) = inr (λ q. ground arith)
is_approval start_input = inr (λ q. ground arith)
is_approval (frame_received f) = inr (λ q. ground arith)
is_approval (local_send c) = inr (λ q. ground arith)
is_approval (local_close r) = inr (λ q. ground arith)
is_approval request_rekey = inr (λ q. ground arith)
is_approval (timeout id) = inr (λ q. ground arith)
is_approval transport_closed = inr (λ q. ground arith)
is_approval (malformed b) = inr (λ q. ground arith)

-- Before the approval: idle, ended, or in the first half of the handshake.
abbrev pub BeforeIn : Phase → Core → Type 0
BeforeIn idle c = c.run ≡ none
BeforeIn handshaking c = EarlyRun c.run
BeforeIn established c = ⊥
BeforeIn closed c = Unit {0}

before_out : (p : Phase) (c : Core) → c.phase ≡ p → BeforeIn c.phase c → BeforeIn p c
before_out p c e b = subst (λ q. BeforeIn q c) e b

before_in : (p : Phase) (c : Core) → c.phase ≡ p → BeforeIn p c → BeforeIn c.phase c
before_in p c e b = subst (λ q. BeforeIn q c) (sym e) b

not_both : (r : Option Run) → EarlyRun r → LateRun r → ⊥
not_both none e l = l
not_both (some r) e l = halves r.step e.2 l.2
  where
    halves : (s : Step) → EarlyStep s → IsLate s → ⊥
    halves hello e l = l
    halves reveal e l = l
    halves sas e l = l
    halves auth_resp e l = e
    halves auth_init e l = e
    halves confirm_resp e l = e
    halves confirm_init e l = e

same_before : (p : Phase) (c d : Core) → d.run ≡ c.run → BeforeIn p c → BeforeIn p d
same_before idle c d h b = h ∙ b
same_before handshaking c d h b = subst EarlyRun (sym h) b
same_before established c d h b = b
same_before closed c d h b = tt

Moves-before :
    (i : Input) (c d : Core)
    → i ≢ sas_decision true
    → Moves i c d
    → BeforeIn c.phase c
    → BeforeIn d.phase d
Moves-before i c d n (keeps p r s) b = before_in c.phase d p (same_before c.phase c d r b)
Moves-before i c d n (shuts e) b = before_in closed d (ap (λ t. t.phase) e) tt
Moves-before i c d n (opens _ p q r _ _) b = before_in handshaking d q r
Moves-before i c d n (early p _ q r _ _) b = before_in handshaking d q r
Moves-before i c d n (approves a _ _ _ _ _ _) b = absurd (n a)
Moves-before i c d n (late p l _ _ _ _) b = absurd (not_both c.run (before_out handshaking c p b) l)
Moves-before i c d n (establishes s p l _ _ _ _) b =
    absurd (not_both c.run (before_out handshaking c p b) l)
Moves-before i c d n (rekeys p _ _ _) b = absurd (before_out established c p b)
Moves-before i c d n (supersedes s t p _ _ _ _ _ _ _) b = absurd (before_out established c p b)

-- A session stays with its peer until the engine closes.
abbrev pub WithPeer : PeerIdentity → Core → Type 0
WithPeer peer c =
    (c.phase ≡ closed)
    ⊎ ((c.phase ≡ established) × ((s : Session) × (c.active ≡ some s) × (s.peer ≡ peer)))

same_peer :
    (o o' : Option Session) (s : Session) (peer : PeerIdentity)
    → SameSession o o'
    → o ≡ some s
    → s.peer ≡ peer
    → (t : Session) × (o' ≡ some t) × (t.peer ≡ peer)
same_peer o none s peer h e k = absurd (subst (λ u. SameSession u none) e h)
same_peer o (some t) s peer h e k = (t, refl, (subst (λ u. SameSession u (some t)) e h).1 ∙ k)

phase_clash : (p : Phase) → p ≡ established → (p ≡ idle) ⊎ (p ≡ handshaking) → ⊥
phase_clash p h (inl k) = ground arith
phase_clash p h (inr k) = ground arith

some_is : (s t : Session) → ◌≡◌ {A = Option Session} (some s) (some t) → s ≡ t
some_is s t h = ground arith

Moves-peer :
    (i : Input) (c d : Core) (s : Session) (peer : PeerIdentity)
    → Moves i c d
    → c.phase ≡ established
    → c.active ≡ some s
    → s.peer ≡ peer
    → WithPeer peer d
Moves-peer i c d s peer (keeps p r k) h a e =
    inr (p ∙ h, same_peer c.active d.active s peer k.0 a e)
Moves-peer i c d s peer (shuts q) h a e = inl (ap (λ t. t.phase) q)
Moves-peer i c d s peer (opens _ p _ _ _ _) h a e = absurd (phase_clash c.phase h (inl p))
Moves-peer i c d s peer (early p _ _ _ _ _) h a e = absurd (phase_clash c.phase h (inr p))
Moves-peer i c d s peer (approves _ p _ _ _ _ _) h a e = absurd (phase_clash c.phase h (inr p))
Moves-peer i c d s peer (late p _ _ _ _ _) h a e = absurd (phase_clash c.phase h (inr p))
Moves-peer i c d s peer (establishes t p _ _ _ _ _) h a e = absurd (phase_clash c.phase h (inr p))
Moves-peer i c d s peer (rekeys p q r k) h a e = inr (q, same_peer c.active d.active s peer k.0 a e)
Moves-peer i c d s peer (supersedes s' t p k q _ b _ m _) h a e =
    let u = same_peer c.active (some s') s peer k a e in
    inr (q, (t, b, m ∙ (ap (λ (w : Session). w.peer) (some_is s' u.0 u.1) ∙ u.2)))

module _ (env : Env) where
  -- From an engine whose core is valid, every run of inputs leads to one whose core is valid: no
  -- session and no run while idle or closed; while handshaking no session, and either no run or an
  -- initial one at a step on one side of the SAS decision; while established an active session, and
  -- either no run or a rekey run that names it.
  pub run-Valid :
      (inputs : List Input) (e : Engine) → Valid (core e) → Valid (core (run env e inputs))
  unfolding run
  run-Valid [] e v = v
  run-Valid (i ∷ is) e v = run-Valid is (handle env e i).engine (handle-Valid env e i v)

  run-Approved :
      (inputs : List Input) (e : Engine)
      → Valid (core e)
      → BeforeIn e.phase (core e)
      → (run env e inputs).phase ≡ established
      → Approved inputs
  unfolding run
  run-Approved [] e v b h = absurd (before_out established (core e) h b)
  run-Approved (i ∷ is) e v b h = elim (is_approval i) [
    | inl a ↦ inl a
    | inr n ↦ inr (
        run-Approved is (handle env e i).engine (handle-Valid env e i v)
          (Moves-before i (core e) (core_of (handle env e i)) n (handle-Moves env e i v) b) h)
  ]

  -- No inputs bring a new engine, of either role, to an established session unless one of them
  -- approves the SAS.
  pub run_not-Approved :
      (role : HelloRole) (id : IdentityKeypair) (inputs : List Input)
      → ¬ Approved inputs
      → (run env (new role id) inputs).phase ≢ established
  unfolding new
  run_not-Approved role id inputs n h =
      n (run-Approved inputs (new role id) (refl, refl, refl) refl h)

  -- A closed engine ignores every input and answers none.
  pub handle_closed :
      (e : Engine) (i : Input) → e.phase ≡ closed → handle env e i ≡ record { engine = e; out = [] }
  unfolding handle handle_in
  handle_closed e i h = ap (λ p. handle_in env p i (record { engine = e; out = [] })) h

  run_closed : (inputs : List Input) (e : Engine) → e.phase ≡ closed → run env e inputs ≡ e
  unfolding run
  run_closed [] e h = refl
  run_closed (i ∷ is) e h =
      ap (λ (x : Ctx). run env x.engine is) (handle_closed e i h) ∙ run_closed is e h

  -- An engine with a valid core that is closed, or established with a peer, is after any inputs
  -- closed, or established with the same peer: no rekey changes it.
  pub run-WithPeer :
      (inputs : List Input) (e : Engine) (peer : PeerIdentity)
      → Valid (core e)
      → WithPeer peer (core e)
      → WithPeer peer (core (run env e inputs))
  unfolding run
  run-WithPeer [] e peer v w = w
  run-WithPeer (i ∷ is) e peer v (inl c) =
      subst (λ t. WithPeer peer (core t)) (sym (run_closed (i ∷ is) e c)) (inl c)
  run-WithPeer (i ∷ is) e peer v (inr (h, (s, a, k))) =
      run-WithPeer is (handle env e i).engine peer (handle-Valid env e i v)
        (Moves-peer i (core e) (core_of (handle env e i)) s peer (handle-Moves env e i v) h a k)
