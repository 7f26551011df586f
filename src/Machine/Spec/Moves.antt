-- ===== src/Machine/Spec/Moves.antt =====
-- The moves of the abstract protocol machine, and its invariant.
use ruxmsg.Prelude.{
  subst, ◌≡◌, ◌≢◌, refl, sym, ◌∙◌, ap, ◌⊎◌, inl, inr, Option, some, none, true, arith,
}
use ruxmsg.Protocol.{initial, rekey}
use ruxmsg.Machine.Types.{
  Phase, idle, handshaking, established, closed, Step, hello, reveal, sas, Run, Session,
  session_id_of, Input, start_input, sas_decision,
}
use ruxmsg.Machine.Spec.Core.{Core, closed_core}
use ruxmsg.Machine.Spec.Outcome.{IsLate}

-- A session whose ratchets may have moved on.
abbrev pub SameSession : Option Session → Option Session → Type 0
SameSession none none = Unit {0}
SameSession (some s) (some t) = (t.id ≡ s.id) × (t.peer ≡ s.peer)
SameSession _ _ = ⊥

-- The superseded session, which may also be given up.
abbrev pub Drains : Option Session → Option Session → Type 0
Drains s none = Unit {0}
Drains none (some t) = ⊥
Drains (some s) (some t) = (t.id ≡ s.id) × (t.peer ≡ s.peer)

-- Before the SAS decision, and after it.
abbrev pub EarlyStep : Step → Type 0
EarlyStep hello = Unit {0}
EarlyStep reveal = Unit {0}
EarlyStep sas = Unit {0}
EarlyStep _ = ⊥

-- No run, as while a responder waits for COMMIT, or an initial run at such a step.
abbrev pub EarlyRun : Option Run → Type 0
EarlyRun none = Unit {0}
EarlyRun (some r) = (r.purpose ≡ initial) × (r.previous ≡ none) × EarlyStep r.step

abbrev pub SasRun : Option Run → Type 0
SasRun none = ⊥
SasRun (some r) = (r.purpose ≡ initial) × (r.previous ≡ none) × (r.step ≡ sas)

abbrev pub LateRun : Option Run → Type 0
LateRun none = ⊥
LateRun (some r) = (r.purpose ≡ initial) × (r.previous ≡ none) × IsLate r.step

-- No run, or a rekey run that names the active session as the one to replace.
abbrev pub RekeyRun : Option Session → Option Run → Type 0
RekeyRun active none = Unit {0}
RekeyRun active (some r) = (r.purpose ≡ rekey) × (r.previous ≡ session_id_of active)

abbrev pub Sessions : Core → Core → Type 0
Sessions c d = SameSession c.active d.active × Drains c.draining d.draining

-- What the input `i` may do to the core `c`.
pub data Moves (i : Input) (c d : Core) : Type 0 where
  -- Nothing but progress of the ratchets and the end of a drain.
  keeps : d.phase ≡ c.phase → d.run ≡ c.run → Sessions c d → Moves i c d
  -- The end of everything.
  shuts : d ≡ closed_core → Moves i c d
  -- START: the handshake begins.
  opens :
      i ≡ start_input
      → c.phase ≡ idle
      → d.phase ≡ handshaking
      → EarlyRun d.run
      → d.active ≡ c.active
      → d.draining ≡ c.draining
      → Moves i c d
  -- A frame within the handshake's first half.
  early :
      c.phase ≡ handshaking
      → EarlyRun c.run
      → d.phase ≡ handshaking
      → EarlyRun d.run
      → d.active ≡ c.active
      → d.draining ≡ c.draining
      → Moves i c d
  -- The user approves the SAS: the only way into the second half.
  approves :
      i ≡ sas_decision true
      → c.phase ≡ handshaking
      → SasRun c.run
      → d.phase ≡ handshaking
      → LateRun d.run
      → d.active ≡ c.active
      → d.draining ≡ c.draining
      → Moves i c d
  -- A frame within the second half.
  late :
      c.phase ≡ handshaking
      → LateRun c.run
      → d.phase ≡ handshaking
      → LateRun d.run
      → d.active ≡ c.active
      → d.draining ≡ c.draining
      → Moves i c d
  -- The second half completes.
  establishes :
      (s : Session)
      → c.phase ≡ handshaking
      → LateRun c.run
      → d.phase ≡ established
      → d.run ≡ none
      → d.active ≡ some s
      → d.draining ≡ c.draining
      → Moves i c d
  -- A rekey begins, goes on or is given up, and the sessions stay.
  rekeys :
      c.phase ≡ established
      → d.phase ≡ established
      → RekeyRun c.active d.run
      → Sessions c d
      → Moves i c d
  -- A rekey completes: the same peer under a new session ID, and the old session drains.
  supersedes :
      (s t : Session)
      → c.phase ≡ established
      → SameSession c.active (some s)
      → d.phase ≡ established
      → d.run ≡ none
      → d.active ≡ some t
      → d.draining ≡ some s
      → t.peer ≡ s.peer
      → t.id ≢ s.id
      → Moves i c d

-- The invariant of the abstract machine, phase by phase.
abbrev pub ValidIn : Phase → Core → Type 0
ValidIn idle c = (c.run ≡ none) × (c.active ≡ none) × (c.draining ≡ none)
ValidIn handshaking c = (EarlyRun c.run ⊎ LateRun c.run) × (c.active ≡ none) × (c.draining ≡ none)
ValidIn established c = (s : Session) × (c.active ≡ some s) × RekeyRun c.active c.run
ValidIn closed c = (c.run ≡ none) × (c.active ≡ none) × (c.draining ≡ none)

abbrev pub Valid : Core → Type 0
Valid c = ValidIn c.phase c

same_some :
    (s : Session) (o : Option Session)
    → SameSession (some s) o
    → (t : Session) × (o ≡ some t) × (t.id ≡ s.id)
same_some s none h = absurd h
same_some s (some t) h = (t, refl, h.0)

pub same_none : (o : Option Session) → SameSession none o → o ≡ none
same_none none h = refl
same_none (some t) h = absurd h

Drains-none : (o : Option Session) → Drains none o → o ≡ none
Drains-none none h = refl
Drains-none (some t) h = absurd h

pub same_id : (o o' : Option Session) → SameSession o o' → session_id_of o' ≡ session_id_of o
same_id none none h = refl
same_id none (some t) h = absurd h
same_id (some s) none h = absurd h
same_id (some s) (some t) h = ap some h.0

pub rekey_run :
    (o o' : Option Session) (r : Option Run) → SameSession o o' → RekeyRun o r → RekeyRun o' r
rekey_run o o' none h k = tt
rekey_run o o' (some r) h k = (k.0, k.1 ∙ sym (same_id o o' h))

keeps_at : (p : Phase) (c d : Core) → d.run ≡ c.run → Sessions c d → ValidIn p c → ValidIn p d
keeps_at idle c d r s v =
    (r ∙ v.0, same_none d.active (rw v.1 at s.0), Drains-none d.draining (rw v.2 at s.1))
keeps_at handshaking c d r s v =
    (rw r v.0, same_none d.active (rw v.1 at s.0), Drains-none d.draining (rw v.2 at s.1))
keeps_at established c d r s v =
    let t = same_some v.0 d.active (rw v.1 at s.0) in
    (t.0, t.1, rw r (rekey_run c.active d.active c.run s.0 v.2))
keeps_at closed c d r s v =
    (r ∙ v.0, same_none d.active (rw v.1 at s.0), Drains-none d.draining (rw v.2 at s.1))

pub Valid-in : (p : Phase) (d : Core) → d.phase ≡ p → ValidIn p d → Valid d
Valid-in p d e v = subst (λ q. ValidIn q d) (sym e) v

Valid-handshaking :
    (c d : Core)
    → d.phase ≡ handshaking
    → EarlyRun d.run ⊎ LateRun d.run
    → d.active ≡ c.active
    → d.draining ≡ c.draining
    → (c.active ≡ none) × (c.draining ≡ none)
    → Valid d
Valid-handshaking c d p r a b v = Valid-in handshaking d p (r, a ∙ v.0, b ∙ v.1)

-- What a valid core holds in a known phase.
pub Valid-out : (p : Phase) (c : Core) → c.phase ≡ p → Valid c → ValidIn p c
Valid-out p c e v = subst (λ q. ValidIn q c) e v

no-RekeyRun : (o : Option Session) (r : Option Run) → r ≡ none → RekeyRun o r
no-RekeyRun o none h = tt
no-RekeyRun o (some r) h = ground arith

-- Every move keeps the invariant.
pub Moves-Valid : (i : Input) (c d : Core) → Moves i c d → Valid c → Valid d
Moves-Valid i c d (keeps p r s) v = Valid-in c.phase d p (keeps_at c.phase c d r s v)
Moves-Valid i c d (shuts e) v = rw e (refl, refl, refl)
Moves-Valid i c d (opens _ p q r a b) v =
    Valid-handshaking c d q (inl r) a b ((Valid-out idle c p v).1, (Valid-out idle c p v).2)
Moves-Valid i c d (early p _ q r a b) v =
    Valid-handshaking c d q (inl r) a b
      ((Valid-out handshaking c p v).1, (Valid-out handshaking c p v).2)
Moves-Valid i c d (approves _ p _ q r a b) v =
    Valid-handshaking c d q (inr r) a b
      ((Valid-out handshaking c p v).1, (Valid-out handshaking c p v).2)
Moves-Valid i c d (late p _ q r a b) v =
    Valid-handshaking c d q (inr r) a b
      ((Valid-out handshaking c p v).1, (Valid-out handshaking c p v).2)
Moves-Valid i c d (establishes s p _ q r a b) v =
    Valid-in established d q (s, a, no-RekeyRun d.active d.run r)
Moves-Valid i c d (rekeys p q r s) v =
    let w = Valid-out established c p v in
    let t = same_some w.0 d.active (rw w.1 at s.0) in
    Valid-in established d q (t.0, t.1, rekey_run c.active d.active d.run s.0 r)
Moves-Valid i c d (supersedes s t p _ q r a b e n) v =
    Valid-in established d q (t, a, no-RekeyRun d.active d.run r)
