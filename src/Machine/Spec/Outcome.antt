-- ===== src/Machine/Spec/Outcome.antt =====
-- What one frame does to a handshake run.
use ruxmsg.Prelude.{
  ◌≡◌, refl, ◌∙◌, inl, inr, some, none, ok, err, Result-cases, Bool-cases, Option-cases, is_some,
  ◌&&◌, not,
}
use ruxmsg.Protocol.{
  Bytes, HandshakePurpose, initial, rekey, PeerIdentity, handshake_message, message_type_eq,
}
use ruxmsg.Wire.{Frame}
use ruxmsg.Handshake.Hello.{HelloRole, initiator, responder, HelloPayload, role_eq}
use ruxmsg.Machine.Types.{
  Env, Step, hello, reveal, sas, auth_resp, auth_init, confirm_resp, confirm_init, Run, Ctx, emit,
  send,
}
use ruxmsg.Machine.Steps.{
  Stepped, Answer, answer_auth_init, answered, step_auth_init, answer_auth_resp, step_auth_resp,
  initiator_auth, check_agreed, approve_initiator, approve_responder, approve_as, after_approval,
  agree, agreed, continue_as, after_hellos, accept_responder_hello, step_hello, accept_reveal,
  step_reveal, step_sas, confirm_by_responder, step_confirm_resp, answer_confirm_init, candidate_of,
  step_confirm_init, step_at, step_run,
}
use ruxmsg.Machine.Spec.Core.{core_of, core-rearm_frame_deadline, core-ask_sas}

-- The order of the steps in an initial handshake; a rekey goes on without the SAS.
abbrev pub FollowsInitial : Step → Step → Type 0
FollowsInitial hello s = s ≡ sas
FollowsInitial reveal s = s ≡ sas
FollowsInitial sas s = s ≡ sas
FollowsInitial auth_resp s = s ≡ confirm_resp
FollowsInitial auth_init s = s ≡ confirm_init
FollowsInitial _ s = ⊥

abbrev pub IsLate : Step → Type 0
IsLate auth_resp = Unit {0}
IsLate auth_init = Unit {0}
IsLate confirm_resp = Unit {0}
IsLate confirm_init = Unit {0}
IsLate _ = ⊥

abbrev pub FollowsRekey : Step → Step → Type 0
FollowsRekey hello s = IsLate s
FollowsRekey reveal s = IsLate s
FollowsRekey sas s = s ≡ sas
FollowsRekey auth_resp s = s ≡ confirm_resp
FollowsRekey auth_init s = s ≡ confirm_init
FollowsRekey _ s = ⊥

abbrev pub Follows : HandshakePurpose → Step → Step → Type 0
Follows initial = FollowsInitial
Follows rekey = FollowsRekey

abbrev pub IsConfirm : Step → Type 0
IsConfirm confirm_resp = Unit {0}
IsConfirm confirm_init = Unit {0}
IsConfirm _ = ⊥

-- The part of a run that is fixed when it starts.
abbrev pub SameRun : Run → Run → Type 0
SameRun r r' = (r'.purpose ≡ r.purpose) × (r'.previous ≡ r.previous) × (r'.role ≡ r.role)

-- What a step may return, `next` being where the run may stand after it and `last` whether it may
-- produce a candidate.
abbrev pub Outcome : (Step → Type 0) → Type 0 → Run → Ctx → Stepped → Type 0
Outcome next last r x (x', r', ok none) = (core_of x' ≡ core_of x) × SameRun r r' × next r'.step
Outcome next last r x (x', r', ok (some c)) = (core_of x' ≡ core_of x) × last
Outcome next last r x (x', r', err e) = core_of x' ≡ core_of x

module _ (env : Env) where
  answered-Outcome :
      (s : Step) (a : Answer) (r : Run) (x : Ctx)
      → Outcome (λ t. t ≡ s) ⊥ r x (answered env s a r x)
  unfolding answered
  answered-Outcome s a r x =
      (core-rearm_frame_deadline r.purpose s (emit x (send a.frame)), (refl, refl, refl), refl)

  step_auth_init-Outcome :
      (r : Run) (f : Frame) (x : Ctx)
      → Outcome (λ t. t ≡ confirm_init) ⊥ r x (step_auth_init env r f x)
  unfolding step_auth_init
  step_auth_init-Outcome r f x = elim (Result-cases (answer_auth_init env x.engine r f)) [
    | inl (a, e) ↦ rw (e, step_auth_init) (answered-Outcome confirm_init a r x)
    | inr (er, e) ↦ rw (e, step_auth_init) refl
  ]

  step_auth_resp-Outcome :
      (r : Run) (f : Frame) (x : Ctx)
      → Outcome (λ t. t ≡ confirm_resp) ⊥ r x (step_auth_resp env r f x)
  unfolding step_auth_resp
  step_auth_resp-Outcome r f x = elim (Result-cases (answer_auth_resp env r f)) [
    | inl (a, e) ↦ rw (e, step_auth_resp) (answered-Outcome confirm_resp a r x)
    | inr (er, e) ↦ rw (e, step_auth_resp) refl
  ]

  approve_initiator-Outcome : (r : Run) (x : Ctx) → Outcome IsLate ⊥ r x (approve_initiator env r x)
  unfolding approve_initiator
  approve_initiator-Outcome r x = elim (Result-cases (initiator_auth env x.engine r)) [
    | inl (f, e) ↦
        rw (e, approve_initiator)
          (core-rearm_frame_deadline r.purpose auth_resp (emit x (send f)), (refl, refl, refl), tt)
    | inr (er, e) ↦ rw (e, approve_initiator) refl
  ]

  -- An outcome at one step after the run's early frame was taken.
  weaken :
      (r r₁ : Run) (x : Ctx) (t : Stepped)
      → SameRun r r₁
      → Outcome (λ s. s ≡ confirm_init) ⊥ r₁ x t
      → Outcome IsLate ⊥ r x t
  weaken r r₁ x (x', r', ok none) same o =
      (o.0, (o.1.0 ∙ same.0, o.1.1 ∙ same.1, o.1.2 ∙ same.2), rw o.2 tt)
  weaken r r₁ x (x', r', ok (some c)) same o = (o.0, o.1)
  weaken r r₁ x (x', r', err e) same o = o

  approve_responder-Outcome : (r : Run) (x : Ctx) → Outcome IsLate ⊥ r x (approve_responder env r x)
  unfolding approve_responder
  approve_responder-Outcome r x = elim (Result-cases (check_agreed env r)) [
    | inr (er, e) ↦ rw (e, approve_responder) refl
    | inl (u, e) ↦ elim (Option-cases r.early) [
      | inl no_early ↦
          rw (e, no_early, approve_responder)
            (core-rearm_frame_deadline r.purpose auth_init x, (refl, refl, refl), tt)
      | inr (f, early) ↦
          rw (e, early, approve_responder)
            (weaken r (record r { step = auth_init; early = none }) x
              (step_auth_init env (record r { step = auth_init; early = none }) f x)
              (refl, refl, refl)
              (step_auth_init-Outcome (record r { step = auth_init; early = none }) f x))
    ]
  ]

  approve_as-Outcome :
      (role : HelloRole) (r : Run) (x : Ctx) → Outcome IsLate ⊥ r x (approve_as env role r x)
  unfolding approve_as
  approve_as-Outcome initiator r x = approve_initiator-Outcome r x
  approve_as-Outcome responder r x = approve_responder-Outcome r x

  pub after_approval-Outcome : (r : Run) (x : Ctx) → Outcome IsLate ⊥ r x (after_approval env r x)
  unfolding after_approval
  after_approval-Outcome r x = approve_as-Outcome r.role r x

  -- What follows both HELLOs: the SAS, or for a rekey what follows its approval.
  abbrev AfterHellos : HandshakePurpose → Step → Type 0
  AfterHellos initial s = s ≡ sas
  AfterHellos rekey s = IsLate s

  continue_as-Outcome :
      (p : HandshakePurpose) (r : Run) (hash : Bytes) (peer : PeerIdentity) (x : Ctx)
      → Outcome (AfterHellos p) ⊥ r x (continue_as env p r hash peer x)
  unfolding continue_as
  continue_as-Outcome initial r hash peer x =
      (core-ask_sas env hash peer x, (refl, refl, refl), refl)
  continue_as-Outcome rekey r hash peer x = after_approval-Outcome r x

  -- An outcome for a run with the same fixed part, from a context with the same core.
  transfer :
      (next : Step → Type 0) (last : Type 0) (r r₁ : Run) (x x₁ : Ctx) (t : Stepped)
      → SameRun r r₁
      → core_of x₁ ≡ core_of x
      → Outcome next last r₁ x₁ t
      → Outcome next last r x t
  transfer next last r r₁ x x₁ (x', r', ok none) same c o =
      (o.0 ∙ c, (o.1.0 ∙ same.0, o.1.1 ∙ same.1, o.1.2 ∙ same.2), o.2)
  transfer next last r r₁ x x₁ (x', r', ok (some k)) same c o = (o.0 ∙ c, o.1)
  transfer next last r r₁ x x₁ (x', r', err e) same c o = o ∙ c

  after_hellos-Outcome :
      (r : Run) (h : HelloPayload) (x : Ctx)
      → Outcome (AfterHellos r.purpose) ⊥ r x (after_hellos env r h x)
  unfolding after_hellos agreed
  after_hellos-Outcome r h x = elim (Result-cases (agree env r h)) [
    | inr (er, e) ↦ rw (e, after_hellos) refl
    | inl (a, e) ↦
        rw (e, after_hellos)
          (transfer (AfterHellos r.purpose) ⊥ r (agreed env r h a) x x
            (continue_as env r.purpose (agreed env r h a) a.hash h.identity_public_key x)
            (refl, refl, refl) refl
            (continue_as-Outcome r.purpose (agreed env r h a) a.hash h.identity_public_key x))
  ]

  step_hello-Outcome :
      (r : Run) (f : Frame) (x : Ctx) → Outcome (AfterHellos r.purpose) ⊥ r x (step_hello env r f x)
  unfolding step_hello
  step_hello-Outcome r f x = elim (Result-cases (accept_responder_hello env x.engine r f)) [
    | inr (er, e) ↦ rw (e, step_hello) refl
    | inl ((h, revealed), e) ↦
        rw (e, step_hello)
          (transfer (AfterHellos r.purpose) ⊥ r (record r { local_hello_frame = none }) x
            (emit x (send revealed))
            (after_hellos env (record r { local_hello_frame = none }) h (emit x (send revealed)))
            (refl, refl, refl) refl
            (after_hellos-Outcome (record r { local_hello_frame = none }) h
              (emit x (send revealed))))
  ]

  step_reveal-Outcome :
      (r : Run) (f : Frame) (x : Ctx)
      → Outcome (AfterHellos r.purpose) ⊥ r x (step_reveal env r f x)
  unfolding step_reveal
  step_reveal-Outcome r f x = elim (Result-cases (accept_reveal env x.engine r f)) [
    | inr (er, e) ↦ rw (e, step_reveal) refl
    | inl (h, e) ↦ rw (e, step_reveal) (after_hellos-Outcome r h x)
  ]

  step_sas-Outcome :
      (r : Run) (f : Frame) (x : Ctx)
      → r.step ≡ sas
      → Outcome (λ s. s ≡ sas) ⊥ r x (step_sas env r f x)
  unfolding step_sas
  step_sas-Outcome r f x at_sas =
      elim (Bool-cases (
        role_eq r.role responder
        && (not (is_some r.early) && message_type_eq f.message_type handshake_message))) [
          | inl e ↦ rw (e, step_sas) (refl, (refl, refl, refl), at_sas)
          | inr e ↦ rw (e, step_sas) refl
        ]

  step_confirm_resp-Outcome :
      (r : Run) (f : Frame) (x : Ctx)
      → Outcome (λ s. ⊥) (Unit {0}) r x (step_confirm_resp env r f x)
  unfolding step_confirm_resp
  step_confirm_resp-Outcome r f x = elim (Result-cases (confirm_by_responder env r f)) [
    | inl (c, e) ↦ rw (e, step_confirm_resp) (refl, tt)
    | inr (er, e) ↦ rw (e, step_confirm_resp) refl
  ]

  step_confirm_init-Outcome :
      (r : Run) (f : Frame) (x : Ctx)
      → Outcome (λ s. ⊥) (Unit {0}) r x (step_confirm_init env r f x)
  unfolding step_confirm_init
  step_confirm_init-Outcome r f x = elim (Result-cases (answer_confirm_init env r f)) [
    | inr (er, e) ↦ rw (e, step_confirm_init) refl
    | inl (a, e) ↦ elim (Result-cases (candidate_of r a.keys)) [
      | inl (c, k) ↦ rw (e, k, step_confirm_init) (refl, tt)
      | inr (er, k) ↦ rw (e, k, step_confirm_init) refl
    ]
  ]

  -- Outcomes under another description of the next step.
  imply :
      (next next' : Step → Type 0) (last last' : Type 0) (r : Run) (x : Ctx) (t : Stepped)
      → ((s : Step) → next s → next' s)
      → (last → last')
      → Outcome next last r x t
      → Outcome next' last' r x t
  imply next next' last last' r x (x', r', ok none) f g o = (o.0, o.1, f r'.step o.2)
  imply next next' last last' r x (x', r', ok (some c)) f g o = (o.0, g o.1)
  imply next next' last last' r x (x', r', err e) f g o = o

  hello-Follows : (p : HandshakePurpose) (s : Step) → AfterHellos p s → Follows p hello s
  hello-Follows initial s h = h
  hello-Follows rekey s h = h

  reveal-Follows : (p : HandshakePurpose) (s : Step) → AfterHellos p s → Follows p reveal s
  reveal-Follows initial s h = h
  reveal-Follows rekey s h = h

  same-Follows :
      (p : HandshakePurpose)
      → ((s : Step) → s ≡ sas → Follows p sas s)
        × ((s : Step) → s ≡ confirm_resp → Follows p auth_resp s)
        × ((s : Step) → s ≡ confirm_init → Follows p auth_init s)
  same-Follows initial = (λ s h. h, λ s h. h, λ s h. h)
  same-Follows rekey = (λ s h. h, λ s h. h, λ s h. h)

  step_at-Outcome :
      (at : Step) (r : Run) (f : Frame) (x : Ctx)
      → r.step ≡ at
      → Outcome (Follows r.purpose at) (IsConfirm at) r x (step_at env at r f x)
  unfolding step_at
  step_at-Outcome hello r f x h =
      imply _ _ ⊥ _ r x (step_hello env r f x) (hello-Follows r.purpose) (λ b. b)
        (step_hello-Outcome r f x)
  step_at-Outcome reveal r f x h =
      imply _ _ ⊥ _ r x (step_reveal env r f x) (reveal-Follows r.purpose) (λ b. b)
        (step_reveal-Outcome r f x)
  step_at-Outcome sas r f x h =
      imply _ _ ⊥ _ r x (step_sas env r f x) (same-Follows r.purpose).0 (λ b. b)
        (step_sas-Outcome r f x h)
  step_at-Outcome auth_resp r f x h =
      imply _ _ ⊥ _ r x (step_auth_resp env r f x) (same-Follows r.purpose).1 (λ b. b)
        (step_auth_resp-Outcome r f x)
  step_at-Outcome auth_init r f x h =
      imply _ _ ⊥ _ r x (step_auth_init env r f x) (same-Follows r.purpose).2 (λ b. b)
        (step_auth_init-Outcome r f x)
  step_at-Outcome confirm_resp r f x h =
      imply (λ s. ⊥) (Follows r.purpose confirm_resp) (Unit {0}) _ r x (step_confirm_resp env r f x)
        (λ s b. absurd b) (λ b. b) (step_confirm_resp-Outcome r f x)
  step_at-Outcome confirm_init r f x h =
      imply (λ s. ⊥) (Follows r.purpose confirm_init) (Unit {0}) _ r x (step_confirm_init env r f x)
        (λ s b. absurd b) (λ b. b) (step_confirm_init-Outcome r f x)

  pub step_run-Outcome :
      (r : Run) (f : Frame) (x : Ctx)
      → Outcome (Follows r.purpose r.step) (IsConfirm r.step) r x (step_run env r f x)
  unfolding step_run
  step_run-Outcome r f x = step_at-Outcome r.step r f x refl
