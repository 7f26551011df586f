-- ===== src/Machine/Effects/Made.antt =====
-- The ways in which a context grows, and the end of a connection.
use ruxmsg.Prelude.{ℕ, ◌+◌, ◌≡◌, ◌≢◌, refl, ◌⊎◌, inl, inr, Option, Error, Bool-cases, ltb, ◌==◌}
use ruxmsg.Protocol.{HandshakePurpose, handshake_frame_timeout_secs, rekey_retry_secs}
use ruxmsg.Close.{CloseReason}
use ruxmsg.Machine.Types.{
  Env, DeadlineKind, handshake_frame, handshake_total, rekey_due, CloseCause, Event, session_closed,
  rekey_failed, failed_repeated, Effect, set_deadline, cancel_deadline, notify, close_transport,
  closed, Step, Ctx, emit, rekey_rejection_warning_threshold,
}
use ruxmsg.Machine.Deadlines.{
  cancel, arm, is_bounded, rearm_frame_deadline, terminate, initial_failure, fail_initial,
  fail_rekey, failure_of, note_rekey_rejection,
}

-- Events and effects that do not end the connection, and those that change no deadline either.
abbrev pub IsQuietEvent : Event → Type 0
IsQuietEvent (session_closed cause) = ⊥
IsQuietEvent _ = Unit {0}

abbrev pub IsQuiet : Effect → Type 0
IsQuiet close_transport = ⊥
IsQuiet (notify event) = IsQuietEvent event
IsQuiet _ = Unit {0}

abbrev pub IsPlain : Effect → Type 0
IsPlain (set_deadline id kind after) = ⊥
IsPlain (cancel_deadline id) = ⊥
IsPlain close_transport = ⊥
IsPlain (notify event) = IsQuietEvent event
IsPlain _ = Unit {0}

-- The phase is not turned into `closed`.
abbrev pub StaysOpen : Ctx → Ctx → Type 0
StaysOpen x y = (y.engine.phase ≡ x.engine.phase) ⊎ (y.engine.phase ≢ closed)

pub data Made : Ctx → Ctx → Type 0 where
  rests :
      {x y : Ctx}
      → y.out ≡ x.out
      → y.engine.deadlines ≡ x.engine.deadlines
      → y.engine.next_deadline ≡ x.engine.next_deadline
      → StaysOpen x y
      → Made x y
  emits : {x : Ctx} (e : Effect) → IsPlain e → Made x (emit x e)
  cancels : {x : Ctx} (kind : DeadlineKind) → Made x (cancel kind x)
  arms : {x : Ctx} (kind : DeadlineKind) (after : ℕ) → Made x (arm kind after x)
  joins : {x y z : Ctx} → Made x y → Made y z → Made x z

pub data Does (env : Env) : Ctx → Ctx → Type 0 where
  goes_on : {x y : Ctx} → Made x y → Does env x y
  ends :
      {x m : Ctx} (cause : CloseCause) (reason : Option CloseReason)
      → Made x m
      → Does env x (terminate env cause reason m)

abbrev pub made_self : (x : Ctx) → Made x x
made_self x = rests refl refl refl (inl refl)

pub rearm_frame_deadline-Made :
    (purpose : HandshakePurpose) (step : Step) (x : Ctx)
    → Made x (rearm_frame_deadline purpose step x)
unfolding rearm_frame_deadline
rearm_frame_deadline-Made purpose step x = elim (Bool-cases (is_bounded purpose step)) [
  | inl e ↦
      rw (e, rearm_frame_deadline)
        (joins (cancels handshake_frame) (arms handshake_frame handshake_frame_timeout_secs))
  | inr e ↦ rw (e, rearm_frame_deadline) (cancels handshake_frame)
]

pub fail_rekey-Made : (e : Error) (x : Ctx) → Made x (fail_rekey e x)
unfolding fail_rekey
fail_rekey-Made e x = joins (rests refl refl refl (inl refl)) (
    joins (cancels handshake_frame) (
      joins (cancels handshake_total) (
        joins (rests refl refl refl (inl refl)) (
          joins (arms rekey_due rekey_retry_secs)
            (emits (notify (rekey_failed (failure_of e))) tt)))))

pub note_rekey_rejection-Made : (x : Ctx) → Made x (note_rekey_rejection x)
unfolding note_rekey_rejection
note_rekey_rejection-Made x =
    let n = x.engine.consecutive_rekey_rejections in
    elim (Bool-cases (ltb n rekey_rejection_warning_threshold)) [
      | inr e ↦ rw (e, note_rekey_rejection) (made_self x)
      | inl e ↦ elim (Bool-cases (n + 1 == rekey_rejection_warning_threshold)) [
        | inr k ↦ rw (e, k, note_rekey_rejection) (rests refl refl refl (inl refl))
        | inl k ↦
            rw (e, k, note_rekey_rejection)
              (joins (rests refl refl refl (inl refl))
                (emits (notify (rekey_failed failed_repeated)) tt))
      ]
    ]

module _ (env : Env) where
  pub fail_initial-Does : (e : Error) (x y : Ctx) → Made x y → Does env x (fail_initial env e y)
  unfolding fail_initial
  fail_initial-Does e x y m =
      let (cause, reason) = initial_failure env e in ends cause (Option.some reason) m

  pub Does-after : (x y z : Ctx) → Made x y → Does env y z → Does env x z
  Does-after x y z m (goes_on k) = goes_on (joins m k)
  Does-after x y z m (ends cause reason k) = ends cause reason (joins m k)
