-- ===== src/Net/Task/Effects.antt =====
-- What processing the engine's effects does to a task of crates/ruxmsg-net/src/lib.rs.
use ruxmsg.Prelude.{
  ℕ, ◌+◌, ◌≡◌, refl, sym, ap, ◌∙◌, subst, inl, inr, List, [], ◌∷◌, ◌++◌, Bool, true, not,
  Bool-cases, Result-cases, All, if◌then◌else◌, ◌==◌,
}
use ruxmsg.Wire.{Frame, encode}
use ruxmsg.Machine.Types.{
  Env, CloseCause, Effect, send, set_deadline, cancel_deadline, request_sas, deliver, notify,
  close_transport,
}
use ruxmsg.Machine.Effects.Made.{IsQuiet}
use ruxmsg.Machine.Effects.Table.{without, after_effects}
use ruxmsg.Machine.Effects.Closing.{farewell}
use ruxmsg.Net.Task.{
  World, Task, retain_armed, write_bytes, write, send_frame, offer, emit, process_one, process,
}

abbrev pub armed_ids : List (ℕ × ℕ) → List ℕ
armed_ids [] = []
armed_ids ((id, due) ∷ ds) = id ∷ armed_ids ds

armed_ids-append :
    (ds : List (ℕ × ℕ)) (id due : ℕ)
    → armed_ids (ds ++ ((id, due) ∷ [])) ≡ armed_ids ds ++ (id ∷ [])
armed_ids-append [] id due = refl
armed_ids-append ((a, b) ∷ ds) id due = ap (λ t. a ∷ t) (armed_ids-append ds id due)

pub armed_ids-retain_armed :
    (id : ℕ) (ds : List (ℕ × ℕ)) → armed_ids (retain_armed id ds) ≡ without id (armed_ids ds)
unfolding retain_armed without
armed_ids-retain_armed id [] = refl
armed_ids-retain_armed id ((a, b) ∷ ds) = elim (Bool-cases (a == id)) [
  | inl e ↦ rw (e, retain_armed, without) (armed_ids-retain_armed id ds)
  | inr e ↦ rw (e, retain_armed, without) (ap (λ t. a ∷ t) (armed_ids-retain_armed id ds))
]

abbrev pub closes_one : Effect → Bool → Bool
closes_one close_transport b = true
closes_one _ b = b

-- Whether the transport is to be closed after the effects.
abbrev pub closes : List Effect → Bool → Bool
closes [] b = b
closes (e ∷ es) b = closes es (closes_one e b)

-- The parts of a task that the reactions to writing and telling leave alone.
abbrev pub Same : Task → Task → Type 0
Same t u =
    (u.engine ≡ t.engine)
    × (u.decoder ≡ t.decoder)
    × (u.deadlines ≡ t.deadlines)
    × (u.closing ≡ t.closing)

-- What processing does.
abbrev pub Processed : List Effect → Task → Task → Type 0
Processed es t u =
    (u.engine ≡ t.engine)
    × (u.decoder ≡ t.decoder)
    × (armed_ids u.deadlines ≡ after_effects es (armed_ids t.deadlines))
    × (u.closing ≡ closes es t.closing)

module _ (env : Env) (world : World) where
  write-Same : (f : Frame) (t : Task) → Same t (write env world f t).0
  unfolding write write_bytes
  write-Same f t = elim (Result-cases (encode f)) [
    | inl (bytes, e) ↦ rw (e, write) (refl, refl, refl, refl)
    | inr (er, e) ↦ rw (e, write) (refl, refl, refl, refl)
  ]

  send_frame-Same : (f : Frame) (t : Task) → Same t (send_frame env world f t)
  unfolding send_frame
  send_frame-Same f t = elim (Bool-cases t.lost) [
    | inl e ↦ subst (λ b. Same t (if b then t else after)) (sym e) (refl, refl, refl, refl)
    | inr e ↦ subst (λ b. Same t (if b then t else after)) (sym e) (write-Same f t)
  ]
    where
      after : Task
      after = record ((write env world f t).0) { lost = not (write env world f t).1 }

  process_one-Processed : (e : Effect) (t : Task) → Processed (e ∷ []) t (process_one env world e t)
  unfolding process_one emit offer
  process_one-Processed (send f) t =
      let (a, b, c, d) = send_frame-Same f t in (a, b, ap armed_ids c, d)
  process_one-Processed (set_deadline id kind after) t =
      (refl, refl, armed_ids-append t.deadlines id (world.now t.looks + after), refl)
  process_one-Processed (cancel_deadline id) t =
      (refl, refl, armed_ids-retain_armed id t.deadlines, refl)
  process_one-Processed (request_sas words peer) t = (refl, refl, refl, refl)
  process_one-Processed (deliver content) t = (refl, refl, refl, refl)
  process_one-Processed (notify event) t = (refl, refl, refl, refl)
  process_one-Processed close_transport t = (refl, refl, refl, refl)

  pub process-Processed : (es : List Effect) (t : Task) → Processed es t (process env world es t)
  unfolding process
  process-Processed [] t = (refl, refl, refl, refl)
  process-Processed (e ∷ es) t =
      let (a, b, c, d) = process_one-Processed e t in
      let (a', b', c', d') = process-Processed es (process_one env world e t) in
      (a' ∙ a, b' ∙ b, c' ∙ ap (after_effects es) c, d' ∙ ap (closes es) d)

-- Quiet effects close nothing; a farewell does.
pub closes_quiet : (es : List Effect) (b : Bool) → All IsQuiet es → closes es b ≡ b
closes_quiet [] b h = refl
closes_quiet (e ∷ es) b h = ap (closes es) (one e b h.0) ∙ closes_quiet es b h.1
  where
    one : (e : Effect) (b : Bool) → IsQuiet e → closes_one e b ≡ b
    one close_transport b h = absurd h
    one _ b h = refl

pub closes-farewell :
    (es : List Effect) (cause : CloseCause) (b : Bool) → closes (es ++ farewell cause) b ≡ true
closes-farewell [] cause b = refl
closes-farewell (e ∷ es) cause b = closes-farewell es cause (closes_one e b)
