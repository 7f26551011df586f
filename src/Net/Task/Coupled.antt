-- ===== src/Net/Task/Coupled.antt =====
-- The task and its engine close together.
use ruxmsg.Prelude.{
  ◌≡◌, ◌≢◌, refl, sym, ap, ◌∙◌, subst, ◌⊎◌, inl, inr, List, [], Bool, true, false, Bool-cases, not,
  ◌&&◌, is_some, if◌then◌else◌,
}
use ruxmsg.Close.{shutdown}
use ruxmsg.Machine.Types.{
  Env, Effect, Input, start_input, frame_received, sas_decision, local_send, local_close,
  request_rekey, timeout, transport_closed, malformed, Phase, idle, handshaking, established,
  closed, state_of, state, Engine, Ctx,
}
use ruxmsg.Machine.Deadlines.{shut, terminate}
use ruxmsg.Machine.Handle.{dispatch, handle_in, handle}
use ruxmsg.Machine.Effects.Handled.{started_at, handle_closed, handle-Does}
use ruxmsg.Machine.Effects.Closing.{Speaks, Does-Acts}
use ruxmsg.Machine.Effects.Lifetime.{Phase-cases}
use ruxmsg.Net.Task.{World, Task, is_closed_state, hand_over, give_up_lost, give_up_orphaned, apply}
use ruxmsg.Net.Task.Effects.{closes, closes_quiet, closes-farewell, process-Processed}

-- The loop of a task ends just when its engine is closed.
abbrev pub IsCoupled : Task → Type 0
IsCoupled t = t.closing ≡ is_closed_state (state t.engine)

-- Neither the transport nor the consumer is lost.
abbrev pub IsHealthy : Task → Type 0
IsHealthy t = (t.lost ≡ false) × (t.orphaned ≡ false)

state_closed : (e : Engine) → e.phase ≡ closed → is_closed_state (state e) ≡ true
unfolding state state_of
state_closed e h = ap (λ p. is_closed_state (state_of p (is_some e.run))) h

open_in : (p : Phase) (b : Bool) → p ≢ closed → is_closed_state (state_of p b) ≡ false
unfolding state_of
open_in idle b h = refl
open_in handshaking b h = refl
open_in established true h = refl
open_in established false h = refl
open_in closed b h = absurd (h refl)

state_open : (e : Engine) → e.phase ≢ closed → is_closed_state (state e) ≡ false
unfolding state
state_open e h = open_in e.phase (is_some e.run) h

-- The inputs that end a connection from any state.
abbrev pub EndsAll : Input → Type 0
EndsAll transport_closed = Unit {0}
EndsAll (local_close reason) = Unit {0}
EndsAll (malformed respond) = Unit {0}
EndsAll _ = ⊥

module _ (env : Env) where
  dispatch_ends : (i : Input) (x : Ctx) → EndsAll i → (dispatch env i x).engine.phase ≡ closed
  unfolding dispatch terminate shut
  dispatch_ends transport_closed x h = refl
  dispatch_ends (local_close reason) x h = refl
  dispatch_ends (malformed respond) x h = refl
  dispatch_ends start_input x h = absurd h
  dispatch_ends (frame_received f) x h = absurd h
  dispatch_ends (sas_decision b) x h = absurd h
  dispatch_ends (local_send c) x h = absurd h
  dispatch_ends request_rekey x h = absurd h
  dispatch_ends (timeout id) x h = absurd h

  handle_in_ends :
      (p : Phase) (i : Input) (x : Ctx)
      → x.engine.phase ≡ p
      → EndsAll i
      → (handle_in env p i x).engine.phase ≡ closed
  unfolding handle_in
  handle_in_ends closed i x h k = h
  handle_in_ends idle i x h k = dispatch_ends i x k
  handle_in_ends handshaking i x h k = dispatch_ends i x k
  handle_in_ends established i x h k = dispatch_ends i x k

  pub handle_ends : (e : Engine) (i : Input) → EndsAll i → (handle env e i).engine.phase ≡ closed
  unfolding handle
  handle_ends e i k = handle_in_ends e.phase i (record { engine = e; out = [] }) refl k

module _ (env : Env) (world : World) where
  hand_over-engine :
      (i : Input) (t : Task) → (hand_over env world i t).engine ≡ (handle env t.engine i).engine
  unfolding hand_over
  hand_over-engine i t =
      (process-Processed env world (handle env t.engine i).out
        (record t { engine = (handle env t.engine i).engine })).0

  hand_over-decoder : (i : Input) (t : Task) → (hand_over env world i t).decoder ≡ t.decoder
  unfolding hand_over
  hand_over-decoder i t =
      (process-Processed env world (handle env t.engine i).out
        (record t { engine = (handle env t.engine i).engine })).1

  hand_over-closing :
      (i : Input) (t : Task)
      → (hand_over env world i t).closing ≡ closes (handle env t.engine i).out t.closing
  unfolding hand_over
  hand_over-closing i t =
      (process-Processed env world (handle env t.engine i).out
        (record t { engine = (handle env t.engine i).engine })).3

  -- Whether the effects of an input order the end is whether the engine is closed after it.
  closes_spoken :
      (es : List Effect) (e : Engine) → Speaks es e → closes es false ≡ is_closed_state (state e)
  closes_spoken es e (inl (h, q)) = closes_quiet es false q ∙ sym (state_open e h)
  closes_spoken es e (inr (h, d, said, cause, p, q)) =
      ap (λ w. closes w false) p ∙ closes-farewell said cause false ∙ sym (state_closed e h)

  closes_handled :
      (e : Engine) (i : Input) (b : Bool)
      → b ≡ is_closed_state (state e)
      → closes (handle env e i).out b ≡ is_closed_state (state (handle env e i).engine)
  closes_handled e i b c = elim (Phase-cases e.phase) [
    | inl p ↦
        subst (λ y. closes y.out b ≡ is_closed_state (state y.engine))
          (sym (handle_closed env e i p)) c
    | inr n ↦
        let (es, o, s, f, k) =
          Does-Acts env (started_at i e) (handle env e i) n (handle-Does env e i n) in
        ap (closes (handle env e i).out) (c ∙ state_open e n)
        ∙ ap (λ w. closes w false) o
        ∙ closes_spoken es (handle env e i).engine s
  ]

  hand_over-IsCoupled : (i : Input) (t : Task) → IsCoupled t → IsCoupled (hand_over env world i t)
  hand_over-IsCoupled i t c =
      hand_over-closing i t
      ∙ closes_handled t.engine i t.closing c
      ∙ ap (λ e. is_closed_state (state e)) (sym (hand_over-engine i t))

  abbrev given_up : Bool → Input → Task → Task
  given_up b i t =
      if b && not (is_closed_state (state t.engine)) then hand_over env world i t else t

  given_up-IsCoupled : (b : Bool) (i : Input) (t : Task) → IsCoupled t → IsCoupled (given_up b i t)
  given_up-IsCoupled b i t c = elim (Bool-cases (b && not (is_closed_state (state t.engine)))) [
    | inl e ↦
        subst (λ v. IsCoupled (if v then hand_over env world i t else t)) (sym e)
          (hand_over-IsCoupled i t c)
    | inr e ↦ subst (λ v. IsCoupled (if v then hand_over env world i t else t)) (sym e) c
  ]

  given_up-decoder : (b : Bool) (i : Input) (t : Task) → (given_up b i t).decoder ≡ t.decoder
  given_up-decoder b i t = elim (Bool-cases (b && not (is_closed_state (state t.engine)))) [
    | inl e ↦
        subst (λ v. (if v then hand_over env world i t else t).decoder ≡ t.decoder) (sym e)
          (hand_over-decoder i t)
    | inr e ↦
        subst (λ v. (if v then hand_over env world i t else t).decoder ≡ t.decoder) (sym e) refl
  ]

  -- With a reason to give up, the engine is closed; with none, nothing happens.
  given_up-cases :
      (b : Bool) (i : Input) (t : Task)
      → EndsAll i
      → ((b ≡ false) × (given_up b i t ≡ t))
        ⊎ (is_closed_state (state (given_up b i t).engine) ≡ true)
  given_up-cases false i t h = inl (refl, refl)
  given_up-cases true i t h = inr (decided (is_closed_state (state t.engine)) refl)
    where
      decided :
          (v : Bool)
          → is_closed_state (state t.engine) ≡ v
          → is_closed_state (state (if not v then hand_over env world i t else t).engine) ≡ true
      decided true e = e
      decided false e =
          state_closed (hand_over env world i t).engine
            (ap (λ w. w.phase) (hand_over-engine i t) ∙ handle_ends env t.engine i h)

  pub apply-IsCoupled : (i : Input) (t : Task) → IsCoupled t → IsCoupled (apply env world i t)
  unfolding apply give_up_lost give_up_orphaned
  apply-IsCoupled i t c =
      let u = hand_over env world i t in
      given_up-IsCoupled _ (local_close shutdown) (given_up u.lost transport_closed u)
        (given_up-IsCoupled u.lost transport_closed u (hand_over-IsCoupled i t c))

  pub apply-decoder : (i : Input) (t : Task) → (apply env world i t).decoder ≡ t.decoder
  unfolding apply give_up_lost give_up_orphaned
  apply-decoder i t =
      let u = hand_over env world i t in
      given_up-decoder _ (local_close shutdown) (given_up u.lost transport_closed u)
      ∙ given_up-decoder u.lost transport_closed u
      ∙ hand_over-decoder i t

  IsHealthy-or_closed :
      (u : Task)
      → IsHealthy (
          given_up
            (given_up u.lost transport_closed u).orphaned
            (local_close shutdown)
            (given_up u.lost transport_closed u))
        ⊎ (is_closed_state (
              state
                (given_up
                  (given_up u.lost transport_closed u).orphaned
                  (local_close shutdown)
                  (given_up u.lost transport_closed u)).engine)
            ≡ true)
  IsHealthy-or_closed u =
      let v = given_up u.lost transport_closed u in
      elim (given_up-cases v.orphaned (local_close shutdown) v tt) [
        | inr c ↦ inr c
        | inl (o, e) ↦ elim (given_up-cases u.lost transport_closed u tt) [
          | inr c ↦ inr (subst (λ w. is_closed_state (state w.engine) ≡ true) (sym e) c)
          | inl (l, e') ↦ inl (ap (λ w. w.lost) (e ∙ e') ∙ l, ap (λ w. w.orphaned) e ∙ o)
        ]
      ]

  -- After any input, a task that closes just when its engine is closed either has neither lost its
  -- transport nor its consumer, or its engine is closed and its loop ends.
  pub apply-IsHealthy :
      (i : Input) (t : Task)
      → IsCoupled t
      → IsHealthy (apply env world i t)
        ⊎ ((is_closed_state (state (apply env world i t).engine) ≡ true)
            × ((apply env world i t).closing ≡ true))
  unfolding apply give_up_lost give_up_orphaned
  apply-IsHealthy i t c = elim (IsHealthy-or_closed (hand_over env world i t)) [
    | inl h ↦ inl h
    | inr e ↦ inr (e, apply-IsCoupled i t c ∙ e)
  ]

  given_up_closed :
      (b : Bool) (i : Input) (t : Task)
      → EndsAll i
      → is_closed_state (state t.engine) ≡ true
      → is_closed_state (state (given_up b i t).engine) ≡ true
  given_up_closed b i t k h = elim (given_up-cases b i t k) [
    | inl (z, e) ↦ subst (λ w. is_closed_state (state w.engine) ≡ true) (sym e) h
    | inr c ↦ c
  ]

  -- An input that ends everything ends the loop.
  pub apply_ends :
      (i : Input) (t : Task) → EndsAll i → IsCoupled t → (apply env world i t).closing ≡ true
  unfolding apply give_up_lost give_up_orphaned
  apply_ends i t k c =
      let u = hand_over env world i t in
      let v = given_up u.lost transport_closed u in
      let h : is_closed_state (state u.engine) ≡ true =
        state_closed u.engine
          (ap (λ w. w.phase) (hand_over-engine i t) ∙ handle_ends env t.engine i k) in
      apply-IsCoupled i t c
      ∙ given_up_closed v.orphaned (local_close shutdown) v tt
          (given_up_closed u.lost transport_closed u tt h)
