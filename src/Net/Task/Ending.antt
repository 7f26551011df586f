-- ===== src/Net/Task/Ending.antt =====
-- What ends the loop of a task of crates/ruxmsg-net/src/lib.rs.
use ruxmsg.Prelude.{
  ◌≡◌, refl, sym, ap, ◌∙◌, inl, inr, List, [], ◌∷◌, ◌++◌, Option, some, none, Bool, true, false,
  Bool-cases,
}
use ruxmsg.Machine.Types.{Env, Input, transport_closed, state}
use ruxmsg.Net.Task.{
  World, Task, apply, is_closed_state, close_command, rekey_command, sas_command, Ready, bytes_read,
  stream_ended, message_queued, command_queued, deadline_due, command_input, and_then, turn, turns,
}
use ruxmsg.Net.Task.Coupled.{IsCoupled, EndsAll, apply-IsCoupled, apply_ends}
use ruxmsg.Net.Task.Loop.{turn-Ends}

-- The end of the stream, the command to close, and the loss of the last handle.
abbrev pub EndsLoop : Ready → Type 0
EndsLoop stream_ended = Unit {0}
EndsLoop (command_queued none) = Unit {0}
EndsLoop (command_queued (some (close_command reason))) = Unit {0}
EndsLoop _ = ⊥

module _ (env : Env) (world : World) where
  -- A loop that has ended, with a closed engine.
  abbrev pub IsOver : Task → Type 0
  IsOver u = (u.closing ≡ true) × (is_closed_state (state u.engine) ≡ true)

  abbrev Over : Option Task → Type 0
  Over o = (u : Task) × (o ≡ some u) × IsOver u

  is_over : (u : Task) → IsCoupled u → u.closing ≡ true → IsOver u
  is_over u c h = (h, sym c ∙ h)

  applied_ends :
      (i : Input) (t : Task) → EndsAll i → IsCoupled t → Over (some (apply env world i t))
  applied_ends i t h c =
      let u = apply env world i t in
      (u, refl, is_over u (apply-IsCoupled env world i t c) (apply_ends env world i t h c))

  turn_ends : (r : Ready) (t : Task) → EndsLoop r → IsCoupled t → Over (turn env world r t)
  unfolding turn
  turn_ends stream_ended t h c = applied_ends transport_closed t tt c
  turn_ends (command_queued none) t h c = applied_ends (command_input none) t tt c
  turn_ends (command_queued (some (close_command reason))) t h c =
      applied_ends (command_input (some (close_command reason))) t tt c
  turn_ends (command_queued (some rekey_command)) t h c = absurd h
  turn_ends (command_queued (some (sas_command b))) t h c = absurd h
  turn_ends (bytes_read chunk) t h c = absurd h
  turn_ends (message_queued content) t h c = absurd h
  turn_ends deadline_due t h c = absurd h

  abbrev next_turn : Ready → List Ready → Task → Bool → Option Task
  next_turn r rs t true = some t
  next_turn r rs t false = and_then (turn env world r t) (turns env world rs)

  turns_by :
      (r : Ready) (rs : List Ready) (t : Task) (b : Bool)
      → t.closing ≡ b
      → turns env world (r ∷ rs) t ≡ next_turn r rs t b
  unfolding turns
  turns_by r rs t b h = ap (next_turn r rs t) h

  turns_over : (rs : List Ready) (t : Task) → t.closing ≡ true → turns env world rs t ≡ some t
  unfolding turns
  turns_over [] t h = refl
  turns_over (r ∷ rs) t h = ap (next_turn r rs t) h

  -- For a task that closes just when its engine is closed: if the stream ends, the last handle is
  -- dropped or a close is commanded at some turn, then whatever becomes ready before and after it,
  -- the loop comes to its end with a closed engine.
  pub turns-IsOver :
      (before after : List Ready) (r : Ready) (t : Task)
      → EndsLoop r
      → IsCoupled t
      → (u : Task) × (turns env world (before ++ (r ∷ after)) t ≡ some u) × IsOver u
  turns-IsOver [] after r t h c = elim (Bool-cases t.closing) [
    | inl e ↦ (t, turns_by r after t true e, is_over t c e)
    | inr e ↦
        let (u, p, o) = turn_ends r t h c in
        (
          u,
          turns_by r after t false e
              ∙ ap (λ m. and_then m (turns env world after)) p
              ∙ turns_over after u o.0,
          o,
        )
  ]
  turns-IsOver (b ∷ before) after r t h c = elim (Bool-cases t.closing) [
    | inl e ↦ (t, turns_by b (before ++ (r ∷ after)) t true e, is_over t c e)
    | inr e ↦
        let (u, p, k) = turn-Ends env world b t c in
        let (v, q, o) = turns-IsOver before after r u h k in
        (
          v,
          turns_by b (before ++ (r ∷ after)) t false e
              ∙ ap (λ m. and_then m (turns env world (before ++ (r ∷ after)))) p
              ∙ q,
          o,
        )
  ]
