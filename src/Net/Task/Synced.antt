-- ===== src/Net/Task/Synced.antt =====
-- The deadlines of a task of crates/ruxmsg-net/src/lib.rs are those of its engine.
use ruxmsg.Prelude.{◌+◌, ◌^◌, ◌<◌, ◌≡◌, sym, ap, ◌∙◌, subst}
use ruxmsg.Machine.Types.{Env, Input, Engine}
use ruxmsg.Machine.Handle.{handle}
use ruxmsg.Machine.Effects.Handled.{expired}
use ruxmsg.Machine.Effects.Fired.{fired}
use ruxmsg.Machine.Effects.Table.{ids, after_effects, sets}
use ruxmsg.Machine.Effects.Follows.{IsTidy}
use ruxmsg.Machine.Effects.Lifetime.{IsQuietWhenClosed, handle-InTable}
use ruxmsg.Net.Task.{World, Task, hand_over}
use ruxmsg.Net.Task.Effects.{armed_ids, process-Processed}

-- The engine's table: its IDs differ and are below the next one, and it is empty when closed.
abbrev pub IsOrderly : Env → Engine → Type 0
IsOrderly env e = IsTidy e × IsQuietWhenClosed env e

module _ (env : Env) (world : World) where
  -- When a task whose table holds the IDs of the deadlines of its engine, less the one that
  -- expired, hands an input over, its table holds the IDs of the engine's again, if the engine's
  -- table is orderly (distinct IDs below the next, none when closed) and fewer than 2^64 were set.
  pub hand_over-armed_ids :
      (i : Input) (t : Task)
      → armed_ids t.deadlines ≡ fired (expired i) (ids t.engine.deadlines)
      → IsOrderly env t.engine
      → t.engine.next_deadline + sets (handle env t.engine i).out < 2 ^ 64
      → (armed_ids (hand_over env world i t).deadlines
          ≡ ids (hand_over env world i t).engine.deadlines)
        × IsOrderly env (hand_over env world i t).engine
  unfolding hand_over
  hand_over-armed_ids i t a (tidy, quiet) h =
      let y = handle env t.engine i in
      let u : Task = record t { engine = y.engine } in
      let (e, d, l, c) = process-Processed env world y.out u in
      let (p, tidy', n, quiet') = handle-InTable env t.engine i quiet tidy h in
      (
        l ∙ ap (after_effects y.out) a ∙ p ∙ ap (λ w. ids w.deadlines) (sym e),
        subst (IsOrderly env) (sym e) (tidy', quiet'),
      )
