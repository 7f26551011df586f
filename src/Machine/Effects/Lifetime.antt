-- ===== src/Machine/Effects/Lifetime.antt =====
-- The effects of an engine over its lifetime, and the table of deadlines that a driver keeps.
use ruxmsg.Prelude.{
  ℕ, ◌+◌, ◌^◌, ◌<◌, ◌≡◌, ◌≢◌, refl, sym, ap, ◌∙◌, subst, ◌⊎◌, inl, inr, List, [], ◌∷◌, ◌++◌,
  append-nil, Option, some, none, arith,
}
use ruxmsg.Machine.Types.{
  Env, Effect, Input, Phase, idle, handshaking, established, closed, Engine, Ctx,
}
use ruxmsg.Machine.Handle.{handle, run}
use ruxmsg.Machine.Effects.Handled.{expired, started_at, handle-Does, handle_closed}
use ruxmsg.Machine.Effects.Fired.{fired, ids-at_table, DistinctKinds-at_table, at_input-IsTidy}
use ruxmsg.Machine.Effects.Table.{
  Deadlines, ids, after_effects, sets, DistinctKinds, sets-append, without_absent,
}
use ruxmsg.Machine.Effects.Follows.{IsTidy}
use ruxmsg.Machine.Effects.Closing.{Speaks, Acts, Does-Acts, Speaks-append}

pub Phase-cases : (p : Phase) → (p ≡ closed) ⊎ (p ≢ closed)
Phase-cases idle = inr (λ e. ground arith)
Phase-cases handshaking = inr (λ e. ground arith)
Phase-cases established = inr (λ e. ground arith)
Phase-cases closed = inl refl

-- What one input does to an open engine.
Acts-handle :
    (env : Env) (e : Engine) (i : Input) → e.phase ≢ closed → Acts (started_at i e) (handle env e i)
Acts-handle env e i h = Does-Acts env (started_at i e) (handle env e i) h (handle-Does env e i h)

-- The effects of all inputs in turn.
unfoldable pub run_effects : Env → Engine → List Input → List Effect
run_effects env e [] = []
run_effects env e (i ∷ is) = (handle env e i).out ++ run_effects env (handle env e i).engine is

-- A driver's table: the deadline that expired goes, and then the effects are applied.
unfoldable pub driver_table : Env → Engine → List ℕ → List Input → List ℕ
driver_table env e ls [] = ls
driver_table env e ls (i ∷ is) =
    driver_table env (handle env e i).engine
      (after_effects (handle env e i).out (fired (expired i) ls)) is

module _ (env : Env) where
  closed_forever :
      (e : Engine) (is : List Input)
      → e.phase ≡ closed
      → (run env e is ≡ e) × (run_effects env e is ≡ [])
  unfolding run run_effects
  closed_forever e [] h = (refl, refl)
  closed_forever e (i ∷ is) h =
      let r = closed_forever e is h in rw (handle_closed env e i h, run, run_effects) r

  Speaks-next :
      (e : Engine) (out es : List Effect) (is : List Input)
      → out ≡ es
      → Speaks es e
      → (e.phase ≢ closed → Speaks (run_effects env e is) (run env e is))
      → Speaks (out ++ run_effects env e is) (run env e is)
  Speaks-next e out es is o (inl (h, q)) next =
      subst (λ t. Speaks (t ++ run_effects env e is) (run env e is)) (sym o)
        (Speaks-append env es (run_effects env e is) (run env e is) q (next h))
  Speaks-next e out es is o (inr said) next =
      let (r, n) = closed_forever e is said.0 in
      let none_more : out ++ run_effects env e is ≡ es =
        ap (λ t. out ++ t) n ∙ append-nil out ∙ o in
      subst (λ t. Speaks t (run env e is)) (sym none_more) (subst (Speaks es) (sym r) (inr said))

  -- However an open engine is driven, its effects contain no close event and no order to close the
  -- transport while it is open; once it is closed, its deadlines are gone, and these two effects
  -- are the last, in this order, with no others before.
  pub run_effects-Speaks :
      (e : Engine) (is : List Input)
      → e.phase ≢ closed
      → Speaks (run_effects env e is) (run env e is)
  unfolding run run_effects
  run_effects-Speaks e [] h = inl (h, tt)
  run_effects-Speaks e (i ∷ is) h =
      let (es, o, s, f, k) = Acts-handle env e i h in
      Speaks-next (handle env e i).engine (handle env e i).out es is o s
        (run_effects-Speaks (handle env e i).engine is)

  handle-DistinctKinds :
      (e : Engine) (i : Input)
      → DistinctKinds e.deadlines
      → DistinctKinds (handle env e i).engine.deadlines
  handle-DistinctKinds e i d = elim (Phase-cases e.phase) [
    | inl c ↦ subst (λ y. DistinctKinds y.engine.deadlines) (sym (handle_closed env e i c)) d
    | inr h ↦
        let (es, o, s, f, k) = Acts-handle env e i h in
        k (DistinctKinds-at_table (expired i) e.deadlines d)
  ]

  pub run-DistinctKinds :
      (e : Engine) (is : List Input)
      → DistinctKinds e.deadlines
      → DistinctKinds (run env e is).deadlines
  unfolding run
  run-DistinctKinds e [] d = d
  run-DistinctKinds e (i ∷ is) d =
      run-DistinctKinds (handle env e i).engine is (handle-DistinctKinds e i d)

  -- A closed engine has no deadlines.
  abbrev pub IsQuietWhenClosed : Engine → Type 0
  IsQuietWhenClosed e = (e.phase ≢ closed) ⊎ (e.deadlines ≡ [])

  quiet_when_closed : (e : Engine) (es : List Effect) → Speaks es e → IsQuietWhenClosed e
  quiet_when_closed e es (inl (h, q)) = inl h
  quiet_when_closed e es (inr said) = inr said.1

  -- After one input the driver's table is the engine's.
  abbrev pub InTable : Engine → Input → Ctx → Type 0
  InTable e i y =
      (after_effects y.out (fired (expired i) (ids e.deadlines)) ≡ ids y.engine.deadlines)
      × IsTidy y.engine
      × (y.engine.next_deadline ≡ e.next_deadline + sets y.out)
      × IsQuietWhenClosed y.engine

  fired_empty : (o : Option ℕ) (ds : Deadlines) → ds ≡ [] → fired o (ids ds) ≡ ids ds
  fired_empty o ds h = subst (λ l. fired o (ids l) ≡ ids l) (sym h) (empty o)
    where
      empty : (o : Option ℕ) → fired o [] ≡ []
      empty none = refl
      empty (some id) = without_absent id [] tt

  no_change :
      (e : Engine) (i : Input)
      → e.phase ≡ closed
      → IsQuietWhenClosed e
      → IsTidy e
      → InTable e i (record { engine = e; out = [] })
  no_change e i p (inl h) t = absurd (h p)
  no_change e i p (inr d) t = (fired_empty (expired i) e.deadlines d, t, omega arith, inr d)

  pub handle-InTable :
      (e : Engine) (i : Input)
      → IsQuietWhenClosed e
      → IsTidy e
      → e.next_deadline + sets (handle env e i).out < 2 ^ 64
      → InTable e i (handle env e i)
  handle-InTable e i c t h = elim (Phase-cases e.phase) [
    | inl p ↦ subst (λ y. InTable e i y) (sym (handle_closed env e i p)) (no_change e i p c t)
    | inr n ↦
        let (es, o, s, f, k) = Acts-handle env e i n in
        let (q, t', m) =
          f (at_input-IsTidy i e t) (subst (λ w. e.next_deadline + sets w < 2 ^ 64) o h) in
        (
          ap (λ w. after_effects w (fired (expired i) (ids e.deadlines))) o
              ∙ ap (after_effects es) (ids-at_table (expired i) e.deadlines t.0)
              ∙ q,
          t',
          m ∙ ap (λ w. e.next_deadline + sets w) (sym o),
          quiet_when_closed (handle env e i).engine es s,
        )
  ]

  -- A driver that applies every effect to its table, and takes out what expired before it tells
  -- the engine, has the IDs of the engine's table after any inputs, while fewer than 2^64
  -- deadlines were set.
  pub driver_table_lem :
      (e : Engine) (is : List Input)
      → IsQuietWhenClosed e
      → IsTidy e
      → e.next_deadline + sets (run_effects env e is) < 2 ^ 64
      → driver_table env e (ids e.deadlines) is ≡ ids (run env e is).deadlines
  unfolding driver_table run run_effects
  driver_table_lem e [] c t h = refl
  driver_table_lem e (i ∷ is) c t h =
      let y = handle env e i in
      let n = sets-append y.out (run_effects env y.engine is) in
      let (q, t', m, c') = handle-InTable e i c t (omega (arith, h, n)) in
      ap (λ ls. driver_table env y.engine ls is) q
      ∙ driver_table_lem y.engine is c' t' (omega (arith, h, n, m))
