-- ===== src/Machine/Effects/Follows.antt =====
-- What effects do to the table of deadlines of a driver, and what they say of the engine.
use ruxmsg.Prelude.{
  ℕ, ◌+◌, ◌%◌, ◌^◌, ◌≤◌, ◌<◌, ◌≡◌, ◌≢◌, refl, sym, ap, ◌∙◌, subst, inl, inr, List, [], ◌∷◌, ◌++◌,
  append_assoc, append-nil, Bool-cases, All, All-append, arith,
}
use ruxmsg.Machine.Types.{
  DeadlineKind, kind_eq, Effect, send, set_deadline, cancel_deadline, request_sas, deliver, notify,
  close_transport, closed, Engine, Ctx,
}
use ruxmsg.Machine.Deadlines.{
  retain_others, cancel_effects, cancel_all_effects, cancel, push_deadline, arm,
}
use ruxmsg.Machine.Effects.Made.{
  IsPlain, IsQuiet, StaysOpen, Made, rests, emits, cancels, arms, joins,
}
use ruxmsg.Machine.Effects.Table.{
  Deadlines, ids, after_effect, after_effects, sets_one, sets, IdBelow, DistinctIds, DistinctKinds,
  after_effects-append, sets-append, ids-append, All-retain_others, retain_others-OtherKind,
  DistinctIds-retain_others, DistinctKinds-retain_others, DistinctIds-append, DistinctKinds-append,
  after_effects-cancel,
}

-- The IDs of the table differ, and are below the next one.
abbrev pub IsTidy : Engine → Type 0
IsTidy e = DistinctIds e.deadlines × All (IdBelow e.next_deadline) e.deadlines

-- The driver's table follows the engine's, and the engine's stays tidy.
abbrev pub InStep : List Effect → Engine → Engine → Type 0
InStep es e e' =
    (after_effects es (ids e.deadlines) ≡ ids e'.deadlines)
    × IsTidy e'
    × (e'.next_deadline ≡ e.next_deadline + sets es)

-- As long as the counter of IDs does not wrap around.
abbrev pub Follows : List Effect → Engine → Engine → Type 0
Follows es e e' = IsTidy e → e.next_deadline + sets es < 2 ^ 64 → InStep es e e'

pub Follows-append :
    (es es' : List Effect) (a b c : Engine)
    → Follows es a b
    → Follows es' b c
    → Follows (es ++ es') a c
Follows-append es es' a b c f g t h =
    let n : a.next_deadline + sets (es ++ es') ≡ a.next_deadline + sets es + sets es' =
      omega (arith, sets-append es es') in
    let (p, t', q) = f t (omega (arith, n, h)) in
    let (p', t'', q') = g t' (omega (arith, n, q, h)) in
    (
      after_effects-append es es' (ids a.deadlines) ∙ ap (after_effects es') p ∙ p',
      t'',
      omega (arith, q, q', n),
    )

module _ (n m : ℕ) (h : n ≤ m) where
  All-IdBelow : (ds : Deadlines) → All (IdBelow n) ds → All (IdBelow m) ds
  All-IdBelow [] b = tt
  All-IdBelow ((id, k) ∷ ds) b = (omega (arith, b.0, h), All-IdBelow ds b.1)

-- A plain effect changes no table.
plain :
    (e : Effect)
    → IsPlain e
    → (sets_one e ≡ 0) × ((ls : List ℕ) → after_effect e ls ≡ ls) × IsQuiet e
plain (send f) h = (refl, λ ls. refl, tt)
plain (set_deadline id k n) h = absurd h
plain (cancel_deadline id) h = absurd h
plain (request_sas w p) h = (refl, λ ls. refl, tt)
plain (deliver c) h = (refl, λ ls. refl, tt)
plain (notify ev) h = (refl, λ ls. refl, h)
plain close_transport h = absurd h

sets-cancel_effects :
    (k : DeadlineKind) (ds : Deadlines)
    → (sets (cancel_effects k ds) ≡ 0) × All IsQuiet (cancel_effects k ds)
unfolding cancel_effects
sets-cancel_effects k [] = (refl, tt)
sets-cancel_effects k ((id, c) ∷ ds) =
    let r = sets-cancel_effects k ds in
    elim (Bool-cases (kind_eq c k)) [
      | inl e ↦ rw (e, cancel_effects) (omega (arith, r.0), (tt, r.1))
      | inr e ↦ rw (e, cancel_effects) r
    ]

pub sets-cancel_all_effects :
    (ds : Deadlines) → (sets (cancel_all_effects ds) ≡ 0) × All IsQuiet (cancel_all_effects ds)
unfolding cancel_all_effects
sets-cancel_all_effects [] = (refl, tt)
sets-cancel_all_effects ((id, c) ∷ ds) =
    let r = sets-cancel_all_effects ds in (omega (arith, r.0), (tt, r.1))

Follows-cancel :
    (k : DeadlineKind) (x : Ctx)
    → Follows (cancel_effects k x.engine.deadlines) x.engine (cancel k x).engine
unfolding cancel
Follows-cancel k x t h =
    let ds = x.engine.deadlines in
    (
      after_effects-cancel k ds t.0,
      (
        DistinctIds-retain_others k ds t.0,
        All-retain_others (IdBelow x.engine.next_deadline) k ds t.1,
      ),
      omega (arith, (sets-cancel_effects k ds).0),
    )

Follows-push_deadline :
    (k : DeadlineKind) (after : ℕ) (x : Ctx)
    → Follows
        (set_deadline x.engine.next_deadline k after ∷ [])
        x.engine
        (push_deadline k after x).engine
unfolding push_deadline
Follows-push_deadline k after x t h =
    let n = x.engine.next_deadline in
    let ds = x.engine.deadlines in
    let s : (n + 1) % 2 ^ 64 ≡ n + 1 = omega (arith, h) in
    (
      sym (ids-append ds n k),
      (
        DistinctIds-append ds n k t.1 t.0,
        All-append (IdBelow ((n + 1) % 2 ^ 64)) ds ((n, k) ∷ [])
            (All-IdBelow n ((n + 1) % 2 ^ 64) (omega (arith, s)) ds t.1) (omega (arith, s), tt),
      ),
      s,
    )

Follows-rest :
    (e e' : Engine)
    → e'.deadlines ≡ e.deadlines
    → e'.next_deadline ≡ e.next_deadline
    → Follows [] e e'
Follows-rest e e' d n t h = (
  ap ids (sym d),
  (
    subst DistinctIds (sym d) t.0,
    subst (λ k. All (IdBelow k) e'.deadlines) (sym n)
        (subst (All (IdBelow e.next_deadline)) (sym d) t.1),
  ),
  omega (arith, n),
)

Follows-plain :
    (f : Effect) (e : Engine)
    → sets_one f ≡ 0
    → after_effect f (ids e.deadlines) ≡ ids e.deadlines
    → Follows (f ∷ []) e e
Follows-plain f e s l t h = (l, t, omega (arith, s))

still_open : (x y : Ctx) → StaysOpen x y → x.engine.phase ≢ closed → y.engine.phase ≢ closed
still_open x y (inl p) h c = h (sym p ∙ c)
still_open x y (inr n) h c = n c

-- What a handler that goes on says and does.
abbrev pub Grows : Ctx → Ctx → Type 0
Grows x y =
    (es : List Effect) × (y.out ≡ x.out ++ es)
    × All IsQuiet es
    × Follows es x.engine y.engine
    × (DistinctKinds x.engine.deadlines → DistinctKinds y.engine.deadlines)
    × (x.engine.phase ≢ closed → y.engine.phase ≢ closed)

pub Made-Grows : (x y : Ctx) → Made x y → Grows x y
unfolding cancel arm push_deadline
Made-Grows x y (rests o d n p) = (
  [],
  o ∙ sym (append-nil x.out),
  tt,
  Follows-rest x.engine y.engine d n,
  subst DistinctKinds (sym d),
  still_open x y p,
)
Made-Grows x y (emits e h) =
    let (s, l, q) = plain e h in
    (e ∷ [], refl, (q, tt), Follows-plain e x.engine s (l (ids x.engine.deadlines)), λ k. k, λ k. k)
Made-Grows x y (cancels k) = (
  cancel_effects k x.engine.deadlines,
  refl,
  (sets-cancel_effects k x.engine.deadlines).1,
  Follows-cancel k x,
  DistinctKinds-retain_others k x.engine.deadlines,
  λ h. h,
)
Made-Grows x y (arms k after) = (
  cancel_effects k x.engine.deadlines ++ (set_deadline x.engine.next_deadline k after ∷ []),
  append_assoc x.out (cancel_effects k x.engine.deadlines)
      (set_deadline x.engine.next_deadline k after ∷ []),
  All-append IsQuiet (cancel_effects k x.engine.deadlines) _
      (sets-cancel_effects k x.engine.deadlines).1 (tt, tt),
  Follows-append (cancel_effects k x.engine.deadlines) _ x.engine (cancel k x).engine
      (push_deadline k after (cancel k x)).engine (Follows-cancel k x)
      (Follows-push_deadline k after (cancel k x)),
  λ h.
      DistinctKinds-append (retain_others k x.engine.deadlines) x.engine.next_deadline k
        (retain_others-OtherKind k x.engine.deadlines)
        (DistinctKinds-retain_others k x.engine.deadlines h),
  λ h. h,
)
Made-Grows x z (joins {y = y} m m') =
    let (es, o, q, f, k, p) = Made-Grows x y m in
    let (es', o', q', f', k', p') = Made-Grows y z m' in
    (
      es ++ es',
      o' ∙ ap (λ t. t ++ es') o ∙ append_assoc x.out es es',
      All-append IsQuiet es es' q q',
      Follows-append es es' x.engine y.engine z.engine f f',
      λ h. k' (k h),
      λ h. p' (p h),
    )
