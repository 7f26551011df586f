-- ===== src/Machine/Effects/Closing.antt =====
-- How a connection ends: `Engine::terminate`, and the effects of one input.
use ruxmsg.Prelude.{
  ℕ, ◌≡◌, ◌≢◌, refl, sym, ap, ◌∙◌, subst, ◌⊎◌, inl, inr, List, [], ◌∷◌, ◌++◌, append_assoc,
  append-nil, Option, some, none, Result-cases, All, All-append, arith,
}
use ruxmsg.Close.{CloseReason}
use ruxmsg.Close
use ruxmsg.Machine.Types.{
  Env, CloseCause, emit, session_closed, Effect, send, notify, close_transport, closed, Engine, Ctx,
  active_session_id,
}
use ruxmsg.Machine.Deadlines.{cancel_all_effects, cancel_all, notify_peer, shut, terminate}
use ruxmsg.Machine.Effects.Made.{IsQuiet, Does, goes_on, ends}
use ruxmsg.Machine.Effects.Table.{
  ids, after_effects, sets, IdBelow, DistinctIds, DistinctKinds, after_effects-append, sets-append,
  after_effects-cancel_all,
}
use ruxmsg.Machine.Effects.Follows.{
  Follows, Follows-append, sets-cancel_all_effects, Grows, Made-Grows,
}

-- The last two effects of a connection.
abbrev pub farewell : CloseCause → List Effect
farewell cause = notify (session_closed cause) ∷ close_transport ∷ []

-- Effects that leave the engine open, or end with the farewell of one that is closed.
abbrev pub Speaks : List Effect → Engine → Type 0
Speaks es e =
    ((e.phase ≢ closed) × All IsQuiet es)
    ⊎ ((e.phase ≡ closed)
        × (e.deadlines ≡ [])
        × (said : List Effect) × (cause : CloseCause) × (es ≡ said ++ farewell cause)
        × All IsQuiet said)

abbrev pub Acts : Ctx → Ctx → Type 0
Acts x y =
    (es : List Effect) × (y.out ≡ x.out ++ es)
    × Speaks es y.engine
    × Follows es x.engine y.engine
    × (DistinctKinds x.engine.deadlines → DistinctKinds y.engine.deadlines)

module _ (env : Env) where
  -- Nothing, or one CLOSE frame.
  notify_peer_lem :
      (reason : Option CloseReason) (x : Ctx)
      → (es : List Effect) × (notify_peer env reason x ≡ record x { out = x.out ++ es })
        × (sets es ≡ 0)
        × All IsQuiet es
        × ((ls : List ℕ) → after_effects es ls ≡ ls)
  unfolding notify_peer
  notify_peer_lem none x =
      ([], ap (λ o. record x { out = o }) (sym (append-nil x.out)), refl, tt, λ ls. refl)
  notify_peer_lem (some reason) x =
      elim (Result-cases (
        Close.encode env.cbor
          (record { session_id = active_session_id x.engine; reason = reason; detail = none }))) [
            | inl (f, p) ↦ (send f ∷ [], rw (p, notify_peer) refl, refl, (tt, tt), λ ls. refl)
            | inr (e, p) ↦ (
              [],
              rw (p, notify_peer) (ap (λ o. record x { out = o }) (sym (append-nil x.out))),
              refl,
              tt,
              λ ls. refl,
            )
          ]

  -- The effects of a termination empty the table.
  Follows-terminate :
      (x : Ctx) (es : List Effect) (cause : CloseCause) (e : Engine)
      → sets es ≡ 0
      → ((ls : List ℕ) → after_effects es ls ≡ ls)
      → e.deadlines ≡ []
      → e.next_deadline ≡ x.engine.next_deadline
      → Follows ((cancel_all_effects x.engine.deadlines ++ es) ++ farewell cause) x.engine e
  Follows-terminate x es cause e n l d m t h =
      let gone = cancel_all_effects x.engine.deadlines in
      let table = ids x.engine.deadlines in
      (
        after_effects-append (gone ++ es) (farewell cause) table
            ∙ after_effects-append gone es table
            ∙ l (after_effects gone table)
            ∙ after_effects-cancel_all x.engine.deadlines t.0
            ∙ ap ids (sym d),
        (subst DistinctIds (sym d) tt, subst (All (IdBelow e.next_deadline)) (sym d) tt),
        omega (
          arith,
          sets-append (gone ++ es) (farewell cause),
          sets-append gone es,
          (sets-cancel_all_effects x.engine.deadlines).0,
          n,
          m,
        ),
      )

  terminate-Acts :
      (cause : CloseCause) (reason : Option CloseReason) (x : Ctx)
      → Acts x (terminate env cause reason x)
  unfolding terminate shut cancel_all
  terminate-Acts cause reason x =
      let quiet = sets-cancel_all_effects x.engine.deadlines in
      let gone = cancel_all_effects x.engine.deadlines in
      let (es, p, n, q, l) = notify_peer_lem reason (cancel_all x) in
      subst (λ z. Acts x (shut env (emit (emit z (notify (session_closed cause))) close_transport)))
        (sym p)
        (
          (gone ++ es) ++ farewell cause,
          append_assoc ((x.out ++ gone) ++ es) (notify (session_closed cause) ∷ [])
                (close_transport ∷ [])
              ∙ ap (λ t. t ++ farewell cause) (append_assoc x.out gone es)
              ∙ append_assoc x.out (gone ++ es) (farewell cause),
          inr (refl, refl, gone ++ es, cause, refl, All-append IsQuiet gone es quiet.1 q),
          Follows-terminate x es cause (shut env (cancel_all x)).engine n l refl refl,
          λ k. tt,
        )

  pub Speaks-append :
      (es es' : List Effect) (e : Engine) → All IsQuiet es → Speaks es' e → Speaks (es ++ es') e
  Speaks-append es es' e q (inl (h, k)) = inl (h, All-append IsQuiet es es' q k)
  Speaks-append es es' e q (inr (h, d, said, cause, p, k)) = inr (
    h,
    d,
    es ++ said,
    cause,
    ap (λ t. es ++ t) p ∙ sym (append_assoc es said (farewell cause)),
    All-append IsQuiet es said q k,
  )

  Acts-after : (x m y : Ctx) → Grows x m → Acts m y → Acts x y
  Acts-after x m y (es, o, q, f, k, p) (es', o', s, f', k') = (
    es ++ es',
    o' ∙ ap (λ t. t ++ es') o ∙ append_assoc x.out es es',
    Speaks-append es es' y.engine q s,
    Follows-append es es' x.engine m.engine y.engine f f',
    λ h. k' (k h),
  )

  pub Does-Acts : (x y : Ctx) → x.engine.phase ≢ closed → Does env x y → Acts x y
  Does-Acts x y h (goes_on m) =
      let (es, o, q, f, k, p) = Made-Grows x y m in (es, o, inl (p h, q), f, k)
  Does-Acts x y h (ends {m = m} cause reason k) =
      Acts-after x m (terminate env cause reason m) (Made-Grows x m k)
        (terminate-Acts cause reason m)
