-- ===== src/Machine/Effects/Armed.antt =====
-- How many deadlines of crates/ruxmsg-core/src/machine.rs are armed at a time.
use ruxmsg.Prelude.{
  ℕ, ◌+◌, ◌^◌, ◌≤◌, ◌<◌, ◌≡◌, refl, sym, subst, inl, inr, List, [], ◌∷◌, true, Bool-cases,
  if◌then◌else◌, length, All, arith,
}
use ruxmsg.Crypto.{IdentityKeypair}
use ruxmsg.Handshake.Hello.{HelloRole}
use ruxmsg.Machine.Types.{
  Env, DeadlineKind, kind_eq, handshake_frame, sas_wait, handshake_total, rekey_due, drain, Input,
  new, armed_deadlines,
}
use ruxmsg.Machine.Handle.{run}
use ruxmsg.Machine.Effects.Table.{Deadlines, ids, sets, LaterKind, DistinctKinds}
use ruxmsg.Machine.Effects.Lifetime.{run-DistinctKinds, run_effects, driver_table, driver_table_lem}

kind_eq→eq : (k c : DeadlineKind) → kind_eq k c ≡ true → k ≡ c
kind_eq→eq handshake_frame handshake_frame h = refl
kind_eq→eq sas_wait sas_wait h = refl
kind_eq→eq handshake_total handshake_total h = refl
kind_eq→eq rekey_due rekey_due h = refl
kind_eq→eq drain drain h = refl
kind_eq→eq _ _ h = ground arith

-- The deadlines of a kind in a table.
unfoldable pub armed_of : DeadlineKind → Deadlines → ℕ
armed_of k [] = 0
armed_of k ((id, c) ∷ ds) = (if kind_eq k c then 1 else 0) + armed_of k ds

armed_of-none : (k : DeadlineKind) (ds : Deadlines) → All (LaterKind k) ds → armed_of k ds ≡ 0
unfolding armed_of
armed_of-none k [] h = refl
armed_of-none k ((id, c) ∷ ds) h = rw (h.0, armed_of) (omega (arith, armed_of-none k ds h.1))

armed_of_le : (k : DeadlineKind) (ds : Deadlines) → DistinctKinds ds → armed_of k ds ≤ 1
unfolding armed_of
armed_of_le k [] h = omega arith
armed_of_le k ((id, c) ∷ ds) h = elim (Bool-cases (kind_eq k c)) [
  | inr e ↦ rw (e, armed_of) (omega (arith, armed_of_le k ds h.1))
  | inl e ↦
      let none_more : armed_of k ds ≡ 0 =
        subst (λ t. armed_of t ds ≡ 0) (sym (kind_eq→eq k c e)) (armed_of-none c ds h.0) in
      rw (e, none_more, armed_of) (omega arith)
]

armed_of_all :
    (ds : Deadlines)
    → length ds
      ≡ armed_of handshake_frame ds
        + armed_of sas_wait ds
        + armed_of handshake_total ds
        + armed_of rekey_due ds
        + armed_of drain ds
unfolding armed_of
armed_of_all [] = refl
armed_of_all ((id, handshake_frame) ∷ ds) = omega (arith, armed_of_all ds)
armed_of_all ((id, sas_wait) ∷ ds) = omega (arith, armed_of_all ds)
armed_of_all ((id, handshake_total) ∷ ds) = omega (arith, armed_of_all ds)
armed_of_all ((id, rekey_due) ∷ ds) = omega (arith, armed_of_all ds)
armed_of_all ((id, drain) ∷ ds) = omega (arith, armed_of_all ds)

-- However a new engine is driven, at most one deadline of each kind is armed, and so at most five.
pub run-armed_le :
    (env : Env) (role : HelloRole) (identity : IdentityKeypair) (is : List Input)
    → ((k : DeadlineKind) → armed_of k (run env (new role identity) is).deadlines ≤ 1)
      × (armed_deadlines (run env (new role identity) is) ≤ 5)
unfolding new
run-armed_le env role identity is =
    let e = run env (new role identity) is in
    let d : DistinctKinds e.deadlines = run-DistinctKinds env (new role identity) is tt in
    let le : (k : DeadlineKind) → armed_of k e.deadlines ≤ 1 = λ k. armed_of_le k e.deadlines d in
    (
      le,
      omega (
        arith,
        armed_of_all e.deadlines,
        le handshake_frame,
        le sas_wait,
        le handshake_total,
        le rekey_due,
        le drain,
      ),
    )

-- The same driver with a new engine: it keeps the IDs of the engine's table, if fewer than 2^64
-- deadlines are set.
pub driver_table-new :
    (env : Env) (role : HelloRole) (identity : IdentityKeypair) (is : List Input)
    → sets (run_effects env (new role identity) is) < 2 ^ 64
    → driver_table env (new role identity) [] is ≡ ids (run env (new role identity) is).deadlines
unfolding new
driver_table-new env role identity is h =
    driver_table_lem env (new role identity) is (inr refl) (tt, tt) (omega (arith, h))
