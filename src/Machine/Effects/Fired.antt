-- ===== src/Machine/Effects/Fired.antt =====
-- `Engine::on_timeout` takes the deadline that expired out of its table.
use ruxmsg.Prelude.{
  ℕ, ◌≡◌, refl, sym, ap, ◌∙◌, subst, inl, inr, List, [], ◌∷◌, Option, some, none, Bool-cases, ◌==◌,
  if◌then◌else◌, All, arith,
}
use ruxmsg.Machine.Types.{DeadlineKind, Input, Engine}
use ruxmsg.Machine.Handle.{take_deadline}
use ruxmsg.Machine.Effects.Handled.{without_fired, expired, at_table, at_input}
use ruxmsg.Machine.Effects.Table.{
  Deadlines, ids, without, IdBelow, OtherId, LaterKind, DistinctIds, DistinctKinds, without_absent,
  without_past, without_first,
}
use ruxmsg.Machine.Effects.Follows.{IsTidy}

-- The table without the first deadline of an ID.
unfoldable without_one : ℕ → Deadlines → Deadlines
without_one id [] = []
without_one id ((a, k) ∷ ds) = if a == id then ds else (a, k) ∷ without_one id ds

abbrev kept :
    ℕ × DeadlineKind → Option (DeadlineKind × Deadlines) → Option (DeadlineKind × Deadlines)
kept d none = none
kept d (some (k, ds)) = some (k, d ∷ ds)

without_kept :
    (d : ℕ × DeadlineKind) (o : Option (DeadlineKind × Deadlines)) (ds : Deadlines)
    → without_fired (kept d o) (d ∷ ds) ≡ d ∷ without_fired o ds
without_kept d none ds = refl
without_kept d (some (k, ds')) ds = refl

without_fired_lem :
    (id : ℕ) (ds : Deadlines) → without_fired (take_deadline id ds) ds ≡ without_one id ds
unfolding take_deadline without_one
without_fired_lem id [] = refl
without_fired_lem id ((a, k) ∷ ds) = elim (Bool-cases (a == id)) [
  | inl e ↦ rw (e, take_deadline, without_one) refl
  | inr e ↦
      rw (e, take_deadline, without_one)
        (without_kept (a, k) (take_deadline id ds) ds
          ∙ ap (λ t. (a, k) ∷ t) (without_fired_lem id ds))
]

module _ (P : ℕ × DeadlineKind → Type 0) where
  All-without_one : (id : ℕ) (ds : Deadlines) → All P ds → All P (without_one id ds)
  unfolding without_one
  All-without_one id [] h = tt
  All-without_one id ((a, k) ∷ ds) h = elim (Bool-cases (a == id)) [
    | inl e ↦ rw (e, without_one) h.1
    | inr e ↦ rw (e, without_one) (h.0, All-without_one id ds h.1)
  ]

DistinctIds-without_one :
    (id : ℕ) (ds : Deadlines) → DistinctIds ds → DistinctIds (without_one id ds)
unfolding without_one
DistinctIds-without_one id [] h = tt
DistinctIds-without_one id ((a, k) ∷ ds) h = elim (Bool-cases (a == id)) [
  | inl e ↦ rw (e, without_one) h.1
  | inr e ↦
      rw (e, without_one) (All-without_one (OtherId a) id ds h.0, DistinctIds-without_one id ds h.1)
]

DistinctKinds-without_one :
    (id : ℕ) (ds : Deadlines) → DistinctKinds ds → DistinctKinds (without_one id ds)
unfolding without_one
DistinctKinds-without_one id [] h = tt
DistinctKinds-without_one id ((a, k) ∷ ds) h = elim (Bool-cases (a == id)) [
  | inl e ↦ rw (e, without_one) h.1
  | inr e ↦
      rw (e, without_one)
        (All-without_one (LaterKind k) id ds h.0, DistinctKinds-without_one id ds h.1)
]

ids-without_one :
    (id : ℕ) (ds : Deadlines) → DistinctIds ds → without id (ids ds) ≡ ids (without_one id ds)
unfolding without_one
ids-without_one id [] h = without_absent id [] tt
ids-without_one id ((a, k) ∷ ds) h = elim (Bool-cases (a == id)) [
  | inl e ↦
      let same : a ≡ id = ground arith in
      rw (e, without_one)
        (subst (λ t. without t (a ∷ ids ds) ≡ ids ds) same (without_first a ds h.0))
  | inr e ↦
      rw (e, without_one)
        (without_past id a (ids ds) (λ p. ground arith)
          ∙ ap (λ t. a ∷ t) (ids-without_one id ds h.1))
]

-- What the driver takes out of its table before it hands an input over.
abbrev pub fired : Option ℕ → List ℕ → List ℕ
fired none ls = ls
fired (some id) ls = without id ls

-- What the driver keeps is the table as the engine reads the input.
pub ids-at_table :
    (o : Option ℕ) (ds : Deadlines) → DistinctIds ds → fired o (ids ds) ≡ ids (at_table o ds)
ids-at_table none ds h = refl
ids-at_table (some id) ds h = ids-without_one id ds h ∙ ap ids (sym (without_fired_lem id ds))

-- A property that leaving one deadline out keeps.
module _ (P : Deadlines → Type 0)
    (keeps : (id : ℕ) (ds : Deadlines) → P ds → P (without_one id ds)) where
  at_table_keeps : (o : Option ℕ) (ds : Deadlines) → P ds → P (at_table o ds)
  at_table_keeps none ds h = h
  at_table_keeps (some id) ds h = subst P (sym (without_fired_lem id ds)) (keeps id ds h)

pub DistinctKinds-at_table :
    (o : Option ℕ) (ds : Deadlines) → DistinctKinds ds → DistinctKinds (at_table o ds)
DistinctKinds-at_table = at_table_keeps DistinctKinds DistinctKinds-without_one

pub at_input-IsTidy : (i : Input) (e : Engine) → IsTidy e → IsTidy (at_input i e)
at_input-IsTidy i e (d, b) = (
  at_table_keeps DistinctIds DistinctIds-without_one (expired i) e.deadlines d,
  at_table_keeps (All (IdBelow e.next_deadline)) (All-without_one (IdBelow e.next_deadline))
      (expired i) e.deadlines b,
)
