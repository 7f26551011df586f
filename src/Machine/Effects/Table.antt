-- ===== src/Machine/Effects/Table.antt =====
-- Tables of armed deadlines: their IDs and kinds, and what cancelling leaves of them.
use ruxmsg.Prelude.{
  ℕ, ◌+◌, ◌<◌, ◌≡◌, ◌≢◌, refl, ap, ◌∙◌, inl, inr, List, [], ◌∷◌, ◌++◌, false, Bool-cases,
  if◌then◌else◌, ◌==◌, All, All-append, eq_self, arith,
}
use ruxmsg.Machine.Types.{DeadlineKind, kind_eq, Effect, set_deadline, cancel_deadline}
use ruxmsg.Machine.Deadlines.{retain_others, cancel_effects, cancel_all_effects}

abbrev pub Deadlines : Type 0
Deadlines = List (ℕ × DeadlineKind)

abbrev pub ids : Deadlines → List ℕ
ids [] = []
ids ((id, kind) ∷ ds) = id ∷ ids ds

-- `retain(|(armed, _)| *armed != id)` on the IDs that a driver keeps.
unfoldable pub without : ℕ → List ℕ → List ℕ
without id [] = []
without id (armed ∷ ls) = if armed == id then without id ls else armed ∷ without id ls

-- What a driver does to its table for an effect, and for effects in turn.
abbrev pub after_effect : Effect → List ℕ → List ℕ
after_effect (set_deadline id kind after) ls = ls ++ (id ∷ [])
after_effect (cancel_deadline id) ls = without id ls
after_effect _ ls = ls

abbrev pub after_effects : List Effect → List ℕ → List ℕ
after_effects [] ls = ls
after_effects (e ∷ es) ls = after_effects es (after_effect e ls)

abbrev pub sets_one : Effect → ℕ
sets_one (set_deadline id kind after) = 1
sets_one _ = 0

-- How many deadlines effects set.
abbrev pub sets : List Effect → ℕ
sets [] = 0
sets (e ∷ es) = sets_one e + sets es

abbrev pub IdBelow : ℕ → ℕ × DeadlineKind → Type 0
IdBelow n (id, kind) = id < n

abbrev pub OtherId : ℕ → ℕ × DeadlineKind → Type 0
OtherId n (id, kind) = id ≢ n

abbrev pub OtherKind : DeadlineKind → ℕ × DeadlineKind → Type 0
OtherKind k (id, kind) = kind_eq kind k ≡ false

abbrev pub LaterKind : DeadlineKind → ℕ × DeadlineKind → Type 0
LaterKind k (id, kind) = kind_eq k kind ≡ false

-- All IDs differ; all kinds differ.
abbrev pub DistinctIds : Deadlines → Type 0
DistinctIds [] = Unit {0}
DistinctIds ((id, kind) ∷ ds) = All (OtherId id) ds × DistinctIds ds

abbrev pub DistinctKinds : Deadlines → Type 0
DistinctKinds [] = Unit {0}
DistinctKinds ((id, kind) ∷ ds) = All (LaterKind kind) ds × DistinctKinds ds

pub after_effects-append :
    (es es' : List Effect) (ls : List ℕ)
    → after_effects (es ++ es') ls ≡ after_effects es' (after_effects es ls)
after_effects-append [] es' ls = refl
after_effects-append (e ∷ es) es' ls = after_effects-append es es' (after_effect e ls)

pub sets-append : (es es' : List Effect) → sets (es ++ es') ≡ sets es + sets es'
sets-append [] es' = omega arith
sets-append (e ∷ es) es' = omega (arith, sets-append es es')

pub ids-append :
    (ds : Deadlines) (id : ℕ) (k : DeadlineKind) → ids (ds ++ ((id, k) ∷ [])) ≡ ids ds ++ (id ∷ [])
ids-append [] id k = refl
ids-append ((a, b) ∷ ds) id k = ap (λ t. a ∷ t) (ids-append ds id k)

module _ (P : ℕ × DeadlineKind → Type 0) where
  pub All-retain_others :
      (k : DeadlineKind) (ds : Deadlines) → All P ds → All P (retain_others k ds)
  unfolding retain_others
  All-retain_others k [] h = tt
  All-retain_others k ((id, kind) ∷ ds) h = elim (Bool-cases (kind_eq kind k)) [
    | inl e ↦ rw (e, retain_others) (All-retain_others k ds h.1)
    | inr e ↦ rw (e, retain_others) (h.0, All-retain_others k ds h.1)
  ]

-- No deadline of the kind is left.
pub retain_others-OtherKind :
    (k : DeadlineKind) (ds : Deadlines) → All (OtherKind k) (retain_others k ds)
unfolding retain_others
retain_others-OtherKind k [] = tt
retain_others-OtherKind k ((id, kind) ∷ ds) = elim (Bool-cases (kind_eq kind k)) [
  | inl e ↦ rw (e, retain_others) (retain_others-OtherKind k ds)
  | inr e ↦ rw (e, retain_others) (e, retain_others-OtherKind k ds)
]

pub DistinctIds-retain_others :
    (k : DeadlineKind) (ds : Deadlines) → DistinctIds ds → DistinctIds (retain_others k ds)
unfolding retain_others
DistinctIds-retain_others k [] h = tt
DistinctIds-retain_others k ((id, kind) ∷ ds) h = elim (Bool-cases (kind_eq kind k)) [
  | inl e ↦ rw (e, retain_others) (DistinctIds-retain_others k ds h.1)
  | inr e ↦
      rw (e, retain_others)
        (All-retain_others (OtherId id) k ds h.0, DistinctIds-retain_others k ds h.1)
]

pub DistinctKinds-retain_others :
    (k : DeadlineKind) (ds : Deadlines) → DistinctKinds ds → DistinctKinds (retain_others k ds)
unfolding retain_others
DistinctKinds-retain_others k [] h = tt
DistinctKinds-retain_others k ((id, kind) ∷ ds) h = elim (Bool-cases (kind_eq kind k)) [
  | inl e ↦ rw (e, retain_others) (DistinctKinds-retain_others k ds h.1)
  | inr e ↦
      rw (e, retain_others)
        (All-retain_others (LaterKind kind) k ds h.0, DistinctKinds-retain_others k ds h.1)
]

-- A deadline at the end.
pub DistinctIds-append :
    (ds : Deadlines) (id : ℕ) (k : DeadlineKind)
    → All (IdBelow id) ds
    → DistinctIds ds
    → DistinctIds (ds ++ ((id, k) ∷ []))
DistinctIds-append [] id k b h = (tt, tt)
DistinctIds-append ((a, c) ∷ ds) id k b h = (
  All-append (OtherId a) ds ((id, k) ∷ []) h.0 (λ e. ground arith, tt),
  DistinctIds-append ds id k b.1 h.1,
)

pub DistinctKinds-append :
    (ds : Deadlines) (id : ℕ) (k : DeadlineKind)
    → All (OtherKind k) ds
    → DistinctKinds ds
    → DistinctKinds (ds ++ ((id, k) ∷ []))
DistinctKinds-append [] id k b h = (tt, tt)
DistinctKinds-append ((a, c) ∷ ds) id k b h =
    (All-append (LaterKind c) ds ((id, k) ∷ []) h.0 (b.0, tt), DistinctKinds-append ds id k b.1 h.1)

-- An ID that is not in the table.
pub without_absent : (id : ℕ) (ds : Deadlines) → All (OtherId id) ds → without id (ids ds) ≡ ids ds
unfolding without
without_absent id [] h = refl
without_absent id ((a, k) ∷ ds) h = ground (arith, without_absent id ds h.1)

pub without_first :
    (id : ℕ) (ds : Deadlines) → All (OtherId id) ds → without id (id ∷ ids ds) ≡ ids ds
unfolding without
without_first id ds h = rw (eq_self id, without) (without_absent id ds h)

pub after_effects-cancel_all :
    (ds : Deadlines) → DistinctIds ds → after_effects (cancel_all_effects ds) (ids ds) ≡ []
unfolding cancel_all_effects
after_effects-cancel_all [] h = refl
after_effects-cancel_all ((id, k) ∷ ds) h =
    ap (after_effects (cancel_all_effects ds)) (without_first id ds h.0)
    ∙ after_effects-cancel_all ds h.1

pub without_past : (a id : ℕ) (ls : List ℕ) → a ≢ id → without a (id ∷ ls) ≡ id ∷ without a ls
unfolding without
without_past a id ls h = ground arith

-- Cancelling leaves an ID alone that is not in the table.
cancel_past :
    (id : ℕ) (k : DeadlineKind) (ds : Deadlines) (ls : List ℕ)
    → All (OtherId id) ds
    → after_effects (cancel_effects k ds) (id ∷ ls) ≡ id ∷ after_effects (cancel_effects k ds) ls
unfolding cancel_effects
cancel_past id k [] ls h = refl
cancel_past id k ((a, c) ∷ ds) ls h = elim (Bool-cases (kind_eq c k)) [
  | inl e ↦
      rw (e, cancel_effects)
        (ap (after_effects (cancel_effects k ds)) (without_past a id ls h.0)
          ∙ cancel_past id k ds (without a ls) h.1)
  | inr e ↦ rw (e, cancel_effects) (cancel_past id k ds ls h.1)
]

pub after_effects-cancel :
    (k : DeadlineKind) (ds : Deadlines)
    → DistinctIds ds
    → after_effects (cancel_effects k ds) (ids ds) ≡ ids (retain_others k ds)
unfolding cancel_effects retain_others
after_effects-cancel k [] h = refl
after_effects-cancel k ((id, c) ∷ ds) h = elim (Bool-cases (kind_eq c k)) [
  | inl e ↦
      rw (e, cancel_effects, retain_others)
        (ap (after_effects (cancel_effects k ds)) (without_first id ds h.0)
          ∙ after_effects-cancel k ds h.1)
  | inr e ↦
      rw (e, cancel_effects, retain_others)
        (cancel_past id k ds (ids ds) h.0 ∙ ap (λ t. id ∷ t) (after_effects-cancel k ds h.1))
]
