-- ===== src/Wire/Structure/Fuel.antt =====
-- The rounds that the check of a CBOR structure takes.
use ruxmsg.Prelude.{
  ℕ, zero, suc, ◌+◌, ◌-◌, ◌*◌, ◌/◌, ◌%◌, ◌^◌, ◌≤◌, ◌<◌, ◌≡◌, refl, List, [], ◌∷◌, some, ltb, leb,
  ◌==◌, not, length, drop, take, be_fold, Result, ok, err, subst, ◌⊎◌, ◌>>=◌, Result-cases,
  Bool-cases, inl, inr, arith,
}
use ruxmsg.Protocol.{Bytes}
use ruxmsg.Wire.Structure.{
  Reader, argument_size, is_shortest, read_sized, read_cbor_argument, pop_finished, skip_string,
  push_container, open_item, read_item, validate_items,
}

length-drop : (n : ℕ) (b : Bytes) → length (drop n b) ≤ length b
length-drop zero b = omega arith
length-drop (suc n) [] = omega arith
length-drop (suc n) (x ∷ b) = omega (arith, length-drop n b)

-- A reader that is returned has at most `n` bytes left.
abbrev Leaves : ℕ → Result (ℕ × Reader) → Type 0
Leaves n (ok (v, r)) = length r.rest ≤ n
Leaves n (err e) = Unit {0}

abbrev LeavesItem : ℕ → Result (Reader × List ℕ) → Type 0
LeavesItem n (ok (r, st)) = length r.rest ≤ n
LeavesItem n (err e) = Unit {0}

abbrev LeavesReader : ℕ → Result Reader → Type 0
LeavesReader n (ok r) = length r.rest ≤ n
LeavesReader n (err e) = Unit {0}

read_sized-Leaves : (r : Reader) (size : ℕ) → Leaves (length r.rest) (read_sized r size)
unfolding read_sized
read_sized-Leaves r size = elim (Bool-cases (ltb (length r.rest) size)) [
  | inl e ↦ rw (e, read_sized) tt
  | inr e ↦ elim (Bool-cases (not (is_shortest size (be_fold 0 (take size r.rest))))) [
    | inl k ↦ rw (e, k, read_sized) tt
    | inr k ↦ rw (e, k, read_sized) (length-drop size r.rest)
  ]
]

read_cbor_argument-Leaves : (r : Reader) (a : ℕ) → Leaves (length r.rest) (read_cbor_argument r a)
unfolding read_cbor_argument
read_cbor_argument-Leaves r a = elim (Bool-cases (leb a 23)) [
  | inl e ↦ rw (e, read_cbor_argument) (omega arith)
  | inr e ↦ elim (Bool-cases (leb a 27)) [
    | inl k ↦ rw (e, k, read_cbor_argument) (read_sized-Leaves r (argument_size a))
    | inr k ↦ rw (e, k, read_cbor_argument) tt
  ]
]

skip_string-Leaves : (r : Reader) (len : ℕ) → LeavesReader (length r.rest) (skip_string r len)
unfolding skip_string
skip_string-Leaves r len = elim (Bool-cases (leb (2 ^ 64) (r.position + len))) [
  | inl e ↦ rw (e, skip_string) tt
  | inr e ↦ elim (Bool-cases (ltb (length r.rest) len)) [
    | inl k ↦ rw (e, k, skip_string) tt
    | inr k ↦ rw (e, k, skip_string) (length-drop len r.rest)
  ]
]

push_container-LeavesItem :
    (r : Reader) (st : List ℕ) (v : ℕ)
    → LeavesItem (length r.rest) (push_container st v >>= (λ s. ok (r, s)))
push_container-LeavesItem r st v = elim (Result-cases (push_container st v)) [
  | inl (s, e) ↦ rw e (omega arith)
  | inr (er, e) ↦ rw e tt
]

open_item-LeavesItem :
    (major v : ℕ) (r : Reader) (st : List ℕ) → LeavesItem (length r.rest) (open_item major v r st)
unfolding open_item
open_item-LeavesItem major v r st = elim (Bool-cases (leb major 1)) [
  | inl a ↦ rw (a, open_item) (omega arith)
  | inr a ↦ elim (Bool-cases (leb major 3)) [
    | inl b ↦ rw (a, b, open_item) (skipped (skip_string r v) (skip_string-Leaves r v))
    | inr b ↦ elim (Bool-cases (major == 4)) [
      | inl c ↦ rw (a, b, c, open_item) (push_container-LeavesItem r st v)
      | inr c ↦ elim (Bool-cases (major == 5)) [
        | inr d ↦ rw (a, b, c, d, open_item) tt
        | inl d ↦ elim (Bool-cases (leb (2 ^ 64) (v * 2))) [
          | inl f ↦ rw (a, b, c, d, f, open_item) tt
          | inr f ↦ rw (a, b, c, d, f, open_item) (push_container-LeavesItem r st (v * 2))
        ]
      ]
    ]
  ]
]
  where
    skipped :
        (m : Result Reader)
        → LeavesReader (length r.rest) m
        → LeavesItem (length r.rest) (m >>= (λ r'. ok (r', st)))
    skipped (ok r') h = h
    skipped (err e) h = tt

-- A round that goes on has taken a byte.
read_item-LeavesItem :
    (position : ℕ) (b : ℕ) (rest : Bytes) (n : ℕ) (st : List ℕ)
    → LeavesItem (length rest) (read_item (record { position = position; rest = b ∷ rest }) n st)
unfolding read_item
read_item-LeavesItem position b rest n st =
    after (read_cbor_argument (record { position = position + 1; rest = rest }) (b % 32))
      (read_cbor_argument-Leaves (record { position = position + 1; rest = rest }) (b % 32))
  where
    after :
        (m : Result (ℕ × Reader))
        → Leaves (length rest) m
        → LeavesItem (length rest) (m >>= (λ (v, r). open_item (b / 32) v r (n ∷ st)))
    after (err e) h = tt
    after (ok (v, r)) h =
        weaker (open_item (b / 32) v r (n ∷ st)) (open_item-LeavesItem (b / 32) v r (n ∷ st))
      where
        weaker :
            (m : Result (Reader × List ℕ))
            → LeavesItem (length r.rest) m
            → LeavesItem (length rest) m
        weaker (err e) k = tt
        weaker (ok (r', s)) k = omega (arith, h, k)

abbrev TakesByte : ℕ → Result (Reader × List ℕ) → Type 0
TakesByte n (ok (r, st)) = length r.rest < n
TakesByte n (err e) = Unit {0}

read_item-TakesByte :
    (position : ℕ) (rest : Bytes) (n : ℕ) (st : List ℕ)
    → TakesByte (length rest) (read_item (record { position = position; rest = rest }) n st)
unfolding read_item
read_item-TakesByte position [] n st = tt
read_item-TakesByte position (b ∷ rest) n st =
    stricter (read_item (record { position = position; rest = b ∷ rest }) n st)
      (read_item-LeavesItem position b rest n st)
  where
    stricter :
        (m : Result (Reader × List ℕ))
        → LeavesItem (length rest) m
        → TakesByte (suc (length rest)) m
    stricter (err e) k = tt
    stricter (ok (r', s)) k = omega (arith, k)

stack_cases : (st : List ℕ) → (st ≡ []) ⊎ ((n : ℕ) × (st' : List ℕ) × (st ≡ n ∷ st'))
stack_cases [] = inl refl
stack_cases (n ∷ st) = inr (n, st, refl)

-- From any reader and stack, with more rounds than there are bytes left, the check comes to a
-- result, which is a success or an error.
pub validate_items_lem :
    (fuel : ℕ) (r : Reader) (stack : List ℕ)
    → length r.rest < fuel
    → (result : Result Reader) × (validate_items fuel r stack ≡ some result)
unfolding validate_items
validate_items_lem zero r stack h = absurd (omega arith)
validate_items_lem (suc fuel) r stack h = elim (stack_cases (pop_finished stack)) [
  | inl e ↦ (ok r, rw (e, validate_items) refl)
  | inr (n, st, e) ↦ elim (Result-cases (read_item r (n - 1) st)) [
    | inr (er, k) ↦ (err er, rw (e, k, validate_items) refl)
    | inl ((r', s), k) ↦
        let taken : TakesByte (length r.rest) (ok (r', s)) =
          subst (TakesByte (length r.rest)) k (read_item-TakesByte r.position r.rest (n - 1) st) in
        let later = validate_items_lem fuel r' s (omega (arith, taken, h)) in
        (later.0, rw (e, k, validate_items) later.1)
  ]
]
