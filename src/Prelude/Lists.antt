-- ===== src/Prelude/Lists.antt =====
-- Lists measured and cut by native numbers, and big-endian numbers in byte lists.
use Prim.Native.Nat.{ℕ, zero, suc, ◌+◌, ◌*◌, ◌/◌, ◌%◌, ◌^◌, ◌<◌}
use mathlib.Core.Path.{◌≡◌, refl, ap}
use mathlib.Core.List.{List, [], ◌∷◌, ◌++◌}
use mathlib.Core.Option.{Option, none, some}
use native.Mathlib.Omega.{arith}

module _ {ℓ} {A : Type ℓ} where
  abbrev pub length : List A → ℕ
  length [] = 0
  length (x ∷ xs) = suc (length xs)

  abbrev pub take : ℕ → List A → List A
  take zero xs = []
  take (suc n) [] = []
  take (suc n) (x ∷ xs) = x ∷ take n xs

  abbrev pub drop : ℕ → List A → List A
  drop zero xs = xs
  drop (suc n) [] = []
  drop (suc n) (x ∷ xs) = drop n xs

  abbrev pub get_elem? : List A → ℕ → Option A
  get_elem? [] i = none
  get_elem? (x ∷ xs) zero = some x
  get_elem? (x ∷ xs) (suc i) = get_elem? xs i

  abbrev pub set : List A → ℕ → A → List A
  set [] i v = []
  set (x ∷ xs) zero v = v ∷ xs
  set (x ∷ xs) (suc i) v = x ∷ set xs i v

  abbrev pub replicate : ℕ → A → List A
  replicate zero a = []
  replicate (suc n) a = a ∷ replicate n a

  abbrev pub All {κ} : (A → Type κ) → List A → Type κ
  All P [] = Unit {κ}
  All P (x ∷ xs) = P x × All P xs

  pub length-append : (xs ys : List A) → length (xs ++ ys) ≡ length xs + length ys
  length-append [] ys = omega arith
  length-append (x ∷ xs) ys = omega (arith, length-append xs ys)

  pub length-replicate : (n : ℕ) (a : A) → length (replicate n a) ≡ n
  length-replicate zero a = refl
  length-replicate (suc n) a = ap suc (length-replicate n a)

  pub take-append : (xs ys : List A) → take (length xs) (xs ++ ys) ≡ xs
  take-append [] ys = refl
  take-append (x ∷ xs) ys = ap (λ t. x ∷ t) (take-append xs ys)

  pub drop-append : (xs ys : List A) → drop (length xs) (xs ++ ys) ≡ ys
  drop-append [] ys = refl
  drop-append (x ∷ xs) ys = drop-append xs ys

  pub All-append {κ} : (P : A → Type κ) (xs ys : List A) → All P xs → All P ys → All P (xs ++ ys)
  All-append P [] ys h k = k
  All-append P (x ∷ xs) ys h k = (h.0, All-append P xs ys h.1 k)

abbrev pub IsByte : ℕ → Type 0
IsByte b = b < 256

abbrev pub IsBytes : List ℕ → Type 0
IsBytes = All IsByte

-- `to_be_bytes` of a u16, a u32 and a u64.
abbrev pub be_bytes2 : ℕ → List ℕ
be_bytes2 v = (v / 256 % 256) ∷ (v % 256) ∷ []

abbrev pub be_bytes4 : ℕ → List ℕ
be_bytes4 v = (v / 2 ^ 24 % 256) ∷ (v / 2 ^ 16 % 256) ∷ be_bytes2 v

abbrev pub be_bytes8 : ℕ → List ℕ
be_bytes8 v =
    (v / 2 ^ 56 % 256) ∷ (v / 2 ^ 48 % 256) ∷ (v / 2 ^ 40 % 256) ∷ (v / 2 ^ 32 % 256) ∷ be_bytes4 v

-- The fold `(value << 8) | byte` over a u64, from an initial value.
abbrev pub be_fold : ℕ → List ℕ → ℕ
be_fold v [] = v
be_fold v (b ∷ bs) = be_fold ((v * 256 + b) % 2 ^ 64) bs

pub be_fold-be_bytes2 : (v : ℕ) → v < 2 ^ 16 → be_fold 0 (be_bytes2 v) ≡ v
be_fold-be_bytes2 v h = omega arith

pub be_fold-be_bytes4 : (v : ℕ) → v < 2 ^ 32 → be_fold 0 (be_bytes4 v) ≡ v
be_fold-be_bytes4 v h = omega arith

pub be_fold-be_bytes8 : (v : ℕ) → v < 2 ^ 64 → be_fold 0 (be_bytes8 v) ≡ v
be_fold-be_bytes8 v h = omega arith
