-- ===== src/Prelude/Outcome.antt =====
-- error.rs: the error type and `Result`, with `?` as `do`.
use Prim.Native.Nat.{ℕ}
use Prim.Native.String.{String}
use mathlib.Core.Path.{◌≡◌, refl}
use mathlib.Core.Logic.{◌⊎◌, inl, inr}
use mathlib.Core.Bool.{Bool, true, false}
use mathlib.Core.Option.{Option, none, some}

pub data Error : Type 0 where
  unsupported_version : ℕ → Error
  unknown_message_type : ℕ → Error
  invalid_frame_length : ℕ → Error
  invalid_direction : ℕ → Error
  invalid_length : String → ℕ → ℕ → Error
  storage : String → Error
  invalid_identity_key : Error
  all_zero_shared_secret : Error
  signature_invalid : Error
  confirmation_invalid : Error
  key_derivation : Error
  aead_failure : Error
  encoding : String → Error
  truncated_frame : Error
  invalid_payload_shape : Error
  invalid_map_key : Error
  duplicate_map_key : ℕ → Error
  non_canonical_encoding : Error
  replay_rejected : Error
  message_key_unavailable : ℕ → Error
  skipped_key_limit : Error
  counter_overflow : Error
  invalid_state_transition : Error
  transport_timeout : Error
  invalid_data_payload : Error
  invalid_padding : Error
  data_too_large : Error
  invalid_handshake : Error
  invalid_close_payload : Error
  sas_rejected : Error
  identity_mismatch : Error

pub data Result {ℓ} (A : Type ℓ) : Type ℓ where
  ok : A → Result A
  err : Error → Result A

-- `?` on a result that is bound, and on one whose value is not used.
infixl 5 ◌>>=◌ ◌>>◌
abbrev pub ◌>>=◌ {ℓ κ} : {X : Type ℓ} {Y : Type κ} → Result X → (X → Result Y) → Result Y
err failure >>= next = err failure
ok found >>= next = next found

abbrev pub ◌>>◌ {ℓ} : {Y : Type ℓ} → Result (Unit {0}) → Result Y → Result Y
err failure >> after = err failure
ok done >> after = after

-- `if bad { return Err(e) }`
abbrev pub reject_if : Bool → Error → Result (Unit {0})
reject_if true e = err e
reject_if false e = ok tt

-- `ok_or`, `map_err` over a third-party result, and `map_err` over a result.
abbrev pub ok_or {ℓ} : {A : Type ℓ} → Option A → Error → Result A
ok_or none e = err e
ok_or (some a) e = ok a

abbrev pub map_err {ℓ} : {A : Type ℓ} → String ⊎ A → (String → Error) → Result A
map_err (inl s) f = err (f s)
map_err (inr a) f = ok a

abbrev pub or_error {ℓ} : {A : Type ℓ} → Result A → Error → Result A
or_error (ok a) e = ok a
or_error (err _) e = err e

-- `opt.map(f).transpose()?` for a fallible `f`.
abbrev pub transpose {ℓ κ} :
    {A : Type ℓ} {B : Type κ} → (A → Result B) → Option A → Result (Option B)
transpose f none = ok none
transpose f (some a) = f a >>= λ b. ok (some b)

pub Result-cases {ℓ} :
    {A : Type ℓ} (r : Result A) → ((a : A) × (r ≡ ok a)) ⊎ ((e : Error) × (r ≡ err e))
Result-cases (ok a) = inl (a, refl)
Result-cases (err e) = inr (e, refl)
