-- ===== src/Wire/Structure.antt =====
-- `validate_cbor_structure` and `read_cbor_argument` of crates/ruxmsg-core/src/wire.rs. A reader
-- is the position with the bytes that follow it in the payload, `payload[position..]`.
pub mod Fuel
use ruxmsg.Prelude.{
  ℕ, zero, suc, ◌+◌, ◌-◌, ◌*◌, ◌/◌, ◌%◌, ◌^◌, List, [], ◌∷◌, Bool, false, not, Option, some, none,
  ltb, leb, ◌==◌, if◌then◌else◌, length, take, drop, be_fold, Result, ok, err, ◌>>=◌, ◌>>◌,
  truncated_frame, non_canonical_encoding, reject_if,
}
use ruxmsg.Protocol.{Bytes}

abbrev pub max_cbor_nesting : ℕ
max_cbor_nesting = 32

pub record Reader : Type 0 where
  pub position : ℕ
  pub rest : Bytes

-- The number of argument bytes that follow the initial byte, for 24 to 27.
abbrev pub argument_size : ℕ → ℕ
argument_size additional = 2 ^ (additional - 24)

unfoldable pub is_shortest : ℕ → ℕ → Bool
is_shortest size value =
    if size == 1
    then leb 24 value
    else if size == 2
    then ltb 255 value
    else if size == 4
    then ltb 65535 value
    else if size == 8
    then ltb 4294967295 value
    else false

-- `position.checked_add(bytes)` fails only where `payload.get` fails too, with the same error.
unfoldable pub read_sized : Reader → ℕ → Result (ℕ × Reader)
read_sized r size = do
  reject_if (ltb (length r.rest) size) truncated_frame
  let value = be_fold 0 (take size r.rest)
  reject_if (not (is_shortest size value)) non_canonical_encoding
  ok (value, record { position = r.position + size; rest = drop size r.rest })

unfoldable pub read_cbor_argument : Reader → ℕ → Result (ℕ × Reader)
read_cbor_argument r additional =
    if leb additional 23
    then ok (additional, r)
    else if leb additional 27
    then read_sized r (argument_size additional)
    else err non_canonical_encoding

-- The inner loop, which pops finished containers; the last entry of the vector is the head here.
unfoldable pub pop_finished : List ℕ → List ℕ
pop_finished [] = []
pop_finished (zero ∷ remaining) = pop_finished remaining
pop_finished (suc n ∷ remaining) = suc n ∷ remaining

-- `usize` is 64 bits wide: `try_from` never fails, and `checked_add` and `checked_mul` fail from
-- 2^64 on.
unfoldable pub skip_string : Reader → ℕ → Result Reader
skip_string r len = do
  reject_if (leb (2 ^ 64) (r.position + len)) non_canonical_encoding
  reject_if (ltb (length r.rest) len) truncated_frame
  ok (record { position = r.position + len; rest = drop len r.rest })

unfoldable pub push_container : List ℕ → ℕ → Result (List ℕ)
push_container remaining items =
    if items == 0
    then ok remaining
    else if leb max_cbor_nesting (length remaining)
    then err non_canonical_encoding
    else ok (items ∷ remaining)

-- The `match major`.
unfoldable pub open_item : ℕ → ℕ → Reader → List ℕ → Result (Reader × List ℕ)
open_item major value r remaining =
    if leb major 1
    then ok (r, remaining)
    else if leb major 3
    then skip_string r value >>= (λ r'. ok (r', remaining))
    else if major == 4
    then push_container remaining value >>= (λ s. ok (r, s))
    else if major == 5
    then if leb (2 ^ 64) (value * 2)
      then err non_canonical_encoding
      else push_container remaining (value * 2) >>= (λ s. ok (r, s))
    else err non_canonical_encoding

-- One round of the outer loop, whose last container has `n` items left after this one.
unfoldable pub read_item : Reader → ℕ → List ℕ → Result (Reader × List ℕ)
read_item r n remaining = elim r.rest [
  | [] ↦ err truncated_frame
  | initial ∷ rest ↦ do
    (value, r') ←
        read_cbor_argument (record { position = r.position + 1; rest = rest }) (initial % 32)
    open_item (initial / 32) value r' (n ∷ remaining)
]

-- The outer loop; `none` means that the fuel ran out.
unfoldable pub validate_items : ℕ → Reader → List ℕ → Option (Result Reader)
validate_items zero r remaining = none
validate_items (suc fuel) r remaining = elim (pop_finished remaining) [
  | [] ↦ some (ok r)
  | n ∷ remaining' ↦ elim (read_item r (n - 1) remaining') [
    | ok (r', remaining'') ↦ validate_items fuel r' remaining''
    | err e ↦ some (err e)
  ]
]

-- Each round takes a byte, so that one round more than there are bytes is enough: the
-- `truncated_frame` of the first case is never returned.
unfoldable pub validate_cbor_structure : Bytes → Result (Unit {0})
validate_cbor_structure payload =
    elim (validate_items (suc (length payload)) (record { position = 0; rest = payload })
      (1 ∷ [])) [
        | none ↦ err truncated_frame
        | some (err e) ↦ err e
        | some (ok r) ↦ if r.position == length payload then ok tt else err non_canonical_encoding
      ]
