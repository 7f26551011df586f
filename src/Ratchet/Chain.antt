-- ===== src/Ratchet/Chain.antt =====
-- `ReceivingChain` of crates/ruxmsg-core/src/ratchet.rs. `prepare_message_key` changes the chain
-- also where it fails later, so each method returns the new chain beside its result.
pub mod Keys
use ruxmsg.Prelude.{
  ℕ, zero, suc, ◌+◌, ◌-◌, ◌^◌, List, [], Option, some, none, Bool, true, false, ltb, leb, ◌==◌,
  if◌then◌else◌, length, lookup, insert, remove, Result, ok, err, message_key_unavailable,
  counter_overflow, skipped_key_limit,
}
use ruxmsg.Protocol.{Bytes, DirectionId, max_skipped_keys, max_prepared_keys}
use ruxmsg.Crypto.{Primitives, derive_message_key}

pub record ReceivingChain : Type 0 where
  pub chain_key : Bytes
  pub next_counter : ℕ
  pub skipped : List (ℕ × Bytes)
  pub direction : DirectionId

unfoldable pub new : Bytes → DirectionId → ReceivingChain
new chain_key direction = record {
  chain_key = chain_key;
  next_counter = 0;
  skipped = [];
  direction = direction;
}

-- `usize::saturating_add`
unfoldable pub saturating_add : ℕ → ℕ → ℕ
saturating_add a b = if ltb (a + b) (2 ^ 64) then a + b else 2 ^ 64 - 1

-- Both guards of `prepare_message_key` on how far the chain may run ahead.
unfoldable pub exceeds_limits : ReceivingChain → ℕ → Bool
unfolding saturating_add
exceeds_limits c counter =
    let gap = counter - c.next_counter in
    if ltb max_skipped_keys gap
    then true
    else ltb max_prepared_keys (saturating_add (saturating_add (length c.skipped) gap) 1)

module _ (p : Primitives) where
  -- One derivation: the key of `next_counter` is retained and the chain moves on. The counter
  -- cannot wrap, as it stays at most at the target, which is not `u64::MAX`.
  unfoldable pub derive_next : ReceivingChain → ReceivingChain
  derive_next c =
      let (key, next) = derive_message_key p c.chain_key c.direction in
      record c {
        chain_key = next;
        next_counter = c.next_counter + 1;
        skipped = insert c.next_counter key c.skipped;
      }

  -- `while self.next_counter < counter`, by the rounds left.
  unfoldable pub derive_rounds : ℕ → ReceivingChain → ReceivingChain
  derive_rounds zero c = c
  derive_rounds (suc n) c = derive_rounds n (derive_next c)

  -- The derivation of every skipped key and of the target's.
  unfoldable pub derive_through : ReceivingChain → ℕ → ReceivingChain × Result Bytes
  derive_through c counter =
      let c' = derive_rounds (counter - c.next_counter) c in
      (derive_next c', ok (derive_message_key p c'.chain_key c'.direction).0)

  unfoldable pub prepare_message_key : ReceivingChain → ℕ → ReceivingChain × Result Bytes
  unfolding exceeds_limits derive_through
  prepare_message_key c counter = elim (lookup counter c.skipped) [
    | some key ↦ (c, ok key)
    | none ↦
        if ltb counter c.next_counter
        then (c, err (message_key_unavailable counter))
        else if counter == 2 ^ 64 - 1
        then (c, err counter_overflow)
        else if exceeds_limits c counter
        then (c, err skipped_key_limit)
        else derive_through c counter
  ]

unfoldable pub commit_message_key : ReceivingChain → ℕ → ReceivingChain × Result (Unit {0})
commit_message_key c counter = elim (lookup counter c.skipped) [
  | some _ ↦ (record c { skipped = remove counter c.skipped }, ok tt)
  | none ↦ (c, err (message_key_unavailable counter))
]
