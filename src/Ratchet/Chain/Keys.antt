-- ===== src/Ratchet/Chain/Keys.antt =====
-- The receiving chain against the sequence of keys that a sender derives one by one.
use ruxmsg.Prelude.{
  ℕ, zero, suc, ◌+◌, ◌-◌, ◌^◌, ◌≤◌, ◌<◌, ◌≡◌, refl, ◌∙◌, ap, List, [], ◌∷◌, some, none, true, false,
  ltb, ◌==◌, if◌then◌else◌, length, lookup, insert, remove, lookup-insert, lookup-remove,
  length-insert, length-remove, ok, err, message_key_unavailable, counter_overflow,
  skipped_key_limit, arith, ◌⊎◌, inl, inr, Bool-cases, Option-cases, lt→ltb, ==_iff, ◌≢◌, Error,
}
use native.Mathlib.Numerals.{add-one}
use ruxmsg.Protocol.{Bytes, DirectionId, max_skipped_keys, max_prepared_keys}
use ruxmsg.Crypto.{Primitives, derive_message_key}
use ruxmsg.Ratchet.Chain.{
  ReceivingChain, new, exceeds_limits, derive_next, derive_rounds, derive_through,
  prepare_message_key, commit_message_key,
}

-- A counter that `prepare_message_key` serves: its key is retained, or it is ahead of the chain,
-- not the last one, within 64 of the chain, and the retained keys stay at 128 at most.
-- By docs/protocol-spec.md, section 7.7, every frame is rejected while 64 keys or more are retained;
-- the code does not do that.
abbrev pub IsServed : ReceivingChain → ℕ → Type 0
IsServed c counter =
    ((key : Bytes) × (lookup counter c.skipped ≡ some key))
    ⊎ ((c.next_counter ≤ counter)
        × (counter ≢ 2 ^ 64 - 1)
        × (counter - c.next_counter ≤ max_skipped_keys)
        × (length c.skipped + (counter - c.next_counter) + 1 ≤ max_prepared_keys))

pub data Call : Type 0 where
  prepares commits : ℕ → Call

commit_held :
    (d : ReceivingChain) (counter : ℕ) (key : Bytes)
    → lookup counter d.skipped ≡ some key
    → commit_message_key d counter ≡ (record d { skipped = remove counter d.skipped }, ok tt)
unfolding commit_message_key
commit_held d counter key held = rw (held, commit_message_key)

module _ (p : Primitives) (origin : Bytes) (direction : DirectionId) where
  -- The chain key and the message key number `n` of a chain that starts at `origin`.
  pub chain_at : ℕ → Bytes
  chain_at zero = origin
  chain_at (suc n) = (derive_message_key p (chain_at n) direction).1

  pub key_at : ℕ → Bytes
  key_at n = (derive_message_key p (chain_at n) direction).0

  -- The chain stands at `next_counter`, and retains right keys of earlier counters only, 128 at
  -- most.
  pub record IsValid (c : ReceivingChain) : Type 0 where
    pub on_chain : c.chain_key ≡ chain_at c.next_counter
    pub same_direction : c.direction ≡ direction
    pub retained :
        (k : ℕ) (v : Bytes) → lookup k c.skipped ≡ some v → (k < c.next_counter) × (v ≡ key_at k)
    pub bounded : length c.skipped ≤ max_prepared_keys

  -- The same, but for the bound.
  pub record IsOnChain (c : ReceivingChain) : Type 0 where
    pub on_chain : c.chain_key ≡ chain_at c.next_counter
    pub same_direction : c.direction ≡ direction
    pub retained :
        (k : ℕ) (v : Bytes) → lookup k c.skipped ≡ some v → (k < c.next_counter) × (v ≡ key_at k)

  pub new-IsValid : IsValid (new origin direction)
  unfolding new chain_at lookup
  new-IsValid = record {
    on_chain = refl;
    same_direction = refl;
    retained = λ k v e. ground arith;
    bounded = omega arith;
  }

  -- A retained key after one more insertion is the new one or an old one.
  retained_insert :
      (c : ReceivingChain) (n : ℕ) (key : Bytes)
      → ((k : ℕ) (v : Bytes) → lookup k c.skipped ≡ some v → (k < n) × (v ≡ key_at k))
      → key ≡ key_at n
      → (k : ℕ) (v : Bytes) → lookup k (insert n key c.skipped) ≡ some v
      → (k < n + 1) × (v ≡ key_at k)
  retained_insert c n key old e k v h =
      let h' : (if n == k then some key else lookup k c.skipped) ≡ some v =
        rw (lookup-insert n k key c.skipped) at h in
      elim (Bool-cases (n == k)) [
        | inl hit ↦
            let s : n ≡ k = (==_iff n k).0 hit in
            let w : some key ≡ some v = rw hit at h' in (omega arith, cc)
        | inr miss ↦
            let w : lookup k c.skipped ≡ some v = rw miss at h' in
            let r = old k v w in (omega arith, r.1)
      ]

  derive_next-IsOnChain : (c : ReceivingChain) → IsOnChain c → IsOnChain (derive_next p c)
  unfolding derive_next chain_at key_at
  derive_next-IsOnChain c v = record {
    on_chain = rw add-one (cc (v.on_chain, v.same_direction));
    same_direction = v.same_direction;
    retained =
        retained_insert c c.next_counter (derive_message_key p c.chain_key c.direction).0 v.retained
          (cc (v.on_chain, v.same_direction));
  }

  derive_next-length :
      (c : ReceivingChain) → length (derive_next p c).skipped ≤ length c.skipped + 1
  unfolding derive_next
  derive_next-length c =
      length-insert c.next_counter (derive_message_key p c.chain_key c.direction).0 c.skipped

  derive_next-next : (c : ReceivingChain) → (derive_next p c).next_counter ≡ c.next_counter + 1
  unfolding derive_next
  derive_next-next c = refl

  derive_next-lookup :
      (c : ReceivingChain) (counter : ℕ)
      → IsOnChain c
      → c.next_counter ≡ counter
      → lookup counter (derive_next p c).skipped ≡ some (key_at counter)
  unfolding derive_next key_at
  derive_next-lookup c counter v e =
      let key = (derive_message_key p c.chain_key c.direction).0 in
      let law : lookup counter (insert c.next_counter key c.skipped) ≡ some key =
        ground (arith, lookup-insert c.next_counter counter key c.skipped) in
      law ∙ cc (v.on_chain, v.same_direction, e)

  derive_rounds-IsOnChain :
      (n : ℕ) (c : ReceivingChain) → IsOnChain c → IsOnChain (derive_rounds p n c)
  unfolding derive_rounds
  derive_rounds-IsOnChain zero c v = v
  derive_rounds-IsOnChain (suc n) c v =
      derive_rounds-IsOnChain n (derive_next p c) (derive_next-IsOnChain c v)

  derive_rounds-length :
      (n : ℕ) (c : ReceivingChain) → length (derive_rounds p n c).skipped ≤ length c.skipped + n
  unfolding derive_rounds
  derive_rounds-length zero c = omega arith
  derive_rounds-length (suc n) c =
      omega (arith, derive_rounds-length n (derive_next p c), derive_next-length c)

  derive_rounds-next :
      (n : ℕ) (c : ReceivingChain) → (derive_rounds p n c).next_counter ≡ c.next_counter + n
  unfolding derive_rounds
  derive_rounds-next zero c = omega arith
  derive_rounds-next (suc n) c =
      omega (arith, derive_rounds-next n (derive_next p c), derive_next-next c)

  -- What `derive_through` returns for a counter that is not behind the chain.
  derive_through_lem :
      (c : ReceivingChain) (counter : ℕ)
      → IsOnChain c
      → c.next_counter ≤ counter
      → let (c', r) = derive_through p c counter in
        IsOnChain c'
        × (r ≡ ok (key_at counter))
        × (c'.next_counter ≡ counter + 1)
        × (lookup counter c'.skipped ≡ some (key_at counter))
        × (length c'.skipped ≤ length c.skipped + (counter - c.next_counter) + 1)
  unfolding derive_through key_at
  derive_through_lem c counter v h =
      let n = counter - c.next_counter in
      let d = derive_rounds p n c in
      let vd : IsOnChain d = derive_rounds-IsOnChain n c v in
      let e : d.next_counter ≡ counter = omega (arith, derive_rounds-next n c) in
      (
        derive_next-IsOnChain d vd,
        cc (vd.on_chain, vd.same_direction, e),
        omega (arith, derive_next-next d),
        derive_next-lookup d counter vd e,
        omega (arith, derive_next-length d, derive_rounds-length n c),
      )

  valid-IsOnChain : (c : ReceivingChain) → IsValid c → IsOnChain c
  valid-IsOnChain c v = record {
    on_chain = v.on_chain;
    same_direction = v.same_direction;
    retained = v.retained;
  }

  not_exceeding :
      (c : ReceivingChain) (counter : ℕ)
      → length c.skipped ≤ max_prepared_keys
      → exceeds_limits c counter ≡ false
      → (counter - c.next_counter ≤ max_skipped_keys)
        × (length c.skipped + (counter - c.next_counter) + 1 ≤ max_prepared_keys)
  unfolding exceeds_limits
  not_exceeding c counter b h = ground arith

  exceeding :
      (c : ReceivingChain) (counter : ℕ)
      → exceeds_limits c counter ≡ true
      → ¬ (
          (counter - c.next_counter ≤ max_skipped_keys)
          × (length c.skipped + (counter - c.next_counter) + 1 ≤ max_prepared_keys))
  unfolding exceeds_limits
  exceeding c counter h k = ground arith

  not-IsServed :
      (c : ReceivingChain) (counter : ℕ)
      → lookup counter c.skipped ≡ none
      → ¬ (
          (c.next_counter ≤ counter)
          × (counter ≢ 2 ^ 64 - 1)
          × (counter - c.next_counter ≤ max_skipped_keys)
          × (length c.skipped + (counter - c.next_counter) + 1 ≤ max_prepared_keys))
      → ¬ IsServed c counter
  not-IsServed c counter e n (inl (key, q)) = ground arith
  not-IsServed c counter e n (inr q) = n q

  unavailable :
      (c : ReceivingChain) (counter : ℕ)
      → lookup counter c.skipped ≡ none
      → counter < c.next_counter
      → prepare_message_key p c counter ≡ (c, err (message_key_unavailable counter))
  unfolding prepare_message_key
  unavailable c counter e behind = rw (e, prepare_message_key, lt→ltb counter c.next_counter behind)

  committed_refused :
      (d : ReceivingChain) (counter : ℕ)
      → lookup counter d.skipped ≡ some (key_at counter)
      → counter < d.next_counter
      → let c' = (commit_message_key d counter).0 in
        prepare_message_key p c' counter ≡ (c', err (message_key_unavailable counter))
  committed_refused d counter held behind =
      let gone : lookup counter (remove counter d.skipped) ≡ none =
        ground (arith, lookup-remove counter counter d.skipped) in
      rw (commit_held d counter (key_at counter) held)
        (unavailable (record d { skipped = remove counter d.skipped }) counter gone behind)

  -- The three ways of a call: a retained key, a refusal that changes nothing, a derivation.
  abbrev Ways : ReceivingChain → ℕ → Type 0
  Ways c counter =
      ((key : Bytes) × (lookup counter c.skipped ≡ some key)
        × (prepare_message_key p c counter ≡ (c, ok key)))
      ⊎ ((e : Error) × (¬ IsServed c counter) × (prepare_message_key p c counter ≡ (c, err e)))
      ⊎ ((c.next_counter ≤ counter)
          × (counter ≢ 2 ^ 64 - 1)
          × (counter - c.next_counter ≤ max_skipped_keys)
          × (length c.skipped + (counter - c.next_counter) + 1 ≤ max_prepared_keys)
          × (prepare_message_key p c counter ≡ derive_through p c counter))

  prepare-Ways : (c : ReceivingChain) (counter : ℕ) → IsValid c → Ways c counter
  unfolding prepare_message_key
  prepare-Ways c counter v = elim (Option-cases (lookup counter c.skipped)) [
    | inr (key, e) ↦ inl (key, e, rw (e, prepare_message_key))
    | inl e ↦ elim (Bool-cases (ltb counter c.next_counter)) [
      | inl behind ↦ inr (
          inl (
            message_key_unavailable counter,
            not-IsServed c counter e (λ q. ground arith),
            rw (e, prepare_message_key, behind),
          ))
      | inr ahead ↦ elim (Bool-cases (counter == 2 ^ 64 - 1)) [
        | inl last ↦ inr (
            inl (
              counter_overflow,
              not-IsServed c counter e (λ q. ground arith),
              rw (e, prepare_message_key, ahead, last),
            ))
        | inr inside ↦ elim (Bool-cases (exceeds_limits c counter)) [
          | inl far ↦ inr (
              inl (
                skipped_key_limit,
                not-IsServed c counter e (λ q. exceeding c counter far (q.2, q.3)),
                rw (e, prepare_message_key, ahead, inside, far),
              ))
          | inr near ↦
              let b = not_exceeding c counter v.bounded near in
              inr (
                inr (
                  ground arith,
                  ground arith,
                  b.0,
                  b.1,
                  rw (e, prepare_message_key, ahead, inside, near),
                ))
        ]
      ]
    ]
  ]

  -- Preparing any key keeps the chain valid, whatever the result.
  pub prepare_message_key-IsValid :
      (c : ReceivingChain) (counter : ℕ) → IsValid c → IsValid (prepare_message_key p c counter).0
  prepare_message_key-IsValid c counter v = elim (prepare-Ways c counter v) [
    | inl (key, e, q) ↦ rw q v
    | inr (inl (e, s, q)) ↦ rw q v
    | inr (inr (h, last, gap, room, q)) ↦
        let d = derive_through_lem c counter (valid-IsOnChain c v) h in
        rw q (record {
          on_chain = d.0.on_chain;
          same_direction = d.0.same_direction;
          retained = d.0.retained;
          bounded = omega (arith, d.4);
        })
  ]

  -- On a valid chain, a counter whose key is retained, or that is ahead of the chain by at most 64,
  -- is not the last one and leaves at most 128 keys retained, gets the key of that number in the
  -- chain from `origin`, and the key stays retained. This includes chains that retain 64 keys or
  -- more, where section 7.7 of docs/protocol-spec.md says to reject the frame.
  pub prepare_served :
      (c : ReceivingChain) (counter : ℕ)
      → IsValid c
      → IsServed c counter
      → let (c', r) = prepare_message_key p c counter in
        (r ≡ ok (key_at counter)) × (lookup counter c'.skipped ≡ some (key_at counter))
  prepare_served c counter v s = elim (prepare-Ways c counter v) [
    | inl (key, e, q) ↦
        let k : key ≡ key_at counter = (v.retained counter key e).1 in rw q (ap ok k, e ∙ ap some k)
    | inr (inl (e, not_s, q)) ↦ absurd (not_s s)
    | inr (inr (h, last, gap, room, q)) ↦
        let d = derive_through_lem c counter (valid-IsOnChain c v) h in rw q (d.1, d.3)
  ]

  -- On a valid chain, a counter that is not served gets an error, and the chain stays as it was.
  pub prepare_not_served :
      (c : ReceivingChain) (counter : ℕ)
      → IsValid c
      → ¬ IsServed c counter
      → (e : Error) × (prepare_message_key p c counter ≡ (c, err e))
  prepare_not_served c counter v s = elim (prepare-Ways c counter v) [
    | inl (key, e, q) ↦ absurd (s (inl (key, e)))
    | inr (inl (e, not_s, q)) ↦ (e, q)
    | inr (inr (h, last, gap, room, q)) ↦ absurd (s (inr (h, last, gap, room)))
  ]

  commit_message_key-IsValid :
      (c : ReceivingChain) (counter : ℕ) → IsValid c → IsValid (commit_message_key c counter).0
  unfolding commit_message_key
  commit_message_key-IsValid c counter v = elim (Option-cases (lookup counter c.skipped)) [
    | inl e ↦ rw (e, commit_message_key) v
    | inr (key, e) ↦
        rw (e, commit_message_key)
          (record {
            on_chain = v.on_chain;
            same_direction = v.same_direction;
            retained = λ k x h. v.retained k x (ground (arith, lookup-remove counter k c.skipped));
            bounded = omega (arith, length-remove counter c.skipped);
          })
  ]

  -- A client that prepares and commits in any order.
  pub run : ReceivingChain → List Call → ReceivingChain
  run c [] = c
  run c (commits n ∷ calls) = run (commit_message_key c n).0 calls
  run c (prepares n ∷ calls) = run (prepare_message_key p c n).0 calls

  -- A valid chain stays valid whatever is prepared and committed, in any order: it stands on the
  -- chain from `origin`, and retains right keys of earlier counters only, 128 at most.
  pub run-IsValid : (c : ReceivingChain) (calls : List Call) → IsValid c → IsValid (run c calls)
  unfolding run
  run-IsValid c [] v = v
  run-IsValid c (commits n ∷ calls) v =
      run-IsValid (commit_message_key c n).0 calls (commit_message_key-IsValid c n v)
  run-IsValid c (prepares n ∷ calls) v =
      run-IsValid (prepare_message_key p c n).0 calls (prepare_message_key-IsValid c n v)

  -- On a valid chain, once the key of a served counter was prepared and committed, the next request
  -- for the counter is refused as unavailable and changes nothing.
  pub prepare_committed :
      (c : ReceivingChain) (counter : ℕ)
      → IsValid c
      → IsServed c counter
      → let c' = (commit_message_key (prepare_message_key p c counter).0 counter).0 in
        prepare_message_key p c' counter ≡ (c', err (message_key_unavailable counter))
  prepare_committed c counter v s =
      let d = (prepare_message_key p c counter).0 in
      let vd : IsValid d = prepare_message_key-IsValid c counter v in
      let held : lookup counter d.skipped ≡ some (key_at counter) =
        (prepare_served c counter v s).1 in
      committed_refused d counter held (vd.retained counter (key_at counter) held).0
