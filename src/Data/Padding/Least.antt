-- ===== src/Data/Padding/Least.antt =====
-- The padding that `DataPlaintext::padded` chooses.
use ruxmsg.Prelude.{
  ℕ, ap, ◌^◌, length-append, length-replicate, zero, suc, ◌+◌, ◌-◌, ◌%◌, ◌≤◌, ◌<◌, ◌≡◌, ◌≢◌, refl,
  sym, ltb, ◌==◌, length, replicate, le→ltb, ok, arith, true, false, subst, ltb→lt, ◌⊎◌, Bool-cases,
  inl, inr,
}
use ruxmsg.Protocol.{Bytes, max_content, max_frame_size, default_padding_quantum}
use ruxmsg.Cbor.{entries, to_entries}
use ruxmsg.Cbor.Reference
use ruxmsg.Cbor.Reference.{head}
use ruxmsg.Data.Padding.{
  DataPlaintext, plaintext_entries, bstr_header_len, padded_total, find_padding, fixed_size, padded,
}

-- What the loop tests.
abbrev IsAligned : ℕ → ℕ → Type 0
IsAligned fixed n = padded_total fixed n % default_padding_quantum ≡ 0

-- The least aligned padding from `p` on.
abbrev IsLeast : ℕ → ℕ → ℕ → Type 0
IsLeast fixed p n = IsAligned fixed n × (p ≤ n) × ((k : ℕ) → p ≤ k → k < n → ¬ IsAligned fixed k)

aligned_test : (t : ℕ) → (t == 0) ≡ true → t ≡ 0
aligned_test t h = ground arith

unaligned_test : (t : ℕ) → (t == 0) ≡ false → t ≢ 0
unaligned_test t h = λ q. ground arith

same_or_later : (p k : ℕ) → p ≤ k → (p ≡ k) ⊎ (p + 1 ≤ k)
same_or_later p k h = elim (Bool-cases (ltb p k)) [
  | inl e ↦ inr (omega (arith, ltb→lt p k e))
  | inr e ↦ inl (ground arith)
]

-- With an aligned padding `k` in its range the loop returns the least one.
find_padding-IsLeast :
    (left fixed p k : ℕ)
    → p ≤ k
    → k < p + left
    → IsAligned fixed k
    → (n : ℕ) × (find_padding left fixed p ≡ ok n) × (n ≤ k) × IsLeast fixed p n
unfolding find_padding
find_padding-IsLeast zero fixed p k h l a = absurd (omega arith)
find_padding-IsLeast (suc left) fixed p k h l a =
    elim (Bool-cases (padded_total fixed p % default_padding_quantum == 0)) [
      | inl e ↦ (
        p,
        rw (e, find_padding) refl,
        h,
        (aligned_test _ e, omega arith, λ j q r. absurd (omega arith)),
      )
      | inr e ↦
          let later = find_padding-IsLeast left fixed (p + 1) k (after e) (omega arith) a in
          (
            later.0,
            rw (e, find_padding) later.1,
            later.2,
            (later.3.0, omega (arith, later.3.1), λ j q r. least e later.0 later.3.2 j q r),
          )
    ]
  where
    after : (padded_total fixed p % default_padding_quantum == 0) ≡ false → p + 1 ≤ k
    after e = elim (same_or_later p k h) [
      | inl q ↦ absurd (unaligned_test _ e (subst (IsAligned fixed) (sym q) a))
      | inr m ↦ m
    ]

    least :
        (padded_total fixed p % default_padding_quantum == 0) ≡ false
        → (n : ℕ) → ((j : ℕ) → p + 1 ≤ j → j < n → ¬ IsAligned fixed j)
        → (j : ℕ) → p ≤ j
        → j < n
        → ¬ IsAligned fixed j
    least e n f j q r = elim (same_or_later p j q) [
      | inl same ↦ λ b. unaligned_test _ e (subst (IsAligned fixed) (sym same) b)
      | inr m ↦ f j m r
    ]

-- Between 256 and 511 bytes of padding every remainder occurs.
some-IsAligned : (fixed : ℕ) → (k : ℕ) × (k < 512) × IsAligned fixed k
unfolding padded_total bstr_header_len
some-IsAligned fixed = let r = 255 - (fixed + 274) % 256 in (256 + r, omega arith, ground arith)

-- The length of the ciphertext for `n` zeros of padding: the plaintext map {0: content, 1: padding}
-- in deterministic CBOR, and the 16 bytes of the AEAD tag.
abbrev pub ciphertext_length : Bytes → ℕ → ℕ
ciphertext_length content n =
    let d : DataPlaintext = record { content = content; padding = replicate n 0 } in
    length (Reference.encode (entries (to_entries (plaintext_entries d)))) + 16

abbrev pub FillsQuanta : Bytes → ℕ → Type 0
FillsQuanta content n = ciphertext_length content n % 256 ≡ 0

length-head : (major n : ℕ) → n < 2 ^ 32 → length (head major n) ≡ bstr_header_len n
unfolding head bstr_header_len
length-head major n h = ground arith

one_byte : (bstr_header_len 0 ≡ 1) × (bstr_header_len 1 ≡ 1) × (bstr_header_len 2 ≡ 1)
unfolding bstr_header_len
one_byte = (refl, refl, refl)

ciphertext_length-padded_total :
    (content : Bytes) (n : ℕ)
    → length content ≤ max_content
    → n < 2 ^ 32
    → ciphertext_length content n ≡ padded_total (fixed_size (length content)) n
unfolding padded_total fixed_size plaintext_entries Reference.encode
ciphertext_length-padded_total content n h k = omega (
  arith,
  length-append {0},
  length-head 5 2 (omega arith),
  length-head 0 0 (omega arith),
  length-head 0 1 (omega arith),
  length-head 2 (length content) (omega (arith, h)),
  ap (λ m. length (head 2 m)) (length-replicate {A = ℕ} n 0),
  length-head 2 n k,
  length-replicate {0},
  one_byte,
)

-- Content of at most 65536 bytes is always padded, with zeros, fewer than 512 of them, and the
-- least number of them for which the plaintext map in deterministic CBOR and the 16 bytes of the
-- AEAD tag fill whole quanta of 256 bytes.
pub padded_lem :
    (content : Bytes)
    → length content ≤ 65536
    → (n : ℕ) × (padded content ≡ ok (record { content = content; padding = replicate n 0 }))
      × (n < 512)
      × FillsQuanta content n
      × ((k : ℕ) → k < n → ¬ FillsQuanta content k)
unfolding padded
padded_lem content h =
    let fixed = fixed_size (length content) in
    let k = some-IsAligned fixed in
    let found =
      find_padding-IsLeast (max_frame_size + 1) fixed 0 k.0 (omega arith) (omega (arith, k.1))
        k.2 in
    let small : found.0 < 512 = omega (arith, found.2, k.1) in
    (
      found.0,
      rw (le→ltb max_content (length content) h, found.1, padded) refl,
      small,
      rw (ciphertext_length-padded_total content found.0 h (omega (arith, small))) found.3.0,
      λ j l q.
          found.3.2 j (omega arith) l
            (rw (ciphertext_length-padded_total content j h (omega (arith, small, l))) at q),
    )
