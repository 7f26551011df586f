-- ===== src/Ratchet/Replay/Again.antt =====
-- A counter that was accepted is a duplicate at once, in any window.
use Prim.Native.Nat.{bit_and, bit_or}
use ruxmsg.Prelude.{
  ℕ, ◌-◌, ◌*◌, ◌%◌, ◌^◌, ◌≤◌, ◌<◌, ◌≡◌, refl, ap, ◌∙◌, subst, Bool, true, false, Option, some, none,
  ltb, leb, ◌==◌, if◌then◌else◌, inl, inr, arith, Result, ok, err, replay_rejected, Bool-cases,
  le→ltb, eq_self,
}
use ruxmsg.Ratchet.Replay.{
  ReplayStatus, fresh, duplicate, too_old, ReplayWindow, classify_below, classify, record_counter,
  accept,
}
use ruxmsg.Ratchet.Replay.Bits.{test_bit, test_bit-bit_or, test_bit-pow}
use ruxmsg.Ratchet.Replay.Seen.{mask_test, test_bit_cases}

marked :
    (bits h c : ℕ)
    → c ≤ h
    → h - c < 64
    → test_bit bits (h - c) ≡ 1
    → classify_below bits h c ≡ duplicate
unfolding classify_below
marked bits h c l n t =
    let m : (bit_and bits (2 ^ (h - c)) == 0) ≡ false = mask_test bits (h - c) true t in
    let far : leb 64 (h - c) ≡ false = ground arith in
    rw (le→ltb h c l, far, m, classify_below) refl

marked_top : (bits c : ℕ) → bits % 2 ≡ 1 → classify_below bits c c ≡ duplicate
marked_top bits c t =
    let z : c - c ≡ 0 = omega arith in marked bits c c (omega arith) (omega arith) (rw z t)

or_one : (x : ℕ) → bit_or x 1 % 2 ≡ 1
or_one x = omega (arith, test_bit-bit_or x 1 0)

or_pow : (x d : ℕ) → test_bit (bit_or x (2 ^ d)) d ≡ 1
or_pow x d =
    let p : test_bit (2 ^ d) d ≡ 1 = test_bit-pow d d ∙ rw (eq_self d) refl in
    let q = test_bit-bit_or x (2 ^ d) d in
    elim (test_bit_cases x d) [ inl z ↦ omega (arith, p, q, z) | inr o ↦ omega (arith, p, q, o) ]

near : (bits h c : ℕ) → ltb h c ≡ false → classify_below bits h c ≡ fresh → leb 64 (h - c) ≡ false
unfolding classify_below
near bits h c l f = ground arith

record_above :
    (bits h c : ℕ) (b : Bool)
    → ltb h c ≡ true
    → leb 64 (c - h) ≡ b
    → record_counter (record { highest = some h; bits = bits }) c
      ≡ record { highest = some c; bits = if b then 1 else bit_or (bits * 2 ^ (c - h) % 2 ^ 64) 1 }
unfolding record_counter
record_above bits h c b e k = rw (e, k, record_counter) refl

record_kept :
    (bits h c : ℕ)
    → ltb h c ≡ false
    → record_counter (record { highest = some h; bits = bits }) c
      ≡ record { highest = some h; bits = bit_or bits (2 ^ (h - c)) }
unfolding record_counter
record_kept bits h c e = rw (e, record_counter) refl

record_below :
    (bits h c : ℕ)
    → classify_below bits h c ≡ fresh
    → classify (record_counter (record { highest = some h; bits = bits }) c) c ≡ duplicate
unfolding classify record_counter
record_below bits h c f = elim (Bool-cases (ltb h c)) [
  | inr e ↦
      let n = near bits h c e f in
      ap (λ w. classify w c) (record_kept bits h c e)
      ∙ marked (bit_or bits (2 ^ (h - c))) h c (ground arith) (ground arith) (or_pow bits (h - c))
  | inl e ↦ elim (Bool-cases (leb 64 (c - h))) [
    | inl k ↦ ap (λ w. classify w c) (record_above bits h c true e k) ∙ marked_top 1 c refl
    | inr k ↦
        ap (λ w. classify w c) (record_above bits h c false e k)
        ∙ marked_top (bit_or (bits * 2 ^ (c - h) % 2 ^ 64) 1) c (or_one _)
  ]
]

record_any :
    (o : Option ℕ) (bits c : ℕ)
    → classify (record { highest = o; bits = bits }) c ≡ fresh
    → classify (record_counter (record { highest = o; bits = bits }) c) c ≡ duplicate
unfolding classify record_counter
record_any none bits c f = marked_top 1 c refl
record_any (some h) bits c f = record_below bits h c f

-- What an accepted counter says of the window.
accepted_when :
    (s : ReplayStatus) (next w' : ReplayWindow)
    → ◌≡◌ {A = Result ReplayWindow} (elim s [ fresh ↦ ok next | _ ↦ err replay_rejected ]) (ok w')
    → (s ≡ fresh) × (next ≡ w')
accepted_when fresh next w' h = (refl, ground arith)
accepted_when duplicate next w' h = ground arith
accepted_when too_old next w' h = ground arith

-- A counter that a window accepts is a duplicate for the window that results.
pub accept-duplicate :
    (w w' : ReplayWindow) (c : ℕ) → accept w c ≡ ok w' → classify w' c ≡ duplicate
unfolding accept
accept-duplicate w w' c h =
    let a = accepted_when (classify w c) (record_counter w c) w' h in
    subst (λ v. classify v c ≡ duplicate) a.1 (record_any w.highest w.bits c a.0)
