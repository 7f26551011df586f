-- ===== src/Ratchet/Replay/Seen.antt =====
-- The window against the plain list of accepted counters.
use Prim.Native.Nat.{bit_and, bit_or, max}
use native.Mathlib.Nat.{one-le-pow}
use ruxmsg.Prelude.{
  contains, ℕ, zero, suc, ◌-◌, ◌*◌, ◌/◌, ◌%◌, not, ap, ◌^◌, ◌≤◌, ◌<◌, ◌≡◌, refl, sym, ◌∙◌, Bool,
  true, false, List, [], ◌∷◌, Option, some, none, ltb, leb, ◌==◌, if◌then◌else◌, ◌⊎◌, inl, inr,
  arith, Bool-cases, lt→ltb, le→ltb,
}
use ruxmsg.Ratchet.Replay.{
  ReplayStatus, fresh, duplicate, too_old, ReplayWindow, new, classify_below, classify,
  record_counter, accept, offer, offer_all,
}
use ruxmsg.Ratchet.Replay.Bits.{
  test_bit, bit_and_pow, test_bit-bit_or, test_bit-pow, test_bit-shift, test_bit-mod,
}

abbrev pub bit_of : Bool → ℕ
bit_of true = 1
bit_of false = 0

-- The greatest member.
abbrev pub highest_of : List ℕ → Option ℕ
highest_of [] = none
highest_of (x ∷ xs) = elim (highest_of xs) [ none ↦ some x | some m ↦ some (max x m) ]

-- The classification by the list alone: a counter above all accepted ones is fresh, one 64 or
-- more below the highest is too old, and any other is a duplicate exactly when it was accepted.
pub spec_classify : List ℕ → ℕ → ReplayStatus
spec_classify seen c = elim (highest_of seen) [
  | none ↦ fresh
  | some m ↦
      if ltb m c
      then fresh
      else if leb 64 (m - c)
      then too_old
      else if contains c seen
      then duplicate
      else fresh
]

-- What the window knows of the list.
abbrev pub TracksAt : List ℕ → ℕ → ℕ → Type 0
TracksAt seen bits h =
    (highest_of seen ≡ some h)
    × ((c : ℕ) → h < c → contains c seen ≡ false)
    × ((d : ℕ) → d < 64 → d ≤ h → test_bit bits d ≡ bit_of (contains (h - d) seen))

abbrev pub TracksFrom : List ℕ → ℕ → Option ℕ → Type 0
TracksFrom seen bits none = seen ≡ []
TracksFrom seen bits (some h) = TracksAt seen bits h

abbrev pub Tracks : ReplayWindow → List ℕ → Type 0
Tracks w seen = TracksFrom seen w.bits w.highest

pub test_bit_cases : (b d : ℕ) → (test_bit b d ≡ 0) ⊎ (test_bit b d ≡ 1)
test_bit_cases b zero = ground arith
test_bit_cases b (suc d) = test_bit_cases (b / 2) d

pub mask_test : (b d : ℕ) (t : Bool) → test_bit b d ≡ bit_of t → (bit_and b (2 ^ d) == 0) ≡ not t
mask_test b d true e =
    let m : bit_and b (2 ^ d) ≡ test_bit b d * 2 ^ d = bit_and_pow b d in
    let k : bit_and b (2 ^ d) ≡ 1 * 2 ^ d = m ∙ ap (λ t. t * 2 ^ d) e in
    ground (arith, one-le-pow d 2 (omega arith))
mask_test b d false e =
    let m : bit_and b (2 ^ d) ≡ test_bit b d * 2 ^ d = bit_and_pow b d in
    let k : bit_and b (2 ^ d) ≡ 0 * 2 ^ d = m ∙ ap (λ t. t * 2 ^ d) e in ground arith

classify_below_lem :
    (seen : List ℕ) (bits h c : ℕ)
    → TracksAt seen bits h
    → classify_below bits h c ≡ (
        if ltb h c
        then fresh
        else if leb 64 (h - c)
        then too_old
        else if contains c seen
        then duplicate
        else fresh)
unfolding classify_below
classify_below_lem seen bits h c t = elim (Bool-cases (ltb h c)) [
  | inl above ↦ rw above
  | inr below ↦ elim (Bool-cases (leb 64 (h - c))) [
    | inl old ↦ rw (below, old)
    | inr near ↦
        let b : test_bit bits (h - c) ≡ bit_of (contains (h - (h - c)) seen) =
          t.2 (h - c) (ground arith) (ground arith) in
        let k : h - (h - c) ≡ c = ground arith in
        let m : (bit_and bits (2 ^ (h - c)) == 0) ≡ not (contains c seen) =
          mask_test bits (h - c) (contains c seen) (rw k at b) in
        rw (below, near, m) (ground arith)
  ]
]

tracks_first : (c : ℕ) → TracksAt (c ∷ []) 1 c
tracks_first c = (refl, λ c' h. ground arith, λ d p q. ground (arith, test_bit-pow 0 d))

module _ (seen : List ℕ) (bits h c : ℕ) (t : TracksAt seen bits h) where
  highest_above : h < c → highest_of (c ∷ seen) ≡ some c
  highest_above p = rw t.0 (ground arith)

  none_above : h < c → (x : ℕ) → c < x → contains x (c ∷ seen) ≡ false
  none_above p x q = ground (arith, t.1 x)

  tracks_far : h < c → 64 ≤ c - h → TracksAt (c ∷ seen) 1 c
  tracks_far p q =
      (highest_above p, none_above p, λ d r s. ground (arith, test_bit-pow 0 d, t.1 (c - d)))

  shifted_bit :
      (d : ℕ)
      → d < 64
      → test_bit (bit_or (bits * 2 ^ (c - h) % 2 ^ 64) 1) d
        ≡ max (if ltb d (c - h) then 0 else test_bit bits (d - (c - h))) (if d == 0 then 1 else 0)
  shifted_bit d r = rw (
    test_bit-bit_or (bits * 2 ^ (c - h) % 2 ^ 64) 1 d,
    test_bit-mod (bits * 2 ^ (c - h)) 64 d r,
    test_bit-shift bits (c - h) d,
    test_bit-pow 0 d,
  )

  tracks_near : h < c → c - h < 64 → TracksAt (c ∷ seen) (bit_or (bits * 2 ^ (c - h) % 2 ^ 64) 1) c
  tracks_near p q = (highest_above p, none_above p, λ d r s. rw (shifted_bit d r) (near_bit d r s))
    where
      near_bit :
          (d : ℕ)
          → d < 64
          → d ≤ c
          → max (if ltb d (c - h) then 0 else test_bit bits (d - (c - h))) (if d == 0 then 1 else 0)
            ≡ bit_of (contains (c - d) (c ∷ seen))
      near_bit d r s = elim (Bool-cases (ltb d (c - h))) [
        | inl low ↦ ground (arith, t.1 (c - d))
        | inr high ↦
            let e : h - (d - (c - h)) ≡ c - d = ground arith in
            let b : test_bit bits (d - (c - h)) ≡ bit_of (contains (c - d) seen) =
              rw e at (t.2 (d - (c - h)) (ground arith) (ground arith)) in
            ground arith
      ]

  tracks_inside : c ≤ h → h - c < 64 → TracksAt (c ∷ seen) (bit_or bits (2 ^ (h - c))) h
  tracks_inside p q = (
    rw t.0 (ground arith),
    λ x r. ground (arith, t.1 x),
    λ d r s.
        rw (test_bit-bit_or bits (2 ^ (h - c)) d, test_bit-pow (h - c) d)
          (ground (arith, t.2 d r s, test_bit_cases bits d)),
  )

classify_from :
    (seen : List ℕ) (bits : ℕ) (highest : Option ℕ) (c : ℕ)
    → TracksFrom seen bits highest
    → classify (record { highest = highest; bits = bits }) c ≡ spec_classify seen c
unfolding classify spec_classify
classify_from seen bits none c t = rw t
classify_from seen bits (some h) c t = rw (t.0, spec_classify) (classify_below_lem seen bits h c t)

classify_tracked :
    (w : ReplayWindow) (seen : List ℕ) (c : ℕ) → Tracks w seen → classify w c ≡ spec_classify seen c
classify_tracked w seen c t = classify_from seen w.bits w.highest c t

spec_fresh :
    (seen : List ℕ) (h c : ℕ)
    → highest_of seen ≡ some h
    → spec_classify seen c ≡ fresh
    → (h < c) ⊎ ((c ≤ h) × (h - c < 64) × (contains c seen ≡ false))
unfolding spec_classify
spec_fresh seen h c e f = ground arith

record_from :
    (seen : List ℕ) (bits : ℕ) (highest : Option ℕ) (c : ℕ)
    → TracksFrom seen bits highest
    → spec_classify seen c ≡ fresh
    → Tracks (record_counter (record { highest = highest; bits = bits }) c) (c ∷ seen)
unfolding record_counter
record_from seen bits none c t f = rw t (tracks_first c)
record_from seen bits (some h) c t f = elim (spec_fresh seen h c t.0 f) [
  | inl above ↦ elim (Bool-cases (leb 64 (c - h))) [
    | inl far ↦ rw (lt→ltb h c above, far) (tracks_far seen bits h c t above (ground arith))
    | inr close ↦ rw (lt→ltb h c above, close) (tracks_near seen bits h c t above (ground arith))
  ]
  | inr (below, near, _) ↦ rw (le→ltb h c below) (tracks_inside seen bits h c t below near)
]

-- A fresh counter was not accepted before.
fresh_new :
    (seen : List ℕ) (bits : ℕ) (highest : Option ℕ) (c : ℕ)
    → TracksFrom seen bits highest
    → spec_classify seen c ≡ fresh
    → contains c seen ≡ false
fresh_new seen bits none c t f = rw t
fresh_new seen bits (some h) c t f = elim (spec_fresh seen h c t.0 f) [
  | inl above ↦ t.1 c above
  | inr (_, _, new_here) ↦ new_here
]

abbrev pub Distinct : List ℕ → Type 0
Distinct [] = Unit {0}
Distinct (x ∷ xs) = (contains x xs ≡ false) × Distinct xs

abbrev Good : ReplayWindow × List ℕ → Type 0
Good (w, seen) = Tracks w seen × Distinct seen

offer-Good : (w : ReplayWindow) (seen : List ℕ) (c : ℕ) → Good (w, seen) → Good (offer (w, seen) c)
unfolding offer accept
offer-Good w seen c g = go (classify w c) refl
  where
    go : (s : ReplayStatus) → classify w c ≡ s → Good (offer (w, seen) c)
    go fresh e =
        let f : spec_classify seen c ≡ fresh = sym (classify_tracked w seen c g.0) ∙ e in
        rw (e, offer, accept)
          (
            record_from seen w.bits w.highest c g.0 f,
            (fresh_new seen w.bits w.highest c g.0 f, g.1),
          )
    go duplicate e = rw (e, offer, accept) g
    go too_old e = rw (e, offer, accept) g

offer_all-Good : (s : ReplayWindow × List ℕ) (cs : List ℕ) → Good s → Good (offer_all s cs)
unfolding offer_all
offer_all-Good s [] g = g
offer_all-Good (w, seen) (c ∷ cs) g = offer_all-Good (offer (w, seen) c) cs (offer-Good w seen c g)

-- After any sequence of offered counters, the 64-bit window classifies every counter as the whole
-- list of accepted counters does: above the highest or unseen within 64 is fresh, seen within 64
-- is a duplicate, and 64 or more below the highest is too old.
pub classify-spec_classify :
    (offered : List ℕ) (c : ℕ)
    → let (w, accepted) = offer_all (new, []) offered in classify w c ≡ spec_classify accepted c
classify-spec_classify offered c =
    let (w, accepted) = offer_all (new, []) offered in
    classify_tracked w accepted c (offer_all-Good (new, []) offered (refl, tt)).0

-- However counters are offered, reordered and repeated, no counter is accepted twice.
pub accepted-Distinct : (offered : List ℕ) → Distinct (offer_all (new, []) offered).1
accepted-Distinct offered = (offer_all-Good (new, []) offered (refl, tt)).1
