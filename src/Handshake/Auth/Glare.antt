-- ===== src/Handshake/Auth/Glare.antt =====
-- The tie-break of two COMMITs that cross.
use ruxmsg.Prelude.{
  ℕ, ◌<◌, ◌≡◌, ◌≢◌, refl, ap₂, [], ◌∷◌, ltb, length, not, arith, ◌⊎◌, inl, inr, lt→ltb, le→ltb,
  ltb→lt, Bool-cases,
}
use ruxmsg.Protocol.{Bytes, PeerIdentity}
use ruxmsg.Handshake.Auth.{bytes_gt, local_identity_wins_rekey_glare}

compare_cases : (x y : ℕ) → (x < y) ⊎ ((x ≡ y) ⊎ (y < x))
compare_cases x y = elim (Bool-cases (ltb x y)) [
  | inl e ↦ inl (ltb→lt x y e)
  | inr e ↦ elim (Bool-cases (ltb y x)) [
    | inl k ↦ inr (inr (ltb→lt y x k))
    | inr k ↦ inr (inl (ground arith))
  ]
]

-- Two different byte strings of one length are in order one way and not the other.
bytes_gt-other : (a b : Bytes) → length a ≡ length b → a ≢ b → bytes_gt a b ≡ not (bytes_gt b a)
unfolding bytes_gt
bytes_gt-other [] [] h n = absurd (n refl)
bytes_gt-other [] (y ∷ b) h n = absurd (omega (arith, h))
bytes_gt-other (x ∷ a) [] h n = absurd (omega (arith, h))
bytes_gt-other (x ∷ a) (y ∷ b) h n = elim (compare_cases x y) [
  | inl below ↦ rw (le→ltb y x (omega arith), lt→ltb x y below, bytes_gt) refl
  | inr (inr above) ↦ rw (lt→ltb y x above, bytes_gt) (rw (le→ltb x y (omega arith)) refl)
  | inr (inl same) ↦
      let rest = bytes_gt-other a b (omega (arith, h)) (λ q. n (ap₂ (λ u v. u ∷ v) same q)) in
      rw (le→ltb y x (omega arith), le→ltb x y (omega arith), bytes_gt) rest
]

-- Of two peers with different identities of one length exactly one wins the glare: each side's
-- decision is the negation of the other's.
pub glare_lem :
    (a b : PeerIdentity)
    → length a ≡ length b
    → a ≢ b
    → local_identity_wins_rekey_glare a b ≡ not (local_identity_wins_rekey_glare b a)
unfolding local_identity_wins_rekey_glare
glare_lem a b h n = bytes_gt-other a b h n
