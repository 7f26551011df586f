-- ===== src/Net/Decoder/Drain.antt =====
-- The frames of a buffer, and of a stream that comes in chunks, as `Task::run` and
-- `Task::drain_frames` of crates/ruxmsg-net/src/lib.rs take them from the decoder.
use ruxmsg.Prelude.{
  ℕ, zero, suc, ◌<◌, ◌≡◌, sym, ap, ◌∙◌, subst, List, [], ◌∷◌, ◌++◌, Option, some, none, length, inl,
  inr, arith,
}
use ruxmsg.Protocol.{Bytes}
use ruxmsg.Wire.{Frame}
use ruxmsg.Net.Decoder.{DecodeError, push, next_frame}
use ruxmsg.Net.Decoder.Reading.{Found, Stays, reading, next_frame-reading, reading-Stays}

-- What a buffer gives when it is drained until no frame is whole or one is bad.
pub record Drained : Type 0 where
  pub frames : List Frame
  pub left : Bytes
  pub failure : Option DecodeError

abbrev pub prepend : Frame → Drained → Drained
prepend f d = record d { frames = f ∷ d.frames }

abbrev pub with_frame : Frame → Option Drained → Option Drained
with_frame f none = none
with_frame f (some d) = some (prepend f d)

-- The loop over `next_frame`, with fuel; `none` means that the fuel ran out. A bad frame ends it.
unfoldable pub drain : ℕ → Bytes → Option Drained
drain zero buffer = none
drain (suc fuel) buffer =
    let (b, found) = next_frame buffer in
    elim found [
      | inl e ↦ some (record { frames = []; left = b; failure = some e })
      | inr none ↦ some (record { frames = []; left = b; failure = none })
      | inr (some f) ↦ with_frame f (drain fuel b)
    ]

-- The buffer is read once more than it has bytes: each frame takes some.
unfoldable pub drain_all : Bytes → Option Drained
drain_all buffer = drain (suc (length buffer)) buffer

-- A chunk that is read after a drain: it is pushed and drained, unless a bad frame came before.
abbrev pub followed_by : Drained → Option Drained → Option Drained
followed_by d none = none
followed_by d (some d') = some (record d' { frames = d.frames ++ d'.frames })

unfoldable pub feed_after : Option DecodeError → Drained → Bytes → Option Drained
feed_after (some e) d chunk = some d
feed_after none d chunk = followed_by d (drain_all (push d.left chunk))

abbrev pub feed : Drained → Bytes → Option Drained
feed d chunk = feed_after d.failure d chunk

abbrev pub fresh_drain : Drained
fresh_drain = record { frames = []; left = []; failure = none }

abbrev pub and_then : Option Drained → (Drained → Option Drained) → Option Drained
and_then none next = none
and_then (some d) next = next d

unfoldable pub feed_chunks : List Bytes → Drained → Option Drained
feed_chunks [] d = some d
feed_chunks (chunk ∷ chunks) d = and_then (feed d chunk) (feed_chunks chunks)

-- The drain of a buffer as a relation, free of fuel.
pub data Drains : Bytes → Drained → Type 0 where
  starved :
      {b b' : Bytes}
      → next_frame b ≡ (b', inr none)
      → Drains b (record { frames = []; left = b'; failure = none })
  spoiled :
      {b b' : Bytes} {e : DecodeError}
      → next_frame b ≡ (b', inl e)
      → Drains b (record { frames = []; left = b'; failure = some e })
  framed :
      {b b' : Bytes} {f : Frame} {d : Drained}
      → next_frame b ≡ (b', inr (some f))
      → Drains b' d
      → Drains b (prepend f d)

-- Any fuel above the length of the buffer is enough.
abbrev ResultOf : ℕ → Bytes → Type 0
ResultOf n b = (d : Drained) × (drain n b ≡ some d) × Drains b d

-- A round of the loop, with what was found.
abbrev round : ℕ → Found → Option Drained
round fuel (b, inl e) = some (record { frames = []; left = b; failure = some e })
round fuel (b, inr none) = some (record { frames = []; left = b; failure = none })
round fuel (b, inr (some f)) = with_frame f (drain fuel b)

drain-round : (n : ℕ) (b : Bytes) (r : Found) → next_frame b ≡ r → drain (suc n) b ≡ round n r
unfolding drain
drain-round n b (b', inl e) p = ap (round n) p
drain-round n b (b', inr none) p = ap (round n) p
drain-round n b (b', inr (some f)) p = ap (round n) p

drain_found :
    (n : ℕ) (b : Bytes) (r : Found)
    → length b < suc n
    → next_frame b ≡ r
    → Stays b [] r
    → ((b' : Bytes) → length b' < n → ResultOf n b')
    → ResultOf (suc n) b
drain_found n b (b', inl e) h p s again =
    (record { frames = []; left = b'; failure = some e }, drain-round n b _ p, spoiled p)
drain_found n b (b', inr none) h p s again =
    (record { frames = []; left = b'; failure = none }, drain-round n b _ p, starved p)
drain_found n b (b', inr (some f)) h p s again =
    let (d, e, r) = again b' (omega (arith, s.1, h)) in
    (prepend f d, drain-round n b _ p ∙ ap (with_frame f) e, framed p r)

drain-Drains : (n : ℕ) (b : Bytes) → length b < n → ResultOf n b
drain-Drains zero b h = absurd (omega arith)
drain-Drains (suc n) b h =
    drain_found n b (reading b) h (next_frame-reading b) (reading-Stays b []) (drain-Drains n)

stays : (b c : Bytes) (r : Found) → next_frame b ≡ r → Stays b c r
stays b c r p = subst (Stays b c) (sym (next_frame-reading b) ∙ p) (reading-Stays b c)

-- Bytes that come after a drained buffer are drained as if they had been there.
pub Drains-append :
    (b c : Bytes) (all d' : Drained)
    → Drains b all
    → all.failure ≡ none
    → Drains (all.left ++ c) d'
    → Drains (b ++ c) (record d' { frames = all.frames ++ d'.frames })
Drains-append b c all d' (starved {b'} p) h r =
    subst (λ t. Drains (t ++ c) d') (stays b c (b', inr none) p) r
Drains-append b c all d' (spoiled p) h r = ground arith
Drains-append b c all d' (framed {b'} {f} {d} p q) h r =
    framed (next_frame-reading (b ++ c) ∙ (stays b c (b', inr (some f)) p).0)
      (Drains-append b' c d d' q h r)

pub Drains-failed :
    (b c : Bytes) (all : Drained) (cause : DecodeError)
    → Drains b all
    → all.failure ≡ some cause
    → Drains (b ++ c) (record all { left = all.left ++ c })
Drains-failed b c all cause (starved p) h = ground arith
Drains-failed b c all cause (spoiled {b'} {e} p) h =
    spoiled (next_frame-reading (b ++ c) ∙ stays b c (b', inl e) p)
Drains-failed b c all cause (framed {b'} {f} {d} p q) h =
    framed (next_frame-reading (b ++ c) ∙ (stays b c (b', inr (some f)) p).0)
      (Drains-failed b' c d cause q h)

pub drain_all-Drains : (b : Bytes) → (d : Drained) × (drain_all b ≡ some d) × Drains b d
unfolding drain_all
drain_all-Drains b = drain-Drains (suc (length b)) b (omega arith)

drained : (n : ℕ) (b : Bytes) (all : Drained) → length b < n → Drains b all → drain n b ≡ some all
drained zero b all h r = absurd (omega arith)
drained (suc n) b all h (starved {b'} p) = drain-round n b (b', inr none) p
drained (suc n) b all h (spoiled {b'} {e} p) = drain-round n b (b', inl e) p
drained (suc n) b all h (framed {b'} {f} {d} p r) =
    let s = stays b [] (b', inr (some f)) p in
    drain-round n b (b', inr (some f)) p
    ∙ ap (with_frame f) (drained n b' d (omega (arith, s.1, h)) r)

pub Drains-drain_all : (b : Bytes) (d : Drained) → Drains b d → drain_all b ≡ some d
unfolding drain_all
Drains-drain_all b d r = drained (suc (length b)) b d (omega arith) r
