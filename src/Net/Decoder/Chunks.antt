-- ===== src/Net/Decoder/Chunks.antt =====
-- However a stream is cut into chunks, the same frames come out of it.
use ruxmsg.Prelude.{
  ◌≡◌, refl, sym, ap, ◌∙◌, subst, List, [], ◌∷◌, ◌++◌, append_assoc, append-nil, some, none, inl,
  inr, Option-cases,
}
use ruxmsg.Protocol.{Bytes}
use ruxmsg.Net.Decoder.{DecodeError, push, next_frame}
use ruxmsg.Net.Decoder.Drain.{
  Drained, drain_all, feed, feed_chunks, fresh_drain, Drains, starved, followed_by, feed_after,
  and_then, Drains-append, Drains-failed, drain_all-Drains, Drains-drain_all,
}

abbrev pub concat : List Bytes → Bytes
concat [] = []
concat (c ∷ cs) = c ++ concat cs

-- What was fed so far is what the whole prefix gives, and so for the chunks still to come.
abbrev Agrees : Bytes → Drained → List Bytes → Type 0
Agrees p d cs =
    (d' : Drained) × (feed_chunks cs d ≡ some d')
    × (all : Drained) × Drains (p ++ concat cs) all
    × (d'.frames ≡ all.frames)
    × (d'.failure ≡ all.failure)

feed_failed : (d : Drained) (c : Bytes) (e : DecodeError) → d.failure ≡ some e → feed d c ≡ some d
unfolding feed_after
feed_failed d c e h = ap (λ x. feed_after x d c) h

feed_chunks_failed :
    (cs : List Bytes) (d : Drained) (e : DecodeError)
    → d.failure ≡ some e
    → feed_chunks cs d ≡ some d
unfolding feed_chunks
feed_chunks_failed [] d e h = refl
feed_chunks_failed (c ∷ cs) d e h =
    ap (λ o. and_then o (feed_chunks cs)) (feed_failed d c e h) ∙ feed_chunks_failed cs d e h

feed_open :
    (d d' : Drained) (c : Bytes)
    → d.failure ≡ none
    → drain_all (d.left ++ c) ≡ some d'
    → feed d c ≡ some (record d' { frames = d.frames ++ d'.frames })
unfolding feed_after push
feed_open d d' c h p = ap (λ x. feed_after x d c) h ∙ ap (followed_by d) p

Agrees-failed :
    (p : Bytes) (d : Drained) (cs : List Bytes) (e : DecodeError)
    → Drains p d
    → d.failure ≡ some e
    → Agrees p d cs
Agrees-failed p d cs e r h = (
  d,
  feed_chunks_failed cs d e h,
  record d { left = d.left ++ concat cs },
  Drains-failed p (concat cs) d e r h,
  refl,
  refl,
)

Agrees-chunks : (cs : List Bytes) (p : Bytes) (d : Drained) → Drains p d → Agrees p d cs
unfolding feed_chunks
Agrees-chunks [] p d r = (d, refl, d, subst (λ t. Drains t d) (sym (append-nil p)) r, refl, refl)
Agrees-chunks (c ∷ cs) p d r = elim (Option-cases d.failure) [
  | inr (e, h) ↦ Agrees-failed p d (c ∷ cs) e r h
  | inl h ↦
      let (d1, q, r1) = drain_all-Drains (d.left ++ c) in
      let d2 : Drained = record d1 { frames = d.frames ++ d1.frames } in
      let (d', q', all, r', fs, x) = Agrees-chunks cs (p ++ c) d2 (Drains-append p c d d1 r h r1) in
      (
        d',
        ap (λ o. and_then o (feed_chunks cs)) (feed_open d d1 c h q) ∙ q',
        all,
        subst (λ t. Drains t all) (append_assoc p c (concat cs)) r',
        fs,
        x,
      )
]

empty_read : next_frame [] ≡ ([], inr none)
unfolding next_frame
empty_read = refl

-- However a stream is cut into chunks, reading each and draining it in between gives the frames
-- and the failure, if any, of draining the whole stream; neither runs out of fuel.
pub feed_chunks-drain_all :
    (cs : List Bytes)
    → (d d' : Drained) × (feed_chunks cs fresh_drain ≡ some d')
      × (drain_all (concat cs) ≡ some d)
      × (d'.frames ≡ d.frames)
      × (d'.failure ≡ d.failure)
feed_chunks-drain_all cs =
    let (d', q, all, r, fs, x) = Agrees-chunks cs [] fresh_drain (starved empty_read) in
    (all, d', q, Drains-drain_all (concat cs) all r, fs, x)
