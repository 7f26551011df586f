-- ===== src/Cli/Scrollback/Bounds.antt =====
-- The history stays within its bounds, and its bytes are counted right.
use ruxmsg.Prelude.{
  ℕ, zero, suc, ◌+◌, ◌-◌, ◌≤◌, ◌≡◌, refl, sym, ap, subst, inl, inr, List, [], ◌∷◌, ◌++◌, Bool, true,
  false, ◌||◌, ltb, ◌==◌, if◌then◌else◌, length, Bool-cases, arith,
}
use ruxmsg.Cli.Scrollback.{
  max_entries, max_bytes, max_entry_bytes, ellipsis, char_len, text_len, Author, Entry, Scrollback,
  is_char_boundary, cut_back, take_bytes, shorten, evict, push,
}

abbrev pub total : List Entry → ℕ
total [] = 0
total (e ∷ es) = text_len e.text + total es

total-append : (es fs : List Entry) → total (es ++ fs) ≡ total es + total fs
total-append [] fs = omega arith
total-append (e ∷ es) fs = omega (arith, total-append es fs)

text_len-append : (s t : List ℕ) → text_len (s ++ t) ≡ text_len s + text_len t
unfolding text_len
text_len-append [] t = omega arith
text_len-append (c ∷ s) t = omega (arith, text_len-append s t)

-- The cut is a boundary, not past where it started.
cut_back_le : (text : List ℕ) (n : ℕ) → cut_back text n ≤ n
unfolding cut_back
cut_back_le text zero = omega arith
cut_back_le text (suc n) = ground (arith, cut_back_le text n)

zero_boundary : (text : List ℕ) → is_char_boundary text 0 ≡ true
unfolding is_char_boundary
zero_boundary [] = refl
zero_boundary (c ∷ cs) = refl

cut_back_boundary : (text : List ℕ) (n : ℕ) → is_char_boundary text (cut_back text n) ≡ true
unfolding cut_back
cut_back_boundary text zero = zero_boundary text
cut_back_boundary text (suc n) = elim (Bool-cases (is_char_boundary text (suc n))) [
  | inl e ↦ rw (e, cut_back) e
  | inr e ↦ rw (e, cut_back) (cut_back_boundary text n)
]

next_boundary :
    (c : ℕ) (cs : List ℕ) (n : ℕ)
    → (n == 0) ≡ false
    → is_char_boundary (c ∷ cs) n ≡ true
    → (char_len c ≤ n) × (is_char_boundary cs (n - char_len c) ≡ true)
unfolding is_char_boundary
next_boundary c cs n e h = (ground arith, ground arith)

-- Cut at a boundary, a text has that many bytes.
text_len-take_bytes :
    (text : List ℕ) (n : ℕ) → is_char_boundary text n ≡ true → text_len (take_bytes text n) ≡ n
unfolding is_char_boundary take_bytes text_len
text_len-take_bytes [] n h = ground arith
text_len-take_bytes (c ∷ cs) n h = elim (Bool-cases (n == 0)) [
  | inl e ↦ rw (e, take_bytes) (ground arith)
  | inr e ↦
      let (fits, rest) = next_boundary c cs n e h in
      rw (e, take_bytes) (omega (arith, fits, text_len-take_bytes cs (n - char_len c) rest))
]

ellipsis_len : text_len (ellipsis ∷ []) ≡ 3
unfolding text_len char_len
ellipsis_len = refl

shorten_le : (text : List ℕ) → text_len (shorten text) ≤ max_entry_bytes + 3
unfolding shorten
shorten_le text = elim (Bool-cases (ltb max_entry_bytes (text_len text))) [
  | inl e ↦
      rw (e, shorten)
        (shortened (cut_back text max_entry_bytes) (cut_back_boundary text max_entry_bytes)
          (cut_back_le text max_entry_bytes))
  | inr e ↦ rw (e, shorten) (ground arith)
]
  where
    shortened :
        (cut : ℕ)
        → is_char_boundary text cut ≡ true
        → cut ≤ max_entry_bytes
        → text_len (take_bytes text cut ++ (ellipsis ∷ [])) ≤ max_entry_bytes + 3
    shortened cut h n = omega (
      arith,
      text_len-append (take_bytes text cut) (ellipsis ∷ []),
      text_len-take_bytes text cut h,
      ellipsis_len,
      n,
    )

abbrev pub IsBounded : Scrollback → Type 0
IsBounded s = (s.bytes ≡ total s.entries) × (length s.entries ≤ max_entries) × (s.bytes ≤ max_bytes)

-- The newest entry stays; of the others the oldest go.
abbrev pub Keeps : List Entry → Entry → Scrollback → Type 0
Keeps es e s = (gone kept : List Entry) × (es ≡ gone ++ kept) × (s.entries ≡ kept ++ (e ∷ []))

abbrev pub over : List Entry → ℕ → Bool
over es bytes = ltb max_entries (length es) || ltb max_bytes bytes

evict_by :
    (e : Entry) (es : List Entry) (bytes : ℕ) (b : Bool)
    → over (e ∷ es) bytes ≡ b
    → evict (e ∷ es) bytes ≡ (
        if b
        then evict es (bytes - text_len e.text)
        else record { entries = e ∷ es; bytes = bytes })
unfolding evict
evict_by e es bytes b h =
    ap
      (λ t.
        if t
        then evict es (bytes - text_len e.text)
        else record { entries = e ∷ es; bytes = bytes })
      h

within :
    (es : List Entry) (bytes : ℕ)
    → over es bytes ≡ false
    → (length es ≤ max_entries) × (bytes ≤ max_bytes)
within es bytes h = (ground arith, ground arith)

abbrev pub Evicted : List Entry → Entry → Scrollback → Type 0
Evicted es e s = IsBounded s × Keeps es e s

evict-Evicted :
    (es : List Entry) (e : Entry) (bytes : ℕ)
    → bytes ≡ total (es ++ (e ∷ []))
    → text_len e.text ≤ max_bytes
    → Evicted es e (evict (es ++ (e ∷ [])) bytes)
evict-Evicted [] e bytes h n =
    let b : bytes ≤ max_bytes = omega (arith, h, n) in
    subst (Evicted [] e) (sym (evict_by e [] bytes false (ground (arith, b))))
      ((h, omega arith, b), ([], [], refl, refl))
evict-Evicted (f ∷ es) e bytes h n = elim (Bool-cases (over (f ∷ (es ++ (e ∷ []))) bytes)) [
  | inl o ↦
      let (b, (gone, kept, p, q)) =
        evict-Evicted es e (bytes - text_len f.text) (omega (arith, h)) n in
      subst (Evicted (f ∷ es) e) (sym (evict_by f (es ++ (e ∷ [])) bytes true o))
        (b, (f ∷ gone, kept, ap (λ t. f ∷ t) p, q))
  | inr o ↦
      let w = within (f ∷ (es ++ (e ∷ []))) bytes o in
      subst (Evicted (f ∷ es) e) (sym (evict_by f (es ++ (e ∷ [])) bytes false o))
        ((h, w.0, w.1), ([], f ∷ es, refl, refl))
]

-- A history whose bytes are counted right and within 262144, with at most 1000 entries, is so after
-- a push of any text. The new entry stays, at most 65539 bytes long; of the others only the oldest
-- go.
pub push-IsBounded :
    (author : Author) (text : List ℕ) (s : Scrollback)
    → IsBounded s
    → Evicted s.entries (record { author = author; text = shorten text }) (push author text s)
      × (text_len (shorten text) ≤ max_entry_bytes + 3)
unfolding push
push-IsBounded author text s h =
    let e : Entry = record { author = author; text = shorten text } in
    (
      evict-Evicted s.entries e (s.bytes + text_len (shorten text))
          (omega (arith, h.0, total-append s.entries (e ∷ []))) (omega (arith, shorten_le text)),
      shorten_le text,
    )
