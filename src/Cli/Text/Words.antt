-- ===== src/Cli/Text/Words.antt =====
-- Words in a text, and the text between the blanks at its ends.
use ruxmsg.Prelude.{
  ℕ, ◌≡◌, refl, ap, ◌∙◌, subst, List, [], ◌∷◌, ◌++◌, append-nil, Option, some, none, Bool, true,
  false, not, ◌&&◌, arith,
}
use ruxmsg.Cli.Text.{
  Text, is_whitespace, is_empty, trim_start, before_rest, trim_end, trim, flush, words_of,
  split_whitespace, split_once,
}

-- No whitespace in it.
unfoldable pub is_solid : Text → Bool
is_solid [] = true
is_solid (c ∷ cs) = not (is_whitespace c) && is_solid cs

abbrev pub IsWord : Text → Type 0
IsWord w = (is_solid w ≡ true) × (is_empty w ≡ false)

-- A text that starts and ends with no whitespace, and is not empty.
abbrev pub IsTrimmed : Text → Type 0
IsTrimmed t = (trim_start t ≡ t) × (trim_end t ≡ t) × (is_empty t ≡ false)

pub solid_head :
    (c : ℕ) (cs : Text)
    → is_solid (c ∷ cs) ≡ true
    → (is_whitespace c ≡ false) × (is_solid cs ≡ true)
unfolding is_solid
solid_head c cs h = (ground arith, ground arith)

pub trim_start_word : (c : ℕ) (cs : Text) → is_whitespace c ≡ false → trim_start (c ∷ cs) ≡ c ∷ cs
unfolding trim_start
trim_start_word c cs h = rw (h, trim_start) refl

pub trim_start-append : (w t : Text) → IsWord w → trim_start (w ++ t) ≡ w ++ t
trim_start-append [] t h = ground arith
trim_start-append (c ∷ cs) t h = trim_start_word c (cs ++ t) (solid_head c cs h.0).0

pub before_solid : (c : ℕ) (t : Text) → is_whitespace c ≡ false → before_rest c t ≡ c ∷ t
before_solid c [] h = rw h refl
before_solid c (d ∷ t) h = refl

pub before_full : (c : ℕ) (t : Text) → is_empty t ≡ false → before_rest c t ≡ c ∷ t
before_full c [] h = ground arith
before_full c (d ∷ t) h = refl

pub trim_end_solid : (w : Text) → is_solid w ≡ true → trim_end w ≡ w
unfolding trim_end
trim_end_solid [] h = refl
trim_end_solid (c ∷ cs) h =
    let (a, b) = solid_head c cs h in ap (before_rest c) (trim_end_solid cs b) ∙ before_solid c cs a

pub full-append : (s t : Text) → is_empty t ≡ false → is_empty (s ++ t) ≡ false
full-append [] t h = h
full-append (c ∷ s) t h = refl

pub trim_end-append :
    (s t : Text) → trim_end t ≡ t → is_empty t ≡ false → trim_end (s ++ t) ≡ s ++ t
unfolding trim_end
trim_end-append [] t h k = h
trim_end-append (c ∷ s) t h k =
    ap (before_rest c) (trim_end-append s t h k) ∙ before_full c (s ++ t) (full-append s t k)

pub words_of-append :
    (w t : Text) → is_solid w ≡ true → words_of (w ++ t) ≡ (w ++ (words_of t).0, (words_of t).1)
unfolding words_of
words_of-append [] t h = refl
words_of-append (c ∷ cs) t h =
    let (a, b) = solid_head c cs h in
    rw (a, words_of) (ap (λ p. (c ∷ p.0, p.1)) (words_of-append cs t b))

pub words_of_word : (w : Text) → is_solid w ≡ true → words_of w ≡ (w, [])
unfolding words_of
words_of_word w h = subst (λ t. words_of t ≡ (t, [])) (append-nil w) (words_of-append w [] h)

pub flush_word : (w : Text) (ws : List Text) → is_empty w ≡ false → flush w ws ≡ w ∷ ws
flush_word [] ws h = ground arith
flush_word (c ∷ w) ws h = refl

pub split_word : (w : Text) → IsWord w → split_whitespace w ≡ w ∷ []
unfolding split_whitespace
split_word w h = ap (λ p. flush p.0 p.1) (words_of_word w h.0) ∙ flush_word w [] h.1

-- A word and a blank before a text.
abbrev pub after_blank : Text → Text → Text
after_blank w t = w ++ (32 ∷ t)

words_of_blank : (t : Text) → words_of (32 ∷ t) ≡ ([], split_whitespace t)
unfolding words_of split_whitespace is_whitespace
words_of_blank t = refl

pub split-after_blank :
    (w t : Text) → IsWord w → split_whitespace (after_blank w t) ≡ w ∷ split_whitespace t
unfolding split_whitespace
split-after_blank w t h =
    ap (λ p. flush p.0 p.1) (words_of-append w (32 ∷ t) h.0)
    ∙ ap (λ p. flush (w ++ p.0) p.1) (words_of_blank t)
    ∙ ap (λ s. flush s (split_whitespace t)) (append-nil w)
    ∙ flush_word w (split_whitespace t) h.1

abbrev cons_first : ℕ → Option (Text × Text) → Option (Text × Text)
cons_first c none = none
cons_first c (some (a, b)) = some (c ∷ a, b)

pub blank_first : (t : Text) → split_once (32 ∷ t) ≡ some ([], t)
unfolding split_once is_whitespace
blank_first t = refl

pub split_once_word : (w t : Text) → is_solid w ≡ true → split_once (after_blank w t) ≡ some (w, t)
unfolding split_once
split_once_word [] t h = blank_first t
split_once_word (c ∷ w) t h =
    let (a, b) = solid_head c w h in rw (a, split_once) (ap (cons_first c) (split_once_word w t b))

pub trim-after_blank :
    (w t : Text)
    → IsWord w
    → trim_end t ≡ t
    → is_empty t ≡ false
    → trim (after_blank w t) ≡ after_blank w t
unfolding trim
trim-after_blank w t h e f =
    ap trim_end (trim_start-append w (32 ∷ t) h)
    ∙ trim_end-append w (32 ∷ t) (trim_end-append (32 ∷ []) t e f) refl
