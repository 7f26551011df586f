-- ===== src/Cli/Config/Modifiers.antt =====
-- `parse_key` takes every modifier before it reads the name of a key.
use ruxmsg.Prelude.{
  ℕ, zero, suc, ◌+◌, ◌≤◌, ◌≡◌, refl, subst, inl, inr, [], ◌∷◌, Option, some, none, Bool, true, ◌==◌,
  length, Bool-cases, Option-cases, arith,
}
use ruxmsg.Crypto.{ascii}
use ruxmsg.Cli.Text.{Text}
use ruxmsg.Cli.Config.Values.{strip_prefix, modifiers}

-- What is left after a prefix.
abbrev Shorter : Text → Text → Option Text → Type 0
Shorter p t none = Unit {0}
Shorter p t (some rest) = length rest + length p ≡ length t

strip_prefix-Shorter : (p t : Text) → Shorter p t (strip_prefix p t)
unfolding strip_prefix
strip_prefix-Shorter [] t = omega arith
strip_prefix-Shorter (p ∷ ps) [] = tt
strip_prefix-Shorter (p ∷ ps) (c ∷ cs) = elim (Bool-cases (p == c)) [
  | inr e ↦ rw (e, strip_prefix) tt
  | inl e ↦ rw (e, strip_prefix) (longer (strip_prefix ps cs) (strip_prefix-Shorter ps cs))
]
  where
    longer : (o : Option Text) → Shorter ps cs o → Shorter (p ∷ ps) (c ∷ cs) o
    longer none h = tt
    longer (some rest) h = omega (arith, h)

-- No modifier is left.
abbrev pub IsBare : Text → Type 0
IsBare rest = (strip_prefix (ascii "ctrl-") rest ≡ none) × (strip_prefix (ascii "alt-") rest ≡ none)

empty-IsBare : IsBare []
unfolding strip_prefix
empty-IsBare = (refl, refl)

-- With at least as much fuel as there is text, the loop over modifiers takes all of them off: what
-- is left starts with neither `ctrl-` nor `alt-`.
pub modifiers-IsBare :
    (fuel : ℕ) (ctrl alt : Bool) (t : Text) → length t ≤ fuel → IsBare (modifiers fuel ctrl alt t).2
unfolding modifiers
modifiers-IsBare zero ctrl alt [] h = empty-IsBare
modifiers-IsBare zero ctrl alt (c ∷ cs) h = absurd (omega (arith, h))
modifiers-IsBare (suc fuel) ctrl alt t h = elim (Option-cases (strip_prefix (ascii "ctrl-") t)) [
  | inr (rest, e) ↦
      let s : length rest + 5 ≡ length t =
        subst (Shorter (ascii "ctrl-") t) e (strip_prefix-Shorter (ascii "ctrl-") t) in
      rw (e, modifiers) (modifiers-IsBare fuel true alt rest (omega (arith, s, h)))
  | inl e ↦ elim (Option-cases (strip_prefix (ascii "alt-") t)) [
    | inr (rest, e') ↦
        let s : length rest + 4 ≡ length t =
          subst (Shorter (ascii "alt-") t) e' (strip_prefix-Shorter (ascii "alt-") t) in
        rw (e, e', modifiers) (modifiers-IsBare fuel ctrl true rest (omega (arith, s, h)))
    | inl e' ↦ rw (e, e', modifiers) (e, e')
  ]
]
