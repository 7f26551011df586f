-- ===== src/Cli/Config/Apart.antt =====
-- No key of a configuration is bound twice.
use ruxmsg.Prelude.{
  List, [], ◌∷◌, ◌++◌, Bool, true, false, ◌≡◌, ◌≢◌, refl, sym, ap, ◌∙◌, All, eq_self, arith,
}
use ruxmsg.Cli.Config.{KeyName, function, letter, KeySpec, key_eq}
use ruxmsg.Cli.Config.{name_eq, bool_eq}
use ruxmsg.Cli.Config.Parse.{holds_key, repeats}

-- No key stands twice in a list.
abbrev pub Apart : List KeySpec → Type 0
Apart [] = Unit {0}
Apart (s ∷ ss) = All (λ t. s ≢ t) ss × Apart ss

bool_eq_self : (b : Bool) → bool_eq b b ≡ true
bool_eq_self true = refl
bool_eq_self false = refl

name_eq_self : (k : KeyName) → name_eq k k ≡ true
unfolding name_eq
name_eq_self (function n) = eq_self n
name_eq_self (letter c) = eq_self c
name_eq_self _ = refl

key_eq_self : (s : KeySpec) → key_eq s s ≡ true
unfolding key_eq
key_eq_self s = rw (name_eq_self s.key, bool_eq_self s.ctrl, bool_eq_self s.alt) refl

key_apart : (s t : KeySpec) → key_eq s t ≡ false → s ≢ t
key_apart s t h p = ground (arith, sym (ap (key_eq s) p) ∙ key_eq_self s, h)

-- Keys that are not held are apart from all.
not_held :
    (s : KeySpec) (before : List KeySpec) → holds_key s before ≡ false → All (λ t. t ≢ s) before
unfolding holds_key
not_held s [] h = tt
not_held s (t ∷ ts) h = (key_apart t s (ground arith), not_held s ts (ground arith))

-- Each of the first keys is apart from each of the second.
abbrev pub Cross : List KeySpec → List KeySpec → Type 0
Cross before ss = All (λ t. All (λ s. t ≢ s) ss) before

Cross-split :
    (before : List KeySpec) (s : KeySpec) (ss : List KeySpec)
    → Cross (before ++ (s ∷ [])) ss
    → Cross before ss × All (λ t. s ≢ t) ss
Cross-split [] s ss h = (tt, h.0)
Cross-split (t ∷ ts) s ss h = let (a, b) = Cross-split ts s ss h.1 in ((h.0, a), b)

Cross-cons :
    (before : List KeySpec) (s : KeySpec) (ss : List KeySpec)
    → All (λ t. t ≢ s) before
    → Cross before ss
    → Cross before (s ∷ ss)
Cross-cons [] s ss h k = tt
Cross-cons (t ∷ ts) s ss h k = ((h.0, k.0), Cross-cons ts s ss h.1 k.1)

Cross-none : (before : List KeySpec) → Cross before []
Cross-none [] = tt
Cross-none (t ∷ ts) = (tt, Cross-none ts)

pub repeats-Apart :
    (before ss : List KeySpec) → repeats before ss ≡ false → Cross before ss × Apart ss
unfolding repeats
repeats-Apart before [] h = (Cross-none before, tt)
repeats-Apart before (s ∷ ss) h =
    let here : holds_key s before ≡ false = ground (arith, h) in
    let later : repeats (before ++ (s ∷ [])) ss ≡ false = ground (arith, h) in
    let (c, a) = repeats-Apart (before ++ (s ∷ [])) ss later in
    let (b, d) = Cross-split before s ss c in
    (Cross-cons before s ss (not_held s before here) b, (d, a))
