-- ===== src/Cli/Text.antt =====
-- What crates/ruxmsg-cli uses of `str`: a text is the list of its code points.
pub mod Words
use ruxmsg.Prelude.{
  ℕ, List, [], ◌∷◌, ◌++◌, Option, some, none, Bool, true, false, not, ◌&&◌, ◌||◌, leb, ◌==◌,
  if◌then◌else◌,
}

abbrev pub Text : Type 0
Text = List ℕ

-- `char::is_whitespace`: the property White_Space of Unicode.
unfoldable pub is_whitespace : ℕ → Bool
is_whitespace c =
    (leb 9 c && leb c 13)
    || (c == 32
        || (c == 133
            || (c == 160
                || (c == 5760
                    || ((leb 8192 c && leb c 8202)
                        || (c == 8232
                            || (c == 8233 || (c == 8239 || (c == 8287 || c == 12288)))))))))

abbrev pub is_empty : Text → Bool
is_empty [] = true
is_empty (c ∷ cs) = false

unfoldable pub trim_start : Text → Text
trim_start [] = []
trim_start (c ∷ cs) = let rest = trim_start cs in if is_whitespace c then rest else c ∷ cs

-- `c`, if what follows it is blank and so is `c`, is blank.
abbrev pub before_rest : ℕ → Text → Text
before_rest c [] = if is_whitespace c then [] else c ∷ []
before_rest c (d ∷ ds) = c ∷ d ∷ ds

unfoldable pub trim_end : Text → Text
trim_end [] = []
trim_end (c ∷ cs) = before_rest c (trim_end cs)

unfoldable pub trim : Text → Text
trim t = trim_end (trim_start t)

abbrev pub flush : Text → List Text → List Text
flush [] ws = ws
flush (c ∷ cs) ws = (c ∷ cs) ∷ ws

-- The word that a text starts with, empty before whitespace, and the words after it.
unfoldable pub words_of : Text → Text × List Text
words_of [] = ([], [])
words_of (c ∷ cs) =
    let (w, ws) = words_of cs in if is_whitespace c then ([], flush w ws) else (c ∷ w, ws)

unfoldable pub split_whitespace : Text → List Text
split_whitespace t = let (w, ws) = words_of t in flush w ws

-- `split_once(char::is_whitespace)`
unfoldable pub split_once : Text → Option (Text × Text)
split_once [] = none
split_once (c ∷ cs) =
    let rest = split_once cs in
    if is_whitespace c
    then some ([], cs)
    else (elim rest [ none ↦ none | some (a, b) ↦ some (c ∷ a, b) ])
