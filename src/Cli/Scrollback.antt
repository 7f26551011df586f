-- ===== src/Cli/Scrollback.antt =====
-- crates/ruxmsg-cli/src/scrollback.rs: the bounded history of a conversation. A text is the list of
-- its code points, and its length is that of its UTF-8 bytes.
pub mod Bounds
use ruxmsg.Prelude.{
  ℕ, zero, suc, ◌+◌, ◌-◌, List, [], ◌∷◌, ◌++◌, Bool, true, false, ◌&&◌, ◌||◌, ltb, leb, ◌==◌,
  if◌then◌else◌, length,
}

abbrev pub max_entries : ℕ
max_entries = 1000

abbrev pub max_bytes : ℕ
max_bytes = 262144

abbrev pub max_entry_bytes : ℕ
max_entry_bytes = 65536

abbrev pub ellipsis : ℕ
ellipsis = 8230

-- The bytes of a code point, and of a text: `len`.
unfoldable pub char_len : ℕ → ℕ
char_len c = if ltb c 128 then 1 else if ltb c 2048 then 2 else if ltb c 65536 then 3 else 4

unfoldable pub text_len : List ℕ → ℕ
text_len [] = 0
text_len (c ∷ cs) = char_len c + text_len cs

pub data Author : Type 0 where
  local_author remote_author system_author : Author

pub record Entry : Type 0 where
  pub author : Author
  pub text : List ℕ

pub record Scrollback : Type 0 where
  pub entries : List Entry
  pub bytes : ℕ

unfoldable pub is_char_boundary : List ℕ → ℕ → Bool
is_char_boundary [] n = n == 0
is_char_boundary (c ∷ cs) n = n == 0 || (leb (char_len c) n && is_char_boundary cs (n - char_len c))

-- `while !text.is_char_boundary(cut) { cut -= 1 }`: zero is a boundary of every text.
unfoldable pub cut_back : List ℕ → ℕ → ℕ
cut_back text zero = zero
cut_back text (suc cut) =
    let lower = cut_back text cut in if is_char_boundary text (suc cut) then suc cut else lower

-- `&text[..cut]` for a boundary.
unfoldable pub take_bytes : List ℕ → ℕ → List ℕ
take_bytes [] n = []
take_bytes (c ∷ cs) n = if n == 0 then [] else c ∷ take_bytes cs (n - char_len c)

unfoldable pub shorten : List ℕ → List ℕ
shorten text =
    if ltb max_entry_bytes (text_len text)
    then take_bytes text (cut_back text max_entry_bytes) ++ (ellipsis ∷ [])
    else text

-- The loop over the oldest entries.
unfoldable pub evict : List Entry → ℕ → Scrollback
evict [] bytes = record { entries = []; bytes = bytes }
evict (e ∷ es) bytes =
    let rest = evict es (bytes - text_len e.text) in
    if ltb max_entries (length (e ∷ es)) || ltb max_bytes bytes
    then rest
    else record { entries = e ∷ es; bytes = bytes }

unfoldable pub push : Author → List ℕ → Scrollback → Scrollback
push author text s =
    let short = shorten text in
    evict (s.entries ++ (record { author = author; text = short } ∷ [])) (s.bytes + text_len short)
