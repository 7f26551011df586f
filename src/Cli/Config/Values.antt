-- ===== src/Cli/Config/Values.antt =====
-- Colours and keys in a configuration: `parse_color` and `parse_key`.
use ruxmsg.Prelude.{
  ℕ, zero, suc, ◌+◌, ◌-◌, ◌*◌, [], ◌∷◌, Option, some, none, Bool, true, false, not, ◌&&◌, ◌||◌,
  if◌then◌else◌, ltb, leb, ◌==◌, bytes_eq, length, inl, inr,
}
use ruxmsg.Crypto.{ascii}
use ruxmsg.Cli.Text.{Text}
use ruxmsg.Cli.Scrollback.{text_len}
use ruxmsg.Cli.Config.{
  invalid_color, invalid_key, reserved_or_duplicate_key, black, red, green, yellow, blue, magenta,
  cyan, gray, dark_gray, white, ColorSpec, named, rgb, KeyName, esc, up, down, page_up_key,
  page_down_key, home, end_key, function, letter, KeySpec, Checked, ◌>>=◌,
}

unfoldable pub to_ascii_lowercase : Text → Text
to_ascii_lowercase [] = []
to_ascii_lowercase (c ∷ cs) = (if leb 65 c && leb c 90 then c + 32 else c) ∷ to_ascii_lowercase cs

unfoldable pub strip_prefix : Text → Text → Option Text
strip_prefix [] text = some text
strip_prefix (p ∷ ps) [] = none
strip_prefix (p ∷ ps) (c ∷ cs) = if p == c then strip_prefix ps cs else none

unfoldable pub is_ascii : Text → Bool
is_ascii [] = true
is_ascii (c ∷ cs) = ltb c 128 && is_ascii cs

-- The value of a hexadecimal digit, of either case.
unfoldable pub hex_value : ℕ → Option ℕ
hex_value c =
    if leb 48 c && leb c 57
    then some (c - 48)
    else if leb 97 c && leb c 102
    then some (c - 87)
    else if leb 65 c && leb c 70
    then some (c - 55)
    else none

abbrev pub channel : Option ℕ → Option ℕ → Checked ℕ
channel (some high) (some low) = inr (high * 16 + low)
channel _ _ = inl invalid_color

unfoldable pub parse_hex : Text → Checked ColorSpec
parse_hex (a ∷ b ∷ c ∷ d ∷ e ∷ f ∷ []) = channel (hex_value a) (hex_value b) >>= λ r.
    channel (hex_value c) (hex_value d) >>= λ g.
    channel (hex_value e) (hex_value f) >>= λ b'. inr (rgb r g b')
parse_hex _ = inl invalid_color

unfoldable pub parse_name : Text → Checked ColorSpec
parse_name t =
    if bytes_eq t (ascii "black")
    then inr (named black)
    else if bytes_eq t (ascii "red")
    then inr (named red)
    else if bytes_eq t (ascii "green")
    then inr (named green)
    else if bytes_eq t (ascii "yellow")
    then inr (named yellow)
    else if bytes_eq t (ascii "blue")
    then inr (named blue)
    else if bytes_eq t (ascii "magenta")
    then inr (named magenta)
    else if bytes_eq t (ascii "cyan")
    then inr (named cyan)
    else if bytes_eq t (ascii "gray") || bytes_eq t (ascii "grey")
    then inr (named gray)
    else if bytes_eq t (ascii "dark-gray") || bytes_eq t (ascii "dark-grey")
    then inr (named dark_gray)
    else if bytes_eq t (ascii "white")
    then inr (named white)
    else inl invalid_color

unfoldable pub parse_color : Text → Checked ColorSpec
parse_color text = elim (strip_prefix (ascii "#") text) [
  | some hex ↦ parse_hex hex
  | none ↦ parse_name (to_ascii_lowercase text)
]

-- The key, the two modifiers and what is left, in a text that is at most `fuel` long.
unfoldable pub modifiers : ℕ → Bool → Bool → Text → Bool × Bool × Text
modifiers zero ctrl alt rest = (ctrl, alt, rest)
modifiers (suc fuel) ctrl alt rest = elim (strip_prefix (ascii "ctrl-") rest) [
  | some tail ↦ modifiers fuel true alt tail
  | none ↦ elim (strip_prefix (ascii "alt-") rest) [
    | some tail ↦ modifiers fuel ctrl true tail
    | none ↦ (ctrl, alt, rest)
  ]
]

-- `parse::<u8>()`: an optional `+`, and digits for less than 256.
unfoldable pub decimal : ℕ → Text → Option ℕ
decimal n [] = some n
decimal n (c ∷ cs) =
    let next = decimal (n * 10 + (c - 48)) cs in
    if leb 48 c && (leb c 57 && leb (n * 10 + (c - 48)) 255) then next else none

abbrev pub digits : Text → Option ℕ
digits [] = none
digits (c ∷ cs) = decimal 0 (c ∷ cs)

unfoldable pub parse_u8 : Text → Option ℕ
parse_u8 t = elim (strip_prefix (ascii "+") t) [ some rest ↦ digits rest | none ↦ digits t ]

unfoldable pub function_key : Option ℕ → Checked KeyName
function_key none = inl invalid_key
function_key (some n) = if leb 1 n && leb n 12 then inr (function n) else inl invalid_key

unfoldable pub letter_key : Text → Checked KeyName
letter_key (c ∷ []) = if leb 97 c && leb c 122 then inr (letter c) else inl invalid_key
letter_key _ = inl invalid_key

unfoldable pub other_key : Text → Checked KeyName
other_key t = elim (strip_prefix (ascii "f") t) [
  | some number ↦ function_key (parse_u8 number)
  | none ↦ letter_key t
]

unfoldable pub key_name : Text → Checked KeyName
key_name t =
    if bytes_eq t (ascii "esc")
    then inr esc
    else if bytes_eq t (ascii "up")
    then inr up
    else if bytes_eq t (ascii "down")
    then inr down
    else if bytes_eq t (ascii "pageup")
    then inr page_up_key
    else if bytes_eq t (ascii "pagedown")
    then inr page_down_key
    else if bytes_eq t (ascii "home")
    then inr home
    else if bytes_eq t (ascii "end")
    then inr end_key
    else other_key t

abbrev pub is_letter : KeyName → Bool
is_letter (letter c) = true
is_letter _ = false

abbrev pub is_c_or_d : KeyName → Bool
is_c_or_d (letter c) = c == 99 || c == 100
is_c_or_d _ = false

unfoldable pub check_reserved : KeySpec → Checked KeySpec
check_reserved s =
    if is_letter s.key && not (s.ctrl || s.alt)
    then inl reserved_or_duplicate_key
    else if is_c_or_d s.key && s.ctrl
    then inl reserved_or_duplicate_key
    else inr s

unfoldable pub with_modifiers : Bool × Bool × Text → Checked KeySpec
with_modifiers (ctrl, alt, rest) =
    key_name rest >>= λ key. check_reserved (record { key = key; ctrl = ctrl; alt = alt })

unfoldable pub parse_key : Text → Checked KeySpec
parse_key text =
    if bytes_eq text [] || (ltb 16 (text_len text) || not (is_ascii text))
    then inl invalid_key
    else with_modifiers (modifiers (length text) false false (to_ascii_lowercase text))
