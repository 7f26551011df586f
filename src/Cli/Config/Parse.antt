-- ===== src/Cli/Config/Parse.antt =====
-- A whole configuration: `pick`, `line_of` and `parse`.
use ruxmsg.Prelude.{
  ℕ, ◌+◌, List, [], ◌∷◌, ◌++◌, Option, some, none, Bool, false, ◌&&◌, ◌||◌, if◌then◌else◌, ltb, leb,
  ◌==◌, bytes_eq, length, take, ◌⊎◌, inl, inr,
}
use ruxmsg.Crypto.{ascii}
use ruxmsg.Cli.Text.{Text}
use ruxmsg.Cli.Config.{
  too_large, syntax, invalid_border, reserved_or_duplicate_key, tick_out_of_range, max_config_bytes,
  min_tick_ms, max_tick_ms, ColorSpec, BorderStyle, plain_border, rounded, double, thick, Theme,
  KeySpec, Keys, Config, RawUi, RawConfig, Checked, ◌>>=◌, default_theme, default_keys,
  default_config, all_keys, key_eq,
}
use ruxmsg.Cli.Config.Values.{to_ascii_lowercase, parse_color, parse_key}

unfoldable pub pick : {A : Type 0} → Option Text → A → (Text → Checked A) → Checked A
pick none default parse = inr default
pick (some text) default parse = parse text

-- Newlines before a byte offset, and one.
unfoldable pub newlines : List ℕ → ℕ
newlines [] = 0
newlines (b ∷ bs) = (if b == 10 then 1 else 0) + newlines bs

unfoldable pub line_of : List ℕ → ℕ → ℕ
line_of bytes offset = newlines (take offset bytes) + 1

unfoldable pub holds_key : KeySpec → List KeySpec → Bool
holds_key s [] = false
holds_key s (t ∷ ts) = key_eq t s || holds_key s ts

-- A key that is bound before it in the list.
unfoldable pub repeats : List KeySpec → List KeySpec → Bool
repeats before [] = false
repeats before (s ∷ ss) = holds_key s before || repeats (before ++ (s ∷ [])) ss

unfoldable pub parse_border : Text → Checked BorderStyle
parse_border text =
    let t = to_ascii_lowercase text in
    if bytes_eq t (ascii "plain")
    then inr plain_border
    else if bytes_eq t (ascii "rounded")
    then inr rounded
    else if bytes_eq t (ascii "double")
    then inr double
    else if bytes_eq t (ascii "thick")
    then inr thick
    else inl invalid_border

unfoldable pub parse_theme : Theme (Option Text) → Checked (Theme ColorSpec)
parse_theme t = pick t.border default_theme.border parse_color >>= λ border.
    pick t.accent default_theme.accent parse_color >>= λ accent.
    pick t.own default_theme.own parse_color >>= λ own.
    pick t.remote default_theme.remote parse_color >>= λ remote.
    pick t.system default_theme.system parse_color >>= λ system.
    pick t.warning default_theme.warning parse_color >>= λ warning.
    pick t.dim default_theme.dim parse_color >>= λ dim. inr (record {
      border = border;
      accent = accent;
      own = own;
      remote = remote;
      system = system;
      warning = warning;
      dim = dim;
    })

unfoldable pub parse_keys : Keys (Option Text) → Checked (Keys KeySpec)
parse_keys k = pick k.leave default_keys.leave parse_key >>= λ leave.
    pick k.rekey default_keys.rekey parse_key >>= λ rekey.
    pick k.scroll_up default_keys.scroll_up parse_key >>= λ scroll_up.
    pick k.scroll_down default_keys.scroll_down parse_key >>= λ scroll_down.
    pick k.page_up default_keys.page_up parse_key >>= λ page_up.
    pick k.page_down default_keys.page_down parse_key >>= λ page_down. inr (record {
      leave = leave;
      rekey = rekey;
      scroll_up = scroll_up;
      scroll_down = scroll_down;
      page_up = page_up;
      page_down = page_down;
    })

abbrev pub default_to : {A : Type 0} → Option A → A → A
default_to none a = a
default_to (some b) a = b

abbrev pub empty_theme : Theme (Option Text)
empty_theme = record {
  border = none;
  accent = none;
  own = none;
  remote = none;
  system = none;
  warning = none;
  dim = none;
}

abbrev pub empty_keys : Keys (Option Text)
empty_keys = record {
  leave = none;
  rekey = none;
  scroll_up = none;
  scroll_down = none;
  page_up = none;
  page_down = none;
}

abbrev pub empty_ui : RawUi
empty_ui = record { border = none; tick_ms = none }

unfoldable pub check_keys : Keys KeySpec → Checked (Keys KeySpec)
check_keys k = if repeats [] (all_keys k) then inl reserved_or_duplicate_key else inr k

unfoldable pub check_tick : ℕ → Checked ℕ
check_tick tick =
    if leb min_tick_ms tick && leb tick max_tick_ms then inr tick else inl tick_out_of_range

unfoldable pub config_of : RawConfig → Checked Config
config_of raw =
    let ui = default_to raw.ui empty_ui in
    parse_theme (default_to raw.theme empty_theme) >>= λ theme.
    parse_keys (default_to raw.keys empty_keys) >>= λ parsed. check_keys parsed >>= λ keys.
    pick ui.border default_config.border parse_border >>= λ border.
    check_tick (default_to ui.tick_ms default_config.tick_ms) >>= λ tick_ms.
    inr (record { theme = theme; keys = keys; border = border; tick_ms = tick_ms })

-- The line of the offset where `toml` found an error, if it tells one.
abbrev pub error_line : List ℕ → Option ℕ → ℕ
error_line bytes none = 1
error_line bytes (some offset) = line_of bytes offset

-- A text is given by its bytes, which `len` and the offsets are about.
module _ (from_str : List ℕ → Option ℕ ⊎ RawConfig) where
  unfoldable pub parse_raw : List ℕ → Checked RawConfig
  parse_raw bytes = elim (from_str bytes) [
    | inl offset ↦ inl (syntax (error_line bytes offset))
    | inr raw ↦ inr raw
  ]

  unfoldable pub parse : List ℕ → Checked Config
  parse bytes =
      if ltb max_config_bytes (length bytes) then inl too_large else (parse_raw bytes >>= config_of)
