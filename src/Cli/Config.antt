-- ===== src/Cli/Config.antt =====
-- crates/ruxmsg-cli/src/config.rs: colours, keys and the whole configuration. `toml` is a parameter
-- that gives the raw configuration, or where its syntax is wrong.
pub mod Values
pub mod Modifiers
pub mod Parse
pub mod Apart
pub mod Sound
use ruxmsg.Prelude.{
  ℕ, zero, suc, ◌+◌, ◌-◌, ◌*◌, List, [], ◌∷◌, ◌++◌, Option, some, none, Bool, true, false, not,
  ◌&&◌, ◌||◌, if◌then◌else◌, ltb, leb, ◌==◌, bytes_eq, length, take, ◌⊎◌, inl, inr, String,
}
use ruxmsg.Crypto.{ascii}
use ruxmsg.Cli.Text.{Text}
use ruxmsg.Cli.Scrollback.{text_len}

pub data ConfigError : Type 0 where
  too_large : ConfigError
  syntax : ℕ → ConfigError
  invalid_color invalid_key invalid_border reserved_or_duplicate_key tick_out_of_range : ConfigError

abbrev pub max_config_bytes : ℕ
max_config_bytes = 16384

abbrev pub min_tick_ms : ℕ
min_tick_ms = 100

abbrev pub max_tick_ms : ℕ
max_tick_ms = 1000

pub data NamedColor : Type 0 where
  black red green yellow blue magenta cyan gray dark_gray white : NamedColor

pub data ColorSpec : Type 0 where
  named : NamedColor → ColorSpec
  rgb : ℕ → ℕ → ℕ → ColorSpec

pub data BorderStyle : Type 0 where
  plain_border rounded double thick : BorderStyle

pub record Theme (A : Type 0) : Type 0 where
  pub border : A
  pub accent : A
  pub own : A
  pub remote : A
  pub system : A
  pub warning : A
  pub dim : A

pub data KeyName : Type 0 where
  esc up down page_up_key page_down_key home end_key : KeyName
  function letter : ℕ → KeyName

pub record KeySpec : Type 0 where
  pub key : KeyName
  pub ctrl : Bool
  pub alt : Bool

pub record Keys (A : Type 0) : Type 0 where
  pub leave : A
  pub rekey : A
  pub scroll_up : A
  pub scroll_down : A
  pub page_up : A
  pub page_down : A

pub record Config : Type 0 where
  pub theme : Theme ColorSpec
  pub keys : Keys KeySpec
  pub border : BorderStyle
  pub tick_ms : ℕ

pub record RawUi : Type 0 where
  pub border : Option Text
  pub tick_ms : Option ℕ

pub record RawConfig : Type 0 where
  pub theme : Option (Theme (Option Text))
  pub keys : Option (Keys (Option Text))
  pub ui : Option RawUi

-- `Result<A, ConfigError>` with `?`.
abbrev pub Checked : Type 0 → Type 0
Checked A = ConfigError ⊎ A

infixl 5 ◌>>=◌
abbrev pub ◌>>=◌ : {X Y : Type 0} → Checked X → (X → Checked Y) → Checked Y
inl e >>= next = inl e
inr x >>= next = next x

abbrev pub plain : KeyName → KeySpec
plain key = record { key = key; ctrl = false; alt = false }

abbrev pub default_theme : Theme ColorSpec
default_theme = record {
  border = named dark_gray;
  accent = named cyan;
  own = named green;
  remote = named yellow;
  system = named magenta;
  warning = named red;
  dim = named gray;
}

abbrev pub default_keys : Keys KeySpec
default_keys = record {
  leave = plain esc;
  rekey = record { key = letter 114; ctrl = true; alt = false };
  scroll_up = plain up;
  scroll_down = plain down;
  page_up = plain page_up_key;
  page_down = plain page_down_key;
}

abbrev pub default_config : Config
default_config = record {
  theme = default_theme;
  keys = default_keys;
  border = plain_border;
  tick_ms = 250;
}

abbrev pub all_keys : Keys KeySpec → List KeySpec
all_keys k = k.leave ∷ k.rekey ∷ k.scroll_up ∷ k.scroll_down ∷ k.page_up ∷ k.page_down ∷ []

unfoldable pub name_eq : KeyName → KeyName → Bool
name_eq esc esc = true
name_eq up up = true
name_eq down down = true
name_eq page_up_key page_up_key = true
name_eq page_down_key page_down_key = true
name_eq home home = true
name_eq end_key end_key = true
name_eq (function m) (function n) = m == n
name_eq (letter c) (letter d) = c == d
name_eq _ _ = false

abbrev pub bool_eq : Bool → Bool → Bool
bool_eq true b = b
bool_eq false b = not b

unfoldable pub key_eq : KeySpec → KeySpec → Bool
key_eq a b = name_eq a.key b.key && (bool_eq a.ctrl b.ctrl && bool_eq a.alt b.alt)
