-- ===== src/Tests/Client.antt =====
-- Concrete texts, histories and credential stores.
use ruxmsg.Prelude.{
  ◌+◌, ◌⊎◌, inl, inr, List, ℕ, true, false, replicate, bytes_eq, ◌≤◌, ◌≡◌, refl, [], ◌∷◌, Option,
  some, none, All, ok, arith,
}
use ruxmsg.Protocol.{Bytes}
use ruxmsg.Crypto.{IdentityKeypair}
use ruxmsg.Display.{sanitize_for_display, Shown, IsHarmless, sanitize_for_display_lem}
use ruxmsg.Storage.{
  SecretStore, IdentityKeyStore, load, load_from, load_or_generate, save, saved, after_write,
  check_stored,
}
use ruxmsg.Storage.Kept.{load-load_or_generate, IsEmpty, FromStore, load_or_generate_kept}
use ruxmsg.Crypto.{ascii}
use ruxmsg.Cli.Text.{is_whitespace, trim_start, trim_end}
use ruxmsg.Cli.Text.Words.{is_solid}
use ruxmsg.Cli.Commands.{Command, message, parse}
use ruxmsg.Cli.Commands.RoundTrip.{print, IsPrintable, parse-print}
use ruxmsg.Cli.Config.{
  invalid_key, KeySpec, Keys, letter, RawConfig, default_keys, default_config, key_eq, name_eq,
}
use ruxmsg.Cli.Config.Values.{
  function_key, parse_u8, parse_key, is_ascii, to_ascii_lowercase, with_modifiers, modifiers,
  strip_prefix, key_name, other_key, letter_key, check_reserved,
}
use ruxmsg.Cli.Config.Parse
use ruxmsg.Cli.Config.Parse.{
  empty_keys, parse_raw, config_of, parse_theme, parse_keys, pick, check_keys, repeats, holds_key,
  check_tick,
}
use ruxmsg.Cli.Config.Modifiers.{IsBare, modifiers-IsBare}
use ruxmsg.Cli.Config.Sound.{IsSound, parse-IsSound}
use ruxmsg.Cli.Scrollback.{
  char_len, remote_author, Scrollback, push, shorten, text_len, max_entry_bytes,
}
use ruxmsg.Cli.Scrollback.Bounds.{Evicted, push-IsBounded}

-- An escape sequence between letters.
sanitize_for_display_lem_example :
    let t = sanitize_for_display (97 ∷ 27 ∷ 91 ∷ 98 ∷ []) in
    Shown (97 ∷ 27 ∷ 91 ∷ 98 ∷ []) t × All IsHarmless t × (sanitize_for_display t ≡ t)
sanitize_for_display_lem_example = sanitize_for_display_lem (97 ∷ 27 ∷ 91 ∷ 98 ∷ [])

abbrev small_history : Scrollback
small_history = record { entries = []; bytes = 0 }

push-IsBounded_example :
    Evicted []
      (record { author = remote_author; text = shorten (104 ∷ 105 ∷ []) })
      (push remote_author (104 ∷ 105 ∷ []) small_history)
    × (text_len (shorten (104 ∷ 105 ∷ [])) ≤ max_entry_bytes + 3)
push-IsBounded_example =
    push-IsBounded remote_author (104 ∷ 105 ∷ []) small_history (refl, omega arith, omega arith)

-- A store of one secret, which keeps what it is given.
abbrev one_secret : SecretStore (Option Bytes)
one_secret = record {
  ensure_persistent = λ s. ok tt;
  get_secret = λ s account. ok s;
  set_secret = λ s account v. (some v, ok tt);
}

abbrev empty_store : IdentityKeyStore (Option Bytes)
empty_store = record { secrets = none; account = "identity" }

abbrev drawn_identity : IdentityKeypair
drawn_identity = record { secret = replicate 32 7 }

abbrev filled_store : IdentityKeyStore (Option Bytes)
filled_store = record { secrets = some (replicate 32 7); account = "identity" }

first_use :
    load_or_generate one_secret drawn_identity empty_store ≡ (filled_store, ok drawn_identity)
unfolding load_or_generate load load_from save saved after_write check_stored bytes_eq
first_use = refl

load-load_or_generate_example : load one_secret filled_store ≡ ok (some drawn_identity)
load-load_or_generate_example =
    load-load_or_generate one_secret (λ s account v p. refl) drawn_identity drawn_identity
      empty_store filled_store refl first_use

-- A malformed seed, of 2 bytes.
abbrev malformed_store : IdentityKeyStore (Option Bytes)
malformed_store = record { secrets = some (4 ∷ 2 ∷ []); account = "identity" }

malformed_store-not-IsEmpty : ¬ IsEmpty one_secret malformed_store
malformed_store-not-IsEmpty (p, q) = ground arith

load_or_generate_kept_example :
    let x = load_or_generate one_secret drawn_identity malformed_store in
    (x.0 ≡ malformed_store) × FromStore one_secret malformed_store x.1
load_or_generate_kept_example =
    load_or_generate_kept one_secret drawn_identity malformed_store malformed_store-not-IsEmpty

abbrev greeting : Command
greeting = message (ascii "bob") (ascii "hello there")

greeting-IsPrintable : IsPrintable greeting
unfolding is_solid is_whitespace trim_start trim_end
greeting-IsPrintable = ((refl, refl), (refl, refl, refl))

parse-print_example : parse (print greeting) ≡ inr greeting
parse-print_example = parse-print greeting greeting-IsPrintable

-- A codec that reads every text as one that binds Ctrl-X to leave.
abbrev leave_config : RawConfig
leave_config = record {
  theme = none;
  keys = some (record empty_keys { leave = some (ascii "ctrl-x") });
  ui = none;
}

abbrev leave_reader : List ℕ → Option ℕ ⊎ RawConfig
leave_reader bytes = inr leave_config

abbrev leave_keys : Keys KeySpec
leave_keys = record default_keys { leave = record { key = letter 120; ctrl = true; alt = false } }

leave_parsed : Parse.parse leave_reader (1 ∷ []) ≡ inr (record default_config { keys = leave_keys })
unfolding Parse.parse parse_raw config_of parse_theme parse_keys pick parse_key is_ascii text_len
    char_len to_ascii_lowercase with_modifiers modifiers strip_prefix key_name other_key letter_key
    check_reserved bytes_eq check_keys repeats holds_key key_eq name_eq check_tick
leave_parsed = refl

parse-IsSound_example : IsSound (record default_config { keys = leave_keys })
parse-IsSound_example =
    parse-IsSound leave_reader (1 ∷ []) (record default_config { keys = leave_keys }) leave_parsed

-- Ctrl-F is read as a function key without a number.
ctrl_f : parse_key (ascii "ctrl-f") ≡ inl invalid_key
unfolding parse_key is_ascii text_len char_len to_ascii_lowercase with_modifiers modifiers
    strip_prefix key_name other_key function_key parse_u8 bytes_eq
ctrl_f = refl

modifiers-IsBare_example : IsBare (modifiers 12 false false (ascii "ctrl-alt-up")).2
modifiers-IsBare_example = modifiers-IsBare 12 false false (ascii "ctrl-alt-up") (omega arith)
