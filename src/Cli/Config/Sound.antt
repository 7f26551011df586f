-- ===== src/Cli/Config/Sound.antt =====
-- What a configuration that was parsed guarantees.
use ruxmsg.Prelude.{
  ℕ, List, [], Option, some, none, Bool, true, false, not, ◌&&◌, ◌||◌, ltb, leb, ◌==◌, bytes_eq,
  length, ◌⊎◌, inl, inr, ◌≡◌, ◌≢◌, ◌≤◌, refl, subst, All, Bool-cases, arith,
}
use ruxmsg.Cli.Text.{Text}
use ruxmsg.Cli.Scrollback.{text_len}
use ruxmsg.Cli.Config.{
  max_config_bytes, min_tick_ms, max_tick_ms, KeyName, esc, up, down, page_up_key, page_down_key,
  letter, KeySpec, Keys, Config, RawConfig, Checked, ◌>>=◌, plain, default_keys, default_config,
  all_keys,
}
use ruxmsg.Cli.Config.Values.{
  modifiers, to_ascii_lowercase, key_name, check_reserved, with_modifiers, parse_key, is_ascii,
}
use ruxmsg.Cli.Config.Apart.{Apart, repeats-Apart}
use ruxmsg.Cli.Config.Parse.{
  pick, repeats, parse_theme, parse_keys, parse_border, check_keys, check_tick, config_of,
  default_to, empty_theme, empty_keys, empty_ui, parse_raw, parse,
}

-- A property of what is checked, if it is.
abbrev Good : {A : Type 0} → (A → Type 0) → Checked A → Type 0
Good P (inl e) = Unit {0}
Good P (inr a) = P a

Good-bind :
    {A B : Type 0} (P : A → Type 0) (Q : B → Type 0) (m : Checked A) (f : A → Checked B)
    → Good P m
    → ((a : A) → P a → Good Q (f a))
    → Good Q (m >>= f)
Good-bind P Q (inl e) f h k = tt
Good-bind P Q (inr a) f h k = k a h

Good-pick :
    {A : Type 0} (P : A → Type 0) (o : Option Text) (d : A) (parse : Text → Checked A)
    → P d
    → ((t : Text) → Good P (parse t))
    → Good P (pick o d parse)
unfolding pick
Good-pick P none d parse h k = h
Good-pick P (some t) d parse h k = k t

-- A letter has Ctrl or Alt, and Ctrl-C and Ctrl-D are not bound.
abbrev pub IsAllowedLetter : Bool → Bool → ℕ → Type 0
IsAllowedLetter true alt c = (c ≢ 99) × (c ≢ 100)
IsAllowedLetter false alt c = alt ≡ true

abbrev pub IsAllowedName : KeyName → Bool → Bool → Type 0
IsAllowedName (letter c) ctrl alt = IsAllowedLetter ctrl alt c
IsAllowedName _ ctrl alt = Unit {0}

abbrev pub IsAllowed : KeySpec → Type 0
IsAllowed s = IsAllowedName s.key s.ctrl s.alt

reserved_letter :
    (c : ℕ) (ctrl alt : Bool)
    → Good IsAllowed (check_reserved (record { key = letter c; ctrl = ctrl; alt = alt }))
unfolding check_reserved
reserved_letter c false false = tt
reserved_letter c false true = elim (Bool-cases (c == 99 || c == 100)) [
  | inl e ↦ rw (e, check_reserved) refl
  | inr e ↦ rw (e, check_reserved) refl
]
reserved_letter c true alt = elim (Bool-cases (c == 99 || c == 100)) [
  | inl e ↦ rw (e, check_reserved) tt
  | inr e ↦ rw (e, check_reserved) (λ p. ground arith, λ p. ground arith)
]

check_reserved-Good :
    (key : KeyName) (ctrl alt : Bool)
    → Good IsAllowed (check_reserved (record { key = key; ctrl = ctrl; alt = alt }))
unfolding check_reserved
check_reserved-Good (letter c) ctrl alt = reserved_letter c ctrl alt
check_reserved-Good _ ctrl alt = tt

parse_key-Good : (t : Text) → Good IsAllowed (parse_key t)
unfolding parse_key with_modifiers
parse_key-Good t = elim (Bool-cases (bytes_eq t [] || (ltb 16 (text_len t) || not (is_ascii t)))) [
  | inl e ↦ rw (e, parse_key) tt
  | inr e ↦
      let m = modifiers (length t) false false (to_ascii_lowercase t) in
      rw (e, parse_key)
        (Good-bind (λ k. Unit {0}) IsAllowed (key_name m.2) _ (any (key_name m.2))
          (λ key h. check_reserved-Good key m.0 m.1))
]
  where
    any : (m : Checked KeyName) → Good (λ k. Unit {0}) m
    any (inl e) = tt
    any (inr k) = tt

-- All six keys are allowed, and none is another.
abbrev pub AllAllowed : Keys KeySpec → Type 0
AllAllowed k = All IsAllowed (all_keys k)

parse_keys-Good : (k : Keys (Option Text)) → Good AllAllowed (parse_keys k)
unfolding parse_keys
parse_keys-Good k = Good-bind IsAllowed AllAllowed _ _ (picked k.leave (plain esc) tt) (λ leave h1.
    Good-bind IsAllowed AllAllowed _ _
      (picked k.rekey default_keys.rekey (λ p. ground arith, λ p. ground arith))
      (λ rekey h2.
        Good-bind IsAllowed AllAllowed _ _ (picked k.scroll_up (plain up) tt) (λ scroll_up h3.
          Good-bind IsAllowed AllAllowed _ _ (picked k.scroll_down (plain down) tt)
            (λ scroll_down h4.
              Good-bind IsAllowed AllAllowed _ _ (picked k.page_up (plain page_up_key) tt)
                (λ page_up h5.
                  Good-bind IsAllowed AllAllowed _ _ (picked k.page_down (plain page_down_key) tt)
                    (λ page_down h6. (h1, (h2, (h3, (h4, (h5, (h6, tt))))))))))))
  where
    picked : (o : Option Text) (d : KeySpec) → IsAllowed d → Good IsAllowed (pick o d parse_key)
    picked o d h = Good-pick IsAllowed o d parse_key h parse_key-Good

-- The keys are allowed and apart; the tick is in its range.
abbrev pub AreSound : Keys KeySpec → Type 0
AreSound k = All IsAllowed (all_keys k) × Apart (all_keys k)

abbrev pub IsTick : ℕ → Type 0
IsTick tick = (min_tick_ms ≤ tick) × (tick ≤ max_tick_ms)

abbrev pub IsSound : Config → Type 0
IsSound c = AreSound c.keys × IsTick c.tick_ms

check_keys-Good : (k : Keys KeySpec) → AllAllowed k → Good AreSound (check_keys k)
unfolding check_keys
check_keys-Good k h = elim (Bool-cases (repeats [] (all_keys k))) [
  | inl e ↦ rw (e, check_keys) tt
  | inr e ↦ rw (e, check_keys) (h, (repeats-Apart [] (all_keys k) e).1)
]

check_tick-Good : (tick : ℕ) → Good IsTick (check_tick tick)
unfolding check_tick
check_tick-Good tick = elim (Bool-cases (leb min_tick_ms tick && leb tick max_tick_ms)) [
  | inl e ↦ rw (e, check_tick) (ground arith, ground arith)
  | inr e ↦ rw (e, check_tick) tt
]

anything : {A : Type 0} (m : Checked A) → Good (λ a. Unit {0}) m
anything (inl e) = tt
anything (inr a) = tt

config_of-Good : (raw : RawConfig) → Good IsSound (config_of raw)
unfolding config_of
config_of-Good raw =
    let ui = default_to raw.ui empty_ui in
    Good-bind (λ a. Unit {0}) IsSound (parse_theme (default_to raw.theme empty_theme)) _
      (anything _)
      (λ theme h1.
        Good-bind AllAllowed IsSound (parse_keys (default_to raw.keys empty_keys)) _
          (parse_keys-Good (default_to raw.keys empty_keys))
          (λ parsed h2.
            Good-bind AreSound IsSound (check_keys parsed) _ (check_keys-Good parsed h2) (λ keys h3.
              Good-bind (λ a. Unit {0}) IsSound (pick ui.border default_config.border parse_border)
                _ (anything _)
                (λ border h4.
                  Good-bind IsTick IsSound
                    (check_tick (default_to ui.tick_ms default_config.tick_ms)) _
                    (check_tick-Good (default_to ui.tick_ms default_config.tick_ms))
                    (λ tick_ms h5. (h3, h5))))))

module _ (from_str : List ℕ → Option ℕ ⊎ RawConfig) where
  parse-Good : (bytes : List ℕ) → Good IsSound (parse from_str bytes)
  unfolding parse
  parse-Good bytes = elim (Bool-cases (ltb max_config_bytes (length bytes))) [
    | inl e ↦ rw (e, parse) tt
    | inr e ↦
        rw (e, parse)
          (Good-bind (λ a. Unit {0}) IsSound (parse_raw from_str bytes) config_of (anything _)
            (λ raw h. config_of-Good raw))
  ]

  -- In a configuration that was parsed, whatever the TOML reader gives, no letter is bound without
  -- Ctrl or Alt, Ctrl-C and Ctrl-D are not bound, no key is bound twice, and the tick is between
  -- 100 and 1000 ms.
  pub parse-IsSound : (bytes : List ℕ) (c : Config) → parse from_str bytes ≡ inr c → IsSound c
  parse-IsSound bytes c h = subst (Good IsSound) h (parse-Good bytes)
