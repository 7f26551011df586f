-- ===== src/Display.antt =====
-- crates/ruxmsg-core/src/display.rs: text of a peer for a terminal. A string is the list of its
-- code points.
use ruxmsg.Prelude.{
  ℕ, zero, suc, ◌+◌, ◌/◌, ◌*◌, ◌%◌, ◌≤◌, ◌<◌, ◌≡◌, ◌≢◌, ◌⊎◌, true, refl, ap, List, [], ◌∷◌, ◌++◌,
  Bool, false, not, ◌&&◌, ◌||◌, ltb, leb, ◌==◌, if◌then◌else◌, All, Bool-cases, inl, inr, arith,
}

-- `char::is_control`: U+0000 to U+001F and U+007F to U+009F.
unfoldable pub is_control : ℕ → Bool
is_control c = leb c 31 || (leb 127 c && leb c 159)

abbrev pub in_range : ℕ → ℕ → ℕ → Bool
in_range low high c = leb low c && leb c high

unfoldable pub is_unsafe : ℕ → Bool
is_unsafe c =
    (is_control c && (not (c == 10) && not (c == 9)))
    || (c == 1564
        || (c == 8206
            || (c == 8207 || (in_range 8232 8238 c || (in_range 8294 8297 c || c == 65279)))))

-- A lower-case hexadecimal digit.
unfoldable pub hex_digit : ℕ → ℕ
hex_digit d = if ltb d 10 then 48 + d else 87 + d

-- The digits above the fourth, of a u32.
unfoldable pub hex_high : ℕ → ℕ → List ℕ
hex_high zero n = []
hex_high (suc fuel) n = if n == 0 then [] else hex_high fuel (n / 16) ++ (hex_digit (n % 16) ∷ [])

-- `{:04x}`
unfoldable pub hex4 : ℕ → List ℕ
hex4 n =
    hex_high 4 (n / 65536)
    ++ (hex_digit (n / 4096 % 16)
        ∷ hex_digit (n / 256 % 16)
        ∷ hex_digit (n / 16 % 16)
        ∷ hex_digit (n % 16)
        ∷ [])

-- A backslash, `u{`, the code and `}`.
unfoldable pub escape : ℕ → List ℕ
escape c = 92 ∷ 117 ∷ 123 ∷ (hex4 c ++ (125 ∷ []))

unfoldable pub sanitize_for_display : List ℕ → List ℕ
sanitize_for_display [] = []
sanitize_for_display (c ∷ cs) =
    (if is_unsafe c then escape c else c ∷ []) ++ sanitize_for_display cs

-- U+0000 to U+001F and U+007F to U+009F (category Cc), but for newline and tab.
abbrev pub IsControl : ℕ → Type 0
IsControl c = ((c < 32) ⊎ ((127 ≤ c) × (c < 160))) × (c ≢ 10) × (c ≢ 9)

-- The marks U+061C, U+200E and U+200F, the embeddings and overrides U+202A to U+202E, and the
-- isolates U+2066 to U+2069.
abbrev pub IsBidi : ℕ → Type 0
IsBidi c =
    (c ≡ 1564) ⊎ ((8206 ≤ c) × (c ≤ 8207)) ⊎ ((8234 ≤ c) × (c ≤ 8238)) ⊎ ((8294 ≤ c) × (c ≤ 8297))

-- Controls, bidirectional formatting, the separators U+2028 and U+2029, and U+FEFF.
abbrev pub IsHostile : ℕ → Type 0
IsHostile c = IsControl c ⊎ IsBidi c ⊎ ((8232 ≤ c) × (c ≤ 8233)) ⊎ (c ≡ 65279)

-- `d` is the lower-case hexadecimal digit of value `v`.
abbrev pub IsDigit : ℕ → ℕ → Type 0
IsDigit d v = ((v < 10) × (d ≡ 48 + v)) ⊎ ((10 ≤ v) × (v < 16) × (d ≡ 87 + v))

-- A text as it is shown, in order: a hostile character as a backslash, `u{`, the four hexadecimal
-- digits of its number and `}`, any other as it is.
pub data Shown : List ℕ → List ℕ → Type 0 where
  nothing : Shown [] []
  escaped :
      {c d0 d1 d2 d3 v0 v1 v2 v3 : ℕ} {s t : List ℕ}
      → IsHostile c
      → c ≡ v0 * 4096 + v1 * 256 + v2 * 16 + v3
      → IsDigit d0 v0
      → IsDigit d1 v1
      → IsDigit d2 v2
      → IsDigit d3 v3
      → Shown s t
      → Shown (c ∷ s) (92 ∷ 117 ∷ 123 ∷ d0 ∷ d1 ∷ d2 ∷ d3 ∷ 125 ∷ t)
  plain : {c : ℕ} {s t : List ℕ} → ¬ IsHostile c → Shown s t → Shown (c ∷ s) (c ∷ t)

abbrev pub IsHarmless : ℕ → Type 0
IsHarmless c = ¬ IsHostile c

unsafe-IsHostile : (c : ℕ) → is_unsafe c ≡ true → IsHostile c
unfolding is_unsafe is_control
unsafe-IsHostile c e = ground arith

safe-IsHarmless : (c : ℕ) → is_unsafe c ≡ false → IsHarmless c
unfolding is_unsafe is_control
safe-IsHarmless c e h = ground arith

hex_digit-IsDigit : (v : ℕ) → v < 16 → IsDigit (hex_digit v) v
unfolding hex_digit
hex_digit-IsDigit v h = ground arith

hostile_small : (c : ℕ) → IsHostile c → c < 65536
hostile_small c h = ground arith

escape-Shown : (c : ℕ) (s t : List ℕ) → IsHostile c → Shown s t → Shown (c ∷ s) (escape c ++ t)
unfolding escape hex4 hex_high
escape-Shown c s t h d =
    let small = hostile_small c h in
    let no_more : c / 65536 ≡ 0 = omega arith in
    rw no_more (
      escaped h (omega arith) (hex_digit-IsDigit (c / 4096 % 16) (omega arith))
        (hex_digit-IsDigit (c / 256 % 16) (omega arith))
        (hex_digit-IsDigit (c / 16 % 16) (omega arith)) (hex_digit-IsDigit (c % 16) (omega arith))
        d)

sanitize-Shown : (s : List ℕ) → Shown s (sanitize_for_display s)
unfolding sanitize_for_display
sanitize-Shown [] = nothing
sanitize-Shown (c ∷ cs) = elim (Bool-cases (is_unsafe c)) [
  | inl e ↦
      rw (e, sanitize_for_display) (escape-Shown c cs _ (unsafe-IsHostile c e) (sanitize-Shown cs))
  | inr e ↦ rw (e, sanitize_for_display) (plain (safe-IsHarmless c e) (sanitize-Shown cs))
]

printable-IsHarmless : (c : ℕ) → 32 ≤ c → c < 127 → IsHarmless c
printable-IsHarmless c l h k = ground arith

digit-IsHarmless : (d v : ℕ) → IsDigit d v → IsHarmless d
digit-IsHarmless d v h = printable-IsHarmless d (ground arith) (ground arith)

Shown-IsHarmless : {s t : List ℕ} → Shown s t → All IsHarmless t
Shown-IsHarmless nothing = tt
Shown-IsHarmless (plain h k) = (h, Shown-IsHarmless k)
Shown-IsHarmless (escaped {c} {d0} {d1} {d2} {d3} {v0} {v1} {v2} {v3} {s} {t} h e i0 i1 i2 i3 k) =
    let digits : All IsHarmless (d0 ∷ d1 ∷ d2 ∷ d3 ∷ 125 ∷ t) = (
      digit-IsHarmless d0 v0 i0,
      (
        digit-IsHarmless d1 v1 i1,
        (
          digit-IsHarmless d2 v2 i2,
          (
            digit-IsHarmless d3 v3 i3,
            (printable-IsHarmless 125 (omega arith) (omega arith), Shown-IsHarmless k),
          ),
        ),
      ),
    ) in
    (
      printable-IsHarmless 92 (omega arith) (omega arith),
      (
        printable-IsHarmless 117 (omega arith) (omega arith),
        (printable-IsHarmless 123 (omega arith) (omega arith), digits),
      ),
    )

Shown_same : {s t : List ℕ} → Shown s t → All IsHarmless s → t ≡ s
Shown_same nothing h = refl
Shown_same (escaped k _ _ _ _ _ _) h = absurd (h.0 k)
Shown_same (plain {c} k d) h = ap (λ t. c ∷ t) (Shown_same d h.1)

-- Sanitised text shows every character in order: a control character but newline and tab, a
-- bidirectional formatting character, U+2028, U+2029 and U+FEFF as a backslash, `u{`, its number in
-- four hexadecimal digits and `}`, any other as it is. It has none of the former, and to sanitise
-- it again changes nothing.
pub sanitize_for_display_lem :
    (s : List ℕ)
    → let t = sanitize_for_display s in Shown s t × All IsHarmless t × (sanitize_for_display t ≡ t)
sanitize_for_display_lem s =
    let t = sanitize_for_display s in
    let safe : All IsHarmless t = Shown-IsHarmless (sanitize-Shown s) in
    (sanitize-Shown s, safe, Shown_same (sanitize-Shown t) safe)
