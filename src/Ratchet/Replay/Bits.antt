-- ===== src/Ratchet/Replay/Bits.antt =====
-- Single bits of a number, under the operations that the window uses.
use Prim.Native.Nat.{digits, bit_and, bit_or, bit_and-bitwise, bit_or-bitwise, min, max}
use native.Mathlib.Nat.{pow-suc, one-le-pow}
use ruxmsg.Prelude.{
  ℕ, zero, suc, ◌+◌, ◌-◌, ◌*◌, ◌/◌, ◌%◌, ◌^◌, ◌≤◌, ◌<◌, ◌≡◌, refl, sym, ◌∙◌, ap, ◌==◌,
  if◌then◌else◌, ltb, arith,
}

-- Bit `d`, as 0 or 1.
abbrev pub test_bit : ℕ → ℕ → ℕ
test_bit b zero = b % 2
test_bit b (suc d) = test_bit (b / 2) d

-- Digit by digit recursion gives one result under any fuel that covers its first argument.
module _ (base : ℕ → ℕ) (join : ℕ → ℕ → ℕ) where
  digits_enough :
      (x y fuel more : ℕ)
      → x ≤ fuel
      → x ≤ more
      → digits base join fuel x y ≡ digits base join more x y
  digits_enough zero y zero zero h k = refl
  digits_enough zero y zero (suc more) h k = refl
  digits_enough zero y (suc fuel) zero h k = refl
  digits_enough zero y (suc fuel) (suc more) h k = refl
  digits_enough (suc x) y zero more h k = absurd (omega arith)
  digits_enough (suc x) y (suc fuel) zero h k = absurd (omega arith)
  digits_enough (suc x) y (suc fuel) (suc more) h k =
      ap (λ t. t * 2 + join (suc x % 2) (y % 2))
        (digits_enough (suc x / 2) (y / 2) fuel more (omega arith) (omega arith))

  digits_half :
      (x y : ℕ)
      → digits base join (suc x) (suc x) y
        ≡ digits base join (suc x / 2) (suc x / 2) (y / 2) * 2 + join (suc x % 2) (y % 2)
  digits_half x y =
      ap (λ t. t * 2 + join (suc x % 2) (y % 2))
        (digits_enough (suc x / 2) (y / 2) x (suc x / 2) (omega arith) (omega arith))

-- The lowest digit of a bitwise operation, and the rest of it.
pub low_and : (x y : ℕ) → bit_and x y ≡ bit_and (x / 2) (y / 2) * 2 + min (x % 2) (y % 2)
low_and zero y = omega (arith, bit_and-bitwise zero y, bit_and-bitwise zero (y / 2))
low_and (suc x) y =
    let whole = bit_and-bitwise (suc x) y in
    let rest = bit_and-bitwise (suc x / 2) (y / 2) in
    whole ∙ (digits_half (λ _. zero) min x y ∙ ap (λ t. t * 2 + min (suc x % 2) (y % 2)) (sym rest))

low_or : (x y : ℕ) → bit_or x y ≡ bit_or (x / 2) (y / 2) * 2 + max (x % 2) (y % 2)
low_or zero y = omega (arith, bit_or-bitwise zero y, bit_or-bitwise zero (y / 2))
low_or (suc x) y =
    let whole = bit_or-bitwise (suc x) y in
    let rest = bit_or-bitwise (suc x / 2) (y / 2) in
    whole ∙ (digits_half (λ t. t) max x y ∙ ap (λ t. t * 2 + max (suc x % 2) (y % 2)) (sym rest))

no_common_digit : (bound x : ℕ) → x ≤ bound → bit_and x 0 ≡ 0
no_common_digit bound zero h = refl
no_common_digit zero (suc x) h = absurd (omega arith)
no_common_digit (suc bound) (suc x) h =
    let lower = no_common_digit bound (suc x / 2) (omega arith) in
    omega (low_and (suc x) 0, lower, arith)

pub and-zero : (x : ℕ) → bit_and x 0 ≡ 0
and-zero x = no_common_digit x x (omega arith)

half-double : (x : ℕ) → x * 2 / 2 ≡ x
half-double x = omega arith

mul-two-pow : (q k : ℕ) → q * 2 ^ suc k ≡ q * 2 ^ k * 2
mul-two-pow q k = omega (arith, ap (λ (t : ℕ). q * t) (pow-suc 2 k))

half-pow : (k : ℕ) → 2 ^ suc k / 2 ≡ 2 ^ k
half-pow k = omega (arith, pow-suc 2 k)

-- `b & (1 << d)` picks out bit `d`.
pub bit_and_pow : (b d : ℕ) → bit_and b (2 ^ d) ≡ test_bit b d * 2 ^ d
bit_and_pow b zero = omega (arith, low_and b 1, no_common_digit (b / 2) (b / 2) (omega arith))
bit_and_pow b (suc d) = ground (
  arith,
  low_and b (2 ^ suc d),
  pow-suc 2 d,
  half-pow d,
  bit_and_pow (b / 2) d,
  mul-two-pow (test_bit (b / 2) d) d,
)

pub test_bit-bit_or : (a b d : ℕ) → test_bit (bit_or a b) d ≡ max (test_bit a d) (test_bit b d)
test_bit-bit_or a b zero = omega (arith, low_or a b)
test_bit-bit_or a b (suc d) =
    let h : bit_or a b / 2 ≡ bit_or (a / 2) (b / 2) = omega (arith, low_or a b) in
    rw h (test_bit-bit_or (a / 2) (b / 2) d)

pub test_bit-zero : (d : ℕ) → test_bit 0 d ≡ 0
test_bit-zero zero = refl
test_bit-zero (suc d) = test_bit-zero d

pub test_bit-pow : (k d : ℕ) → test_bit (2 ^ k) d ≡ (if d == k then 1 else 0)
test_bit-pow zero zero = refl
test_bit-pow zero (suc d) = ground (arith, test_bit-zero d)
test_bit-pow (suc k) zero = ground (arith, pow-suc 2 k)
test_bit-pow (suc k) (suc d) = rw (half-pow k) (ground (arith, test_bit-pow k d))

pub test_bit-shift :
    (b s d : ℕ) → test_bit (b * 2 ^ s) d ≡ (if ltb d s then 0 else test_bit b (d - s))
test_bit-shift b zero d =
    let e : b * 1 ≡ b = omega arith in let k : d - 0 ≡ d = omega arith in rw e (ground arith)
test_bit-shift b (suc s) zero = ground (arith, mul-two-pow b s)
test_bit-shift b (suc s) (suc d) =
    let h : b * 2 ^ suc s / 2 ≡ b * 2 ^ s = omega (arith, mul-two-pow b s) in
    rw h (ground (arith, test_bit-shift b s d))

half-mod-double : (x p : ℕ) → 0 < p → x % (p * 2) / 2 ≡ x / 2 % p
half-mod-double x p h = grind arith

even-mod : (x p : ℕ) → x % (p * 2) % 2 ≡ x % 2
even-mod x p = grind arith

pub test_bit-mod : (x n d : ℕ) → d < n → test_bit (x % 2 ^ n) d ≡ test_bit x d
test_bit-mod x zero d h = absurd (omega arith)
test_bit-mod x (suc n) zero h = rw (pow-suc 2 n) (even-mod x (2 ^ n))
test_bit-mod x (suc n) (suc d) h =
    rw (pow-suc 2 n, half-mod-double x (2 ^ n) (one-le-pow n 2 (omega arith)))
      (test_bit-mod (x / 2) n d (omega arith))
