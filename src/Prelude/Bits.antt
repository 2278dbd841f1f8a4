-- ===== src/Prelude/Bits.antt =====
-- `|` of machine words at variables, from the definition of the native operation.
use Prim.Native.Nat.{
  ℕ, zero, suc, ◌+◌, ◌*◌, ◌/◌, ◌%◌, ◌^◌, ◌≤◌, ◌<◌, max, bit_or, digits, bit_or-bitwise,
}
use mathlib.Core.Path.{◌≡◌, refl, ap}
use native.Mathlib.Nat.{pow-suc}
use native.Mathlib.Omega.{arith}

-- The operation with a count of the digits to go.
abbrev or_within : ℕ → ℕ → ℕ → ℕ
or_within count x y = digits (λ rest. rest) max count x y

-- A count that is large enough may be changed.
or_within_eq : (x c d y : ℕ) → x ≤ c → x ≤ d → or_within c x y ≡ or_within d x y
or_within_eq zero zero zero y hc hd = refl
or_within_eq zero zero (suc d) y hc hd = refl
or_within_eq zero (suc c) zero y hc hd = refl
or_within_eq zero (suc c) (suc d) y hc hd = refl
or_within_eq (suc x) zero d y hc hd = absurd (omega arith)
or_within_eq (suc x) (suc c) zero y hc hd = absurd (omega arith)
or_within_eq (suc x) (suc c) (suc d) y hc hd =
    ap (λ (high : ℕ). high * 2 + max (suc x % 2) (y % 2))
      (or_within_eq (suc x / 2) c d (y / 2) (omega arith) (omega arith))

-- The lowest digit, and the rest.
pub bit_or_digit : (x y : ℕ) → bit_or x y ≡ bit_or (x / 2) (y / 2) * 2 + max (x % 2) (y % 2)
bit_or_digit zero y = omega (arith, bit_or-bitwise 0 y, bit_or-bitwise 0 (y / 2))
bit_or_digit (suc x) y = omega (
  arith,
  bit_or-bitwise (suc x) y,
  bit_or-bitwise (suc x / 2) (y / 2),
  or_within_eq (suc x / 2) x (suc x / 2) (y / 2) (omega arith) (omega arith),
)

bit_or-zero_within : (n x : ℕ) → x ≤ n → bit_or x 0 ≡ x
bit_or-zero_within n zero h = bit_or-bitwise 0 0
bit_or-zero_within zero (suc x) h = absurd (omega arith)
bit_or-zero_within (suc n) (suc x) h =
    omega (arith, bit_or_digit (suc x) 0, bit_or-zero_within n (suc x / 2) (omega arith))

pub bit_or-zero : (x : ℕ) → bit_or x 0 ≡ x
bit_or-zero x = bit_or-zero_within x x (omega arith)

pub bit_or-one : (x : ℕ) → bit_or x 1 ≡ x / 2 * 2 + 1
bit_or-one x = omega (arith, bit_or_digit x 1, bit_or-zero (x / 2))

pub bit_or-two : (x : ℕ) → bit_or x 2 ≡ (x / 4 * 2 + 1) * 2 + x % 2
bit_or-two x = omega (arith, bit_or_digit x 2, bit_or-one (x / 2))

-- Digits that do not meet are added.
pub bit_or_disjoint :
    (k high low : ℕ) → low < 2 ^ k → bit_or (high * 2 ^ k) low ≡ high * 2 ^ k + low
bit_or_disjoint zero high low h = ground (arith, bit_or-zero (high * 2 ^ 0))
bit_or_disjoint (suc k) high low h =
    let double : high * 2 ^ suc k ≡ high * 2 ^ k * 2 =
      omega (arith, ap (λ (t : ℕ). high * t) (pow-suc 2 k)) in
    omega (
      arith,
      double,
      pow-suc 2 k,
      bit_or_digit (high * 2 ^ suc k) low,
      bit_or_disjoint k high (low / 2) (omega (arith, pow-suc 2 k)),
      ap (λ (t : ℕ). bit_or t (low / 2)) (half (high * 2 ^ suc k) (high * 2 ^ k) double),
    )
  where
    half : (a b : ℕ) → a ≡ b * 2 → a / 2 ≡ b
    half a b e = omega arith
